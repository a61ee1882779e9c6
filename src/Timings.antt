-- ===== src/Timings.antt =====
-- test_transactions/parse_result.py: the greatest, the least and the mean of the timings of a test, over
-- its result files.
pub mod Bounds
pub mod Files
use indy_perf.Base.{ℕ, Bool, List, [], ◌∷◌, length, if◌then◌else◌}
use indy_perf.Exn.{Result, ok, err, zero_division}

-- The floats of Python, as far as they are used here.
pub record Floats (F : Type 0) : Type 0 where
  pub zero_float : F
  pub thousand : F
  pub plus : F → F → F
  pub over : F → ℕ → F
  pub lt : F → F → Bool

-- What a result file holds of the writes, and of the reads; and what is printed of them.
pub record Timing (F : Type 0) : Type 0 where
  pub longest : F
  pub shortest : F
  pub avg : F

module _ {F : Type 0} (n : Floats F) where
  -- max(a, b) and min(a, b)
  unfoldable pub greater : F → F → F
  greater a b = if n.lt a b then b else a

  unfoldable pub lesser : F → F → F
  lesser a b = if n.lt b a then b else a

  -- {'max': 0, 'min': 1000, 'avg': 0}
  abbrev pub start : Timing F
  start = record { longest = n.zero_float; shortest = n.thousand; avg = n.zero_float }

  -- The loop over the items.
  unfoldable pub collected : Timing F → List (Timing F) → Timing F
  unfolding greater lesser
  collected t [] = t
  collected t (i ∷ items) =
      collected
        (record {
          longest = greater t.longest i.longest;
          shortest = lesser t.shortest i.shortest;
          avg = n.plus t.avg i.avg;
        })
        items

  -- The mean of no items is a division by zero.
  unfoldable pub parsed_result : List (Timing F) → Result (Timing F)
  unfolding collected
  parsed_result [] = err zero_division
  parsed_result (i ∷ items) =
      let t = collected start (i ∷ items) in
      ok (record t { avg = n.over t.avg (length (i ∷ items)) })
