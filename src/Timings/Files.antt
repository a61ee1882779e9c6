-- ===== src/Timings/Files.antt =====
-- test_transactions/parse_result.py: the result files that the script reads, and what it prints of them.
pub mod Sorted
use Prim.Native.Char.{code}
use indy_perf.Base.{ℕ, String, Bool, ◌||◌, List, [], ◌∷◌, map, ◌==◌, str_eq, if◌then◌else◌}
use indy_perf.Exn.{Result, ok, err, key_error, index_error, ◌>>=◌}
use indy_perf.Anchor.LedgerType.{same_codes}
use indy_perf.Anchor.Seeds.{codes}
use indy_perf.Timings.{Floats, Timing, parsed_result}

-- file.split('_')[0]
unfoldable pub prefix : String → String
prefix String.[] = ""
prefix (String.◌∷◌ c s) = let rest = prefix s in if code c == b'_' then "" else String.◌∷◌ c rest

-- Both texts as code points.
abbrev pub has_end : List ℕ → List ℕ → Bool
has_end t [] = same_codes [] t
has_end t (c ∷ l) = same_codes (c ∷ l) t || has_end t l

-- file.endswith(".txt")
unfoldable pub is_text_file : String → Bool
is_text_file s = has_end (codes ".txt") (codes s)

-- ['1', '50', '100', '150', '200', '250']
abbrev pub test_sizes : List String
test_sizes = "1" ∷ "50" ∷ "100" ∷ "150" ∷ "200" ∷ "250" ∷ []

-- The items of each key: result['max'], or result['min'].
abbrev pub Column : Type 0 → Type 0
Column F = List (String × List (Timing F))

pub record Results (F : Type 0) : Type 0 where
  pub writes : Column F
  pub reads : Column F

-- What is printed.
pub data Line (F : Type 0) : Type 0 where
  printed : String → Line F
  summary : Timing F → Line F

-- A file of the directory: its name, and what json.load makes of its text.
pub record ResultFile (F : Type 0) : Type 0 where
  pub name : String
  pub parsed : Result (List (Timing F))

-- What was printed, and whether an exception ended it.
abbrev pub Report : Type 0 → Type 0
Report F = List (Line F) × Result Unit

module _ {F : Type 0} where
  abbrev pub empty_column : List String → Column F
  empty_column keys = map (λ k. (k, [])) keys

  abbrev pub no_results : Results F
  no_results = record { writes = empty_column test_sizes; reads = empty_column test_sizes }

  appended : List (Timing F) → Timing F → List (Timing F)
  appended [] i = i ∷ []
  appended (j ∷ l) i = j ∷ appended l i

  -- column[key].append(item)
  unfoldable pub append_at : String → Result (Timing F) → Column F → Result (Column F)
  unfolding appended
  append_at k i [] = err (key_error k)
  append_at k i ((j, l) ∷ c) =
      if str_eq j k
      then (do x ← i; ok ((j, appended l x) ∷ c))
      else (do c' ← append_at k i c; ok ((j, l) ∷ c'))

  -- column[key], of a key that is there
  unfoldable pub items_at : Column F → String → List (Timing F)
  items_at [] k = []
  items_at ((j, l) ∷ c) k = if str_eq j k then l else items_at c k

  pub first_item : List (Timing F) → Result (Timing F)
  first_item [] = err index_error
  first_item (w ∷ l) = ok w

  pub second_item : List (Timing F) → Result (Timing F)
  second_item [] = err index_error
  second_item (w ∷ l) = first_item l

  unfoldable pub read_text_file : ResultFile F → Results F → Result (Results F)
  unfolding append_at first_item second_item
  read_text_file file t = do
    parsed ← file.parsed
    writes ← append_at (prefix file.name) (first_item parsed) t.writes
    reads ← append_at (prefix file.name) (second_item parsed) t.reads
    ok (record { writes = writes; reads = reads })

  -- The loop over os.listdir().
  unfoldable pub read_files : List (ResultFile F) → Results F → Result (Results F)
  unfolding read_text_file
  read_files [] t = ok t
  read_files (file ∷ files) t = do
    t' ← if is_text_file file.name then read_text_file file t else ok t
    read_files files t'

  module _ (n : Floats F) where
    -- The summary of the items after a line, and what follows; no items end the script.
    unfoldable pub summarised : String → List (Timing F) → Report F → Report F
    summarised what items rest = elim (parsed_result n items) [
      | err e ↦ ([], err e)
      | ok t ↦ (printed what ∷ summary t ∷ rest.0, rest.1)
    ]

    -- The loop over the keys, with the items of each.
    unfoldable pub report :
        List String → (String → List (Timing F)) → (String → List (Timing F)) → Report F
    unfolding summarised
    report [] writes reads = ([], ok tt)
    report (k ∷ keys) writes reads =
        let rest = report keys writes reads in
        let (lines, r) = summarised "Write" (writes k) (summarised "Read" (reads k) rest) in
        (printed k ∷ lines, r)

    unfoldable pub parse_result : List (ResultFile F) → Report F
    unfolding read_files report
    parse_result files = elim (read_files files no_results) [
      | err e ↦ ([], err e)
      | ok t ↦ report test_sizes (items_at t.writes) (items_at t.reads)
    ]
