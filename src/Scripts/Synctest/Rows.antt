-- ===== src/Scripts/Synctest/Rows.antt =====
-- What the loop prints of a ledger that does not grow meanwhile.
use mathlib.Core.List.{append_assoc}
use indy_perf.Base.{
  ◌∙◌, sym, ℕ, zero, suc, ◌+◌, ◌<◌, ◌≤◌, ◌≡◌, refl, String, true, false, Option, some, List, [],
  ◌∷◌, ◌++◌, arith, leb, if◌then◌else◌,
}
use indy_perf.Exn.{ok}
use indy_perf.Json.{Json, JsonText, loads}
use indy_perf.Scripts.Calls.{answer, build_get_txn_request, submit_request}
use indy_perf.Scripts.Program.{
  ret, ◌>>◌, said, noted, print, Line, printed, of_result, Machine, Trace, run,
}
use indy_perf.Scripts.Replies.{has_data}
use indy_perf.Scripts.Synctest.{row, pull}

-- A pool that answers every request for a transaction: with data for the numbers 1 to `count`, and without
-- for those above. This holds of the world while `P` does, and the answers leave `P`.
pub record HasLedger {W F : Type 0} (m : Machine W F) (P : W → Type 0) (pool : ℕ)
    (did ledger : String) (count : ℕ) : Type 0 where
  pub request : ℕ → JsonText
  pub reply : ℕ → JsonText
  pub value : ℕ → Json
  pub built :
      (w : W) (i : ℕ)
      → P w
      → (m.perform (build_get_txn_request did ledger i) w).0 ≡ answer (request i)
  pub built_keeps : (w : W) (i : ℕ) → P w → P (m.perform (build_get_txn_request did ledger i) w).1
  pub sent :
      (w : W) (i : ℕ) → P w → (m.perform (submit_request pool (request i)) w).0 ≡ answer (reply i)
  pub sent_keeps : (w : W) (i : ℕ) → P w → P (m.perform (submit_request pool (request i)) w).1
  pub parsed : (i : ℕ) → loads (reply i) ≡ ok (value i)
  pub tested : (i : ℕ) → has_data (value i) ≡ ok (leb i count)

-- The lines of the rows from `i`, so many, the last first.
abbrev pub rows : String → ℕ → ℕ → List Line
rows ledger i zero = []
rows ledger i (suc n) = rows ledger (i + 1) n ++ (printed (row ledger i) ∷ [])

leb_above : (i n : ℕ) → n < i → leb i n ≡ false
leb_above i n h = ground arith

leb_within : (i n : ℕ) → i ≤ n → leb i n ≡ true
leb_within i n h = ground arith

module _ {W F : Type 0} (m : Machine W F) (P : W → Type 0) (pool : ℕ) (did ledger : String)
    (count : ℕ) (h : HasLedger m P pool did ledger count) where
  -- The world and the trace after a round's request and its reply.
  abbrev world_after : ℕ → W → W
  world_after i w =
      (m.perform (submit_request pool (h.request i))
        (m.perform (build_get_txn_request did ledger i) w).1).1

  abbrev trace_after : ℕ → Trace → Trace
  trace_after i t =
      noted (submit_request pool (h.request i)) (answer (h.reply i))
        (noted (build_get_txn_request did ledger i) (answer (h.request i)) t)

  round :
      (fuel i : ℕ) (w : W) (t : Trace)
      → P w
      → run m (pull pool did ledger (suc fuel) i) w t
        ≡ run m
            (if leb i count
              then print (row ledger i) >> pull pool did ledger fuel (i + 1)
              else ret (some tt))
            (world_after i w)
            (trace_after i t)
  unfolding pull run of_result
  round fuel i w t q =
      rw (h.built w i q, run)
        (rw (h.sent _ i (h.built_keeps w i q), run) (rw (h.parsed i) (rw (h.tested i) refl)))

  stopped :
      (i : ℕ) (w : W) (t : Trace)
      → let (r, w', t') =
          run m {A = Option Unit} (ret (some tt)) (world_after i w) (trace_after i t) in
        (r ≡ ok (some tt)) × (t'.lines ≡ t.lines)
  unfolding run
  stopped i w t = (refl, refl)

  abbrev Printed : ℕ → ℕ → ℕ → W → Trace → Type 0
  Printed n fuel i w t =
      let (r, w', t') = run m (pull pool did ledger fuel i) w t in
      (r ≡ ok (some tt)) × (t'.lines ≡ rows ledger i n ++ t.lines)

  printed_row :
      (n fuel i : ℕ) (w : W) (t : Trace)
      → Printed n fuel (i + 1) (world_after i w) (said (printed (row ledger i)) (trace_after i t))
      → let (r, w', t') =
          run m
            (print (row ledger i) >> pull pool did ledger fuel (i + 1))
            (world_after i w)
            (trace_after i t) in
        (r ≡ ok (some tt)) × (t'.lines ≡ rows ledger i (suc n) ++ t.lines)
  unfolding run
  printed_row n fuel i w t (e, f) = (e, f ∙ sym (append_assoc (rows ledger (i + 1) n) _ _))

  pull-rows :
      (n fuel i : ℕ) (w : W) (t : Trace) → n < fuel → i + n ≡ count + 1 → P w → Printed n fuel i w t
  pull-rows n zero i w t l e q = elim l [ ]
  pull-rows zero (suc fuel) i w t l e q =
      rw (round fuel i w t q) (rw (leb_above i count (omega arith)) (stopped i w t))
  pull-rows (suc n) (suc fuel) i w t l e q = rw (round fuel i w t q) (
      rw (leb_within i count (omega arith)) (
        printed_row n fuel i w t (
          pull-rows n fuel (i + 1) (world_after i w)
            (said (printed (row ledger i)) (trace_after i t)) (omega arith) (omega arith)
            (h.sent_keeps _ i (h.built_keeps w i q)))))

-- Of a ledger of `count` transactions, which answers each request, the loop prints the numbers 1 to `count`
-- in order, each once, and ends, with more fuel than that.
pub pull_all :
    {W F : Type 0} (m : Machine W F) (P : W → Type 0) (pool : ℕ) (did ledger : String)
    (count fuel : ℕ) (w : W) (t : Trace)
    → HasLedger m P pool did ledger count
    → P w
    → count < fuel
    → let (r, w', t') = run m (pull pool did ledger fuel 1) w t in
      (r ≡ ok (some tt)) × (t'.lines ≡ rows ledger 1 count ++ t.lines)
pull_all m P pool did ledger count fuel w t h q l =
    pull-rows m P pool did ledger count h count fuel 1 w t l (omega arith) q
