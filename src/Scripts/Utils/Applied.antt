-- ===== src/Scripts/Utils/Applied.antt =====
-- How often `ensure_previous_request_applied` asks, and what it returns.
use mathlib.Core.Path.{subst}
use indy_perf.Base.{
  ℕ, zero, suc, ◌+◌, ◌<◌, ◌≡◌, refl, Bool, true, false, Option, none, some, List, ◌∷◌, arith,
  if◌then◌else◌,
}
use indy_perf.Exn.{Exn, Result, ok}
use indy_perf.Json.{Json, JsonText, loads, dumps}
use indy_perf.Scripts.Calls.{Event, answer, answered, slept, held, Legal, submit_request}
use indy_perf.Scripts.Program.{Script, ret, sleep, noted, paused, Machine, Trace, run}
use indy_perf.Scripts.Program.Runs.{
  Safely, Safely-ask, Safely-throw, Safely-ret, Safely-sleep, Safely-of_result_eq, Ended,
  run-Safely,
}
use indy_perf.Scripts.Utils.{without_type_error, tries, ensure_previous_request_applied}

module _ (p : ℕ) (request : JsonText) (checker : Json → Result Bool) (before : List Event) where
  -- The reply holds a value of which the checker says `b`; a TypeError is a no.
  abbrev pub Checked : JsonText → Bool → Type 0
  Checked r b = (j : Json) × (loads r ≡ ok j) × (without_type_error (checker j) ≡ ok b)

  -- The last events, after `before`, are this many refused replies, with a pause of 5 s after each.
  abbrev pub Refused : ℕ → List Event → Type 0
  Refused zero events = events ≡ before
  Refused (suc n) events =
      (r : JsonText) × (rest : List Event) × (events
        ≡ slept 5 ∷ answered (submit_request p request) r ∷ rest)
      × Checked r false
      × Refused n rest

  -- None is returned after three refused replies and three pauses; a text, with the reply that the checker
  -- takes, after fewer than three.
  abbrev pub Applied : Option JsonText → List Event → Type 0
  Applied none events = Refused 3 events
  Applied (some text) events =
      (n : ℕ) × (r : JsonText) × (j : Json) × (rest : List Event) × (n < 3)
      × (events ≡ answered (submit_request p request) r ∷ rest)
      × Refused n rest
      × (loads r ≡ ok j)
      × (without_type_error (checker j) ≡ ok true)
      × (text ≡ dumps j)

  abbrev Any : Exn → Trace → Type 0
  Any e t = Unit

  Refused-pool :
      (held before).pool ≡ some p
      → (n : ℕ) (events : List Event) → Refused n events
      → (held events).pool ≡ some p
  Refused-pool o zero events e = rw e o
  Refused-pool o (suc n) events (r, rest, e, c, h) = rw e (Refused-pool o n rest h)

  Refused-eq : (n : ℕ) (events : List Event) → n ≡ 3 → Refused n events → Refused 3 events
  Refused-eq n events e h = subst (λ k. Refused k events) e h

  abbrev asked : JsonText → Trace → Trace
  asked r t = noted (submit_request p request) (answer r) t

  -- What a round does with the word of the checker.
  checked-Safely :
      {F : Type 0} (again : Script F (Option JsonText)) (done : ℕ) (t : Trace) (r : JsonText)
      (j : Json) (b : Bool)
      → done < 3
      → Refused done t.events
      → loads r ≡ ok j
      → without_type_error (checker j) ≡ ok b
      → (Refused (suc done) (paused 5 (asked r t)).events
          → Safely (λ a u. Applied a u.events) Any again (paused 5 (asked r t)))
      → Safely
          (λ a u. Applied a u.events)
          Any
          (if b then ret (some (dumps j)) else sleep 5 again)
          (asked r t)
  checked-Safely again done t r j true l h found said next =
      Safely-ret _ _ (done, r, j, t.events, l, refl, h, found, said, refl)
  checked-Safely again done t r j false l h found said next =
      Safely-sleep _ _ _ (next (r, t.events, refl, (j, found, said), h))

  module _ (F : Type 0) (o : (held before).pool ≡ some p) where
    tries-Safely :
        (n done : ℕ) (t : Trace)
        → n + done ≡ 3
        → Refused done t.events
        → Safely {F = F} (λ a u. Applied a u.events) Any (tries p request checker n) t
    unfolding tries
    tries-Safely zero done t e h = Safely-ret none t (Refused-eq done t.events (omega arith) h)
    tries-Safely (suc n) done t e h =
        Safely-ask _ _ t (Refused-pool o done t.events h)
          (λ r.
            Safely-of_result_eq (loads r) _ _
              (λ j found.
                Safely-of_result_eq (without_type_error (checker j)) _ _
                  (λ b said.
                    checked-Safely (tries p request checker n) done t r j b (omega arith) h found
                      said (tries-Safely n (suc done) (paused 5 (asked r t)) (omega arith)))
                  (λ x. tt))
              (λ x. tt))
          (λ x. Safely-throw _ _ tt)

-- With the pool open, and whatever libindy answers: where `ensure_previous_request_applied` returns None, it
-- has asked three times, each reply was refused by the checker, which may be by a TypeError, and 5 s passed
-- after each. Where it returns a text, that is the last reply, the checker takes it, and fewer than three
-- were refused before. It uses no pool that is not open.
pub ensure_previous_request_applied-Applied :
    {W F : Type 0} (m : Machine W F) (p : ℕ) (request : JsonText) (checker : Json → Result Bool)
    (w : W) (t : Trace)
    → (held t.events).pool ≡ some p
    → Legal t.events
    → let (r, w', t') = run m (ensure_previous_request_applied p request checker) w t in
      Legal t'.events
      × Ended (λ a u. Applied p request checker t.events a u.events) (λ e u. Unit {0}) r t'
unfolding ensure_previous_request_applied
ensure_previous_request_applied-Applied {F} m p request checker w t o l =
    run-Safely _ _ m _ w t (tries-Safely p request checker t.events F o 3 0 t (omega arith) refl) l
