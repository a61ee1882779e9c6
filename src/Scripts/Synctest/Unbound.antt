-- ===== src/Scripts/Synctest/Unbound.antt =====
-- The handles of the synchronisation test, and the DID that a wallet has already.
use indy_perf.Base.{
  ℕ, zero, suc, ◌+◌, ◌≡◌, refl, ◌⊎◌, inl, inr, String, Bool, true, false, Option, none, some, List,
  [], ◌∷◌,
}
use indy_perf.Exn.{
  ErrorCode, Exn, indy_error, pool_config_exists, wallet_exists, did_exists, other_code,
  unbound_local,
}
use indy_perf.Json.{JsonText, loads}
use indy_perf.Scripts.Replies.{has_data}
use indy_perf.Scripts.Calls.{
  submit_request, build_get_txn_request, answer, failure, create_and_store_my_did, Event, failed,
  held, Legal,
}
use indy_perf.Scripts.Program.{
  printed, ◌>>◌, noted, said, info, Script, ◌>>=◌, attempt, on_indy_error, Machine, Trace, no_trace,
  run,
}
use indy_perf.Scripts.Program.Runs.{
  Safely, Safely-ret, Safely-throw, Safely-say, Safely-if, Safely-ask, Safely-bind,
  Safely-of_result, Ended, run-Safely, safely_rules,
}
use indy_perf.Scripts.Synctest.{
  unless_wallet_exists, unless_did_exists, row, did_json, pool_call, bound, create_did, create_pool,
  connect, open_trustee_wallet, print_agreement, pull, sync,
}

-- libindy said that the wallet has the DID.
abbrev pub did_existed : List Event → Bool
did_existed [] = false
did_existed (failed (create_and_store_my_did wallet did) did_exists ∷ events) = true
did_existed (e ∷ events) = did_existed events

-- The pool and the wallet are open, and the DID was new.
abbrev Now : ℕ → ℕ → Trace → Type 0
Now p w t =
    ((held t.events).pool ≡ some p)
    × ((held t.events).wallet ≡ some w)
    × (did_existed t.events ≡ false)

abbrev pub IsNew : Option (Unit {0}) → Trace → Type 0
IsNew o t = did_existed t.events ≡ false

abbrev pub Raises : Exn → Trace → Type 0
Raises e t = (did_existed t.events ≡ false) ⊎ (e ≡ unbound_local)

module _ {F A : Type 0} {Q : A → Trace → Type 0} {E : Exn → Trace → Type 0} (f : Unit → Script F A)
    (t : Trace) where
  create_pool-Safely :
      (path : String) (b : Bool)
      → Safely Q E (f tt) t
      → ((e : ErrorCode) → E (indy_error e) (noted (pool_call path) (failure e) t))
      → Safely Q E (f tt) (noted (pool_call path) (answer tt) t)
      → Safely Q E (create_pool path b >>= f) t
  unfolding create_pool
  create_pool-Safely path true s x y = s
  create_pool-Safely path false s x y = Safely-ask _ _ t tt (λ r. y) (λ e. Safely-throw _ _ (x e))

  unless_wallet_exists-Safely :
      (e : ErrorCode)
      → Safely Q E (f tt) (said (info "Wallet already exists") t)
      → E (indy_error e) t
      → Safely Q E (unless_wallet_exists e >>= f) t
  unfolding unless_wallet_exists
  unless_wallet_exists-Safely wallet_exists s x = Safely-say _ _ t s
  unless_wallet_exists-Safely pool_config_exists s x = Safely-throw _ t x
  unless_wallet_exists-Safely did_exists s x = Safely-throw _ t x
  unless_wallet_exists-Safely other_code s x = Safely-throw _ t x

-- After a round.
abbrev asked : ℕ → String → String → ℕ → JsonText → JsonText → Trace → Trace
asked p d l i req rv t =
    said (printed (row l i)) (
      noted (submit_request p req) (answer rv) (noted (build_get_txn_request d l i) (answer req) t))

module _ (F : Type 0) where
  connect-Safely :
      (path : String)
      → Safely {F = F}
          (λ p t.
            ((held t.events).pool ≡ some p)
            × ((held t.events).wallet ≡ none)
            × (did_existed t.events ≡ false))
          Raises
          (connect path)
          no_trace
  unfolding connect
  connect-Safely path = search (safely_rules, create_pool-Safely, inl) depth 60

  open_trustee_wallet-Safely :
      (p : ℕ) (t : Trace)
      → (held t.events).pool ≡ some p
      → (held t.events).wallet ≡ none
      → did_existed t.events ≡ false
      → Safely {F = F} (λ w. Now p w) Raises open_trustee_wallet t
  unfolding open_trustee_wallet
  open_trustee_wallet-Safely p t a b c =
      search (safely_rules, unless_wallet_exists-Safely, inl) depth 60

  -- The DID that is bound, or that none is.
  abbrev Bound : ℕ → ℕ → Option String → Trace → Type 0
  Bound p w none t = Unit
  Bound p w (some s) t = Now p w t

  existed-Safely :
      (p w : ℕ) (t : Trace)
      → Now p w t
      → (e : ErrorCode)
      → Safely {F = F}
          (Bound p w)
          Raises
          (on_indy_error unless_did_exists (indy_error e))
          (noted (create_and_store_my_did w did_json) (failure e) t)
  unfolding unless_did_exists
  existed-Safely p w t n did_exists = Safely-say _ _ _ (Safely-ret _ _ tt)
  existed-Safely p w t n wallet_exists = Safely-throw _ _ (inl n.2)
  existed-Safely p w t n pool_config_exists = Safely-throw _ _ (inl n.2)
  existed-Safely p w t n other_code = Safely-throw _ _ (inl n.2)

  create_did-Safely :
      (p w : ℕ) (t : Trace)
      → Now p w t
      → Safely {F = F}
          (Bound p w)
          Raises
          (attempt (on_indy_error unless_did_exists) (create_did w))
          t
  unfolding create_did
  create_did-Safely p w t n =
      Safely-ask _ _ t n.1 (λ r. Safely-say _ _ _ (Safely-ret _ _ n)) (existed-Safely p w t n)

  print_agreement-Safely :
      (p w : ℕ) (d : String) (t : Trace)
      → Now p w t
      → Safely {F = F} (λ _. Now p w) Raises (print_agreement p w d) t
  unfolding print_agreement
  print_agreement-Safely p w d t n = search (safely_rules, n.0, n.1, n.2, inl) depth 60

  pull-Safely :
      (p w : ℕ) (d l : String) (fuel i : ℕ) (t : Trace)
      → Now p w t
      → Safely {F = F} IsNew Raises (pull p d l fuel i) t
  unfolding pull
  pull-Safely p w d l zero i t n = Safely-ret _ t n.2
  pull-Safely p w d l (suc fuel) i t n =
      Safely-ask _ _ t tt
        (λ req.
          Safely-ask _ _ _ n.0
            (λ rv_json.
              Safely-of_result (loads rv_json) _ _
                (λ rv.
                  Safely-of_result (has_data rv) _ _
                    (λ more.
                      Safely-if more _ _ _
                        (Safely-say _ _ _
                          (pull-Safely p w d l fuel (i + 1) (asked p d l i req rv_json t) n))
                        (Safely-ret _ _ n.2))
                    (λ e. inl n.2))
                (λ e. inl n.2))
            (λ e. Safely-throw _ _ (inl n.2)))
        (λ e. Safely-throw _ _ (inl n.2))

  after_did :
      (p w fuel : ℕ) (o : Option String) (t : Trace)
      → Bound p w o t
      → Safely {F = F} IsNew Raises
          (bound o >>= λ my_did. print_agreement p w my_did >> pull p my_did "DOMAIN" fuel 1)
          t
  unfolding bound
  after_did p w fuel none t b = Safely-throw _ t (inr refl)
  after_did p w fuel (some d) t b =
      Safely-bind _ (λ _ u n. pull-Safely p w d "DOMAIN" fuel 1 u n) _ t
        (print_agreement-Safely p w d t b)

  sync-Safely : (fuel : ℕ) (path : String) → Safely {F = F} IsNew Raises (sync fuel path) no_trace
  unfolding sync
  sync-Safely fuel path =
      Safely-bind _
        (λ p t (a, b, c).
          Safely-bind _
            (λ w u n.
              Safely-bind _ (λ o v h. after_did p w fuel o v h) _ u (create_did-Safely p w u n))
            _ t (open_trustee_wallet-Safely p t a b c))
        _ no_trace (connect-Safely path)

-- Whatever libindy answers: every handle that `sync` uses is open then, and nothing that is open is opened again.
-- Where libindy says that the wallet has the DID already, `sync` does not return: it raises
-- UnboundLocalError.
pub sync-Unbound :
    {W F : Type 0} (m : Machine W F) (fuel : ℕ) (path : String) (w : W)
    → let (r, w', t) = run m (sync fuel path) w no_trace in Legal t.events × Ended IsNew Raises r t
sync-Unbound {F} m fuel path w = run-Safely _ _ m _ w no_trace (sync-Safely F fuel path) tt
