-- ===== src/Scripts/Steward/Closes.antt =====
-- What `write_nym_and_query` leaves open, whatever libindy answers.
use indy_perf.Base.{ℕ, ◌≡◌, refl, ◌⊎◌, String, Option, none, some}
use indy_perf.Exn.{ErrorCode, Exn, pool_config_exists, wallet_exists, did_exists, other_code}
use indy_perf.Json.{Json}
use indy_perf.Anchor.Terms.{Codecs}
use indy_perf.Scripts.Calls.{held, nothing, Legal}
use indy_perf.Scripts.Program.{Script, ◌>>=◌, Machine, Trace, no_trace, run}
use indy_perf.Scripts.Program.Runs.{
  Safely, Safely-bind, Ended, run-Safely, safely_rules, Reported, IsOther, Safely-reporting,
}
use indy_perf.Scripts.Steward.{
  unless_pool_config_exists, unless_wallet_exists, open_pool, open_new_wallet, create_dids,
  write_nym, query_nym, compare_verkeys, clean_up, steps, write_nym_and_query,
}

-- The pool and the wallet that are open.
abbrev pub Open : Option ℕ → Option ℕ → Trace → Type 0
Open p w t = ((held t.events).pool ≡ p) × ((held t.events).wallet ≡ w)

abbrev Any : Exn → Trace → Type 0
Any e t = Unit

module _ {F A : Type 0} {Q : A → Trace → Type 0} {E : Exn → Trace → Type 0} (f : Unit → Script F A)
    (t : Trace) (s : Safely Q E (f tt) t) where
  unless_pool_config_exists-Safely :
      (e : ErrorCode) → Safely Q E (unless_pool_config_exists e >>= f) t
  unless_pool_config_exists-Safely pool_config_exists = s
  unless_pool_config_exists-Safely wallet_exists = s
  unless_pool_config_exists-Safely did_exists = s
  unless_pool_config_exists-Safely other_code = s

  unless_wallet_exists-Safely : (e : ErrorCode) → Safely Q E (unless_wallet_exists e >>= f) t
  unless_wallet_exists-Safely wallet_exists = s
  unless_wallet_exists-Safely pool_config_exists = s
  unless_wallet_exists-Safely did_exists = s
  unless_wallet_exists-Safely other_code = s

module _ (F : Type 0) (codecs : Codecs) (path : String) where
  open_pool-Safely :
      (t : Trace)
      → Open none none t
      → Safely {F = F} (λ p. Open (some p) none) Any (open_pool codecs path) t
  unfolding open_pool
  open_pool-Safely t o = search (safely_rules, unless_pool_config_exists-Safely, o.0, o.1) depth 60

  open_new_wallet-Safely :
      (p : ℕ) (t : Trace)
      → Open (some p) none t
      → Safely {F = F} (λ w. Open (some p) (some w)) Any (open_new_wallet codecs path) t
  unfolding open_new_wallet
  open_new_wallet-Safely p t o =
      search (safely_rules, unless_wallet_exists-Safely, o.0, o.1) depth 60

  create_dids-Safely :
      (p w : ℕ) (t : Trace)
      → Open (some p) (some w) t
      → Safely {F = F} (λ _. Open (some p) (some w)) Any (create_dids codecs path w) t
  unfolding create_dids
  create_dids-Safely p w t o = search (safely_rules, o.1) depth 60

  write_nym-Safely :
      (p w : ℕ) (dids : String × String × String) (t : Trace)
      → Open (some p) (some w) t
      → Safely {F = F} (λ _. Open (some p) (some w)) Any (write_nym codecs path p w dids) t
  unfolding write_nym
  write_nym-Safely p w (steward, anchor, verkey) t o = search (safely_rules, o) depth 60

  query_nym-Safely :
      (p w : ℕ) (did : String) (t : Trace)
      → Open (some p) (some w) t
      → Safely {F = F} (λ _. Open (some p) (some w)) Any (query_nym codecs path p w did) t
  unfolding query_nym
  query_nym-Safely p w did t o = search (safely_rules, o.0, o.1) depth 80

  compare_verkeys-Safely :
      (p w : ℕ) (verkey : String) (response : Json) (t : Trace)
      → Open (some p) (some w) t
      → Safely {F = F}
          (λ _. Open (some p) (some w))
          Any
          (compare_verkeys codecs path verkey response)
          t
  unfolding compare_verkeys
  compare_verkeys-Safely p w verkey response t o = search (safely_rules, o) depth 80

  clean_up-Safely :
      (p w : ℕ) (t : Trace)
      → Open (some p) (some w) t
      → Safely {F = F} (λ _ t'. held t'.events ≡ nothing) Any (clean_up codecs path p w) t
  unfolding clean_up
  clean_up-Safely p w t o = search (safely_rules, o.0, o.1) depth 60

  steps-Safely :
      (t : Trace)
      → Open none none t
      → Safely {F = F} (λ _ t'. held t'.events ≡ nothing) Any (steps codecs path) t
  unfolding steps
  steps-Safely t o =
      Safely-bind _
        (λ p u o1.
          Safely-bind _
            (λ w u2 o2.
              Safely-bind _
                (λ dids u3 o3.
                  Safely-bind _
                    (λ _ u4 o4.
                      Safely-bind _
                        (λ response u5 o5.
                          Safely-bind _ (λ _ u6 o6. clean_up-Safely p w u6 o6) _ u5
                            (compare_verkeys-Safely p w _ response u5 o5))
                        _ u4 (query_nym-Safely p w _ u4 o4))
                    _ u3 (write_nym-Safely p w _ u3 o3))
                _ u2 (create_dids-Safely p w u2 o2))
            _ u (open_new_wallet-Safely p u o1))
        _ t (open_pool-Safely t o)

-- Whatever libindy answers: every handle that the script uses is open when it is used, and nothing that
-- is open is opened again or deleted. The script raises no IndyError. Where it returns, it has closed and
-- deleted the pool and the wallet, or its last line reports an IndyError.
pub write_nym_and_query-Legal :
    {W F : Type 0} (m : Machine W F) (codecs : Codecs) (path : String) (w : W)
    → let (r, w', t) = run m (write_nym_and_query codecs path) w no_trace in
      Legal t.events × Ended (λ _ u. (held u.events ≡ nothing) ⊎ Reported u) (λ e u. IsOther e) r t
unfolding write_nym_and_query
write_nym_and_query-Legal {F} m codecs path w =
    run-Safely _ _ m _ w no_trace
      (Safely-reporting (steps codecs path) no_trace
        (steps-Safely F codecs path no_trace (refl, refl)))
      tt
