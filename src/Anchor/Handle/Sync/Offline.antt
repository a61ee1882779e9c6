-- ===== src/Anchor/Handle/Sync/Offline.antt =====
-- The tasks that keep the cache current, of an anchor that is not ready.
use indy_perf.Base.{ℕ, zero, suc, ◌+◌, String, Bool, true, false, Option, none, some, List, [], ◌∷◌}
use indy_perf.Exn.{Exn, timeout_error}
use indy_perf.Exec.{pure}
use indy_perf.Exec.Runs.{
  Ends, Keeps, Keeps-pure, Keeps-raise, Keeps-block, Keeps-bind, Keeps-if, Keeps-when_some,
  Keeps-finally, keeps_rules,
}
use indy_perf.Anchor.LedgerType.{LedgerType, LedgerValue}
use indy_perf.Anchor.Cache.Connection.{reset}
use indy_perf.Anchor.Handle.State.{Env, State, Lock, absent, free, held, on_cache}
use indy_perf.Anchor.Handle.Unready.{Unready, Keeps-on_cache, Keeps-get_txn, Keeps-fetch_tail_txn}
use indy_perf.Anchor.Handle.Sync.{
  ledger_types, reset_if, check_latest, pull, sync_body, sync_at, released, sync_ledger_cache,
  timed_out, update_ledger_cache, sync_all, init_cache, update_all, maintain_round, reset_at,
  reset_ledger_cache, get_txn_search,
}

module _ {W : Type 0} {w : W} (env : Env W) where
  Keeps-reset_if : (b : Bool) → Keeps (Unready w) (reset_if env b)
  unfolding reset_if
  Keeps-reset_if true = Keeps-on_cache reset
  Keeps-reset_if false = Keeps-pure tt

  Keeps-check_latest : (t : LedgerType) (l : Option ℕ) → Keeps (Unready w) (check_latest env t l)
  unfolding check_latest
  Keeps-check_latest t none = Keeps-pure tt
  Keeps-check_latest t (some n) =
      search (keeps_rules, Keeps-get_txn env, Keeps-on_cache, Keeps-reset_if) depth 10

  Keeps-pull : (fuel : ℕ) (t : LedgerType) (n : ℕ) → Keeps (Unready w) (pull env fuel t n)
  unfolding pull
  Keeps-pull zero t n = Keeps-block
  Keeps-pull (suc fuel) t n = Keeps-bind _ _ (Keeps-fetch_tail_txn env t none) λ row.
      Keeps-when_some row _ λ i. Keeps-if _ (pure tt) _ (Keeps-pure tt) (Keeps-pull fuel t (n + 1))

  Keeps-sync_body : (fuel : ℕ) (t : LedgerType) → Keeps (Unready w) (sync_body env fuel t)
  unfolding sync_body
  Keeps-sync_body fuel t =
      search (keeps_rules, Keeps-on_cache, Keeps-check_latest, Keeps-pull) depth 10

  Ends-sync_at :
      (l : Lock) (fuel : ℕ) (t : LedgerType) (wait : Bool) (h : State W)
      → Unready w h
      → Ends (λ a. Unready w) (Unready w) (sync_at env l fuel t wait h)
  unfolding sync_at released
  Ends-sync_at absent fuel t wait h p = p
  Ends-sync_at held fuel t true h p = p
  Ends-sync_at held fuel t false h p = p
  Ends-sync_at free fuel t wait h p =
      (Keeps-finally (sync_body env fuel t) _ (Keeps-sync_body fuel t)
          (λ s q. record { unready = q.unready; untouched = q.untouched })).at
        _ (record { unready = p.unready; untouched = p.untouched })

  pub Keeps-sync :
      (fuel : ℕ) (t : LedgerType) (wait : Bool)
      → Keeps (Unready w) (sync_ledger_cache env fuel t wait)
  unfolding sync_ledger_cache
  Keeps-sync fuel t wait = record { at = λ h p. Ends-sync_at h.sync_lock fuel t wait h p }

  Keeps-timed_out : (e : Exn) → Keeps (Unready w) (timed_out env e)
  unfolding timed_out
  Keeps-timed_out timeout_error = Keeps-pure tt
  Keeps-timed_out e = Keeps-raise _

  pub Keeps-update :
      (fuel : ℕ) (t : LedgerType) → Keeps (Unready w) (update_ledger_cache env fuel t)
  unfolding update_ledger_cache
  Keeps-update fuel t = search (keeps_rules, Keeps-sync, Keeps-timed_out)

  Keeps-sync_all : (fuel : ℕ) (ts : List LedgerType) → Keeps (Unready w) (sync_all env fuel ts)
  unfolding sync_all
  Keeps-sync_all fuel [] = Keeps-pure tt
  Keeps-sync_all fuel (t ∷ ts) =
      Keeps-bind _ _ (Keeps-sync fuel t true) (λ _. Keeps-sync_all fuel ts)

  pub Keeps-init : (fuel : ℕ) → Keeps (Unready w) (init_cache env fuel)
  unfolding init_cache
  Keeps-init fuel = Keeps-sync_all fuel ledger_types

  Keeps-update_all : (fuel : ℕ) (ts : List LedgerType) → Keeps (Unready w) (update_all env fuel ts)
  unfolding update_all
  Keeps-update_all fuel [] = Keeps-pure tt
  Keeps-update_all fuel (t ∷ ts) =
      Keeps-bind _ _ (Keeps-update fuel t) (λ _. Keeps-update_all fuel ts)

  pub Keeps-maintain : (fuel : ℕ) → Keeps (Unready w) (maintain_round env fuel)
  unfolding maintain_round
  Keeps-maintain fuel = Keeps-update_all fuel ledger_types

  Ends-reset_at :
      (l : Lock) (h : State W) → Unready w h → Ends (λ a. Unready w) (Unready w) (reset_at env l h)
  unfolding reset_at
  Ends-reset_at absent h p = p
  Ends-reset_at held h p = p
  Ends-reset_at free h p =
      (Keeps-finally (on_cache reset) _ (Keeps-on_cache reset)
          (λ s q. record { unready = q.unready; untouched = q.untouched })).at
        _ (record { unready = p.unready; untouched = p.untouched })

  pub Keeps-reset : Keeps (Unready w) (reset_ledger_cache env)
  unfolding reset_ledger_cache
  Keeps-reset = record { at = λ h p. Ends-reset_at h.sync_lock h p }

  pub Keeps-search :
      (fuel : ℕ) (lv : LedgerValue) (q ty : Option String) (limit : Option ℕ) (offset : ℕ)
      → Keeps (Unready w) (get_txn_search env fuel lv q ty limit offset)
  unfolding get_txn_search
  Keeps-search fuel lv q ty limit offset = search (keeps_rules, Keeps-sync, Keeps-on_cache)
