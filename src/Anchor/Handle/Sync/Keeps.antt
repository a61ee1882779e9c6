-- ===== src/Anchor/Handle/Sync/Keeps.antt =====
-- The tasks that keep the cache current leave no gap in it.
use indy_perf.Base.{ℕ, zero, suc, ◌+◌, String, Bool, true, false, Option, none, some, List, [], ◌∷◌}
use indy_perf.Exn.{Exn, timeout_error}
use indy_perf.Exec.{pure}
use indy_perf.Exec.Runs.{
  Ends, Keeps, Keeps-pure, Keeps-raise, Keeps-block, Keeps-bind, Keeps-finally, Keeps-when_some,
  Keeps-if, Runs-weaken, keeps_rules,
}
use indy_perf.Anchor.LedgerType.{LedgerType, LedgerValue}
use indy_perf.Anchor.Ident.{int}
use indy_perf.Anchor.Cache
use indy_perf.Anchor.Cache.Connection.{reset}
use indy_perf.Anchor.Cache.Filled.{IsFilled}
use indy_perf.Anchor.Cache.Sound.{Keeps-reset}
use indy_perf.Anchor.Cache.Selects.{
  Runs-get_txn, Runs-get_latest_seqno, Keeps-get_txn_search as Keeps-cached_search,
}
use indy_perf.Anchor.Handle.State.{Env, State, Lock, absent, free, held, on_cache}
use indy_perf.Anchor.Handle.Holds.{Holds, Holds-weaken, Runs-on_cache}
use indy_perf.Anchor.Handle.NoGap.{Filled, Keeps-get_txn, Keeps-fetch_tail_txn}
use indy_perf.Anchor.Handle.Sync.{
  ledger_types, reset_if, check_latest, pull, sync_body, sync_at, released, sync_ledger_cache,
  timed_out, update_ledger_cache, sync_all, init_cache, update_all, maintain_round, reset_at,
  reset_ledger_cache, get_txn_search,
}

module _ {W : Type 0} (env : Env W) where
  Keeps-reset_if : (b : Bool) → Keeps Filled (reset_if env b)
  unfolding reset_if
  Keeps-reset_if true = Runs-on_cache reset Keeps-reset
  Keeps-reset_if false = Keeps-pure tt

  Keeps-cached :
      (t : LedgerType) (n : ℕ) → Keeps (Holds {W = W} IsFilled) (on_cache (Cache.get_txn t (int n)))
  Keeps-cached t n =
      Runs-weaken _ (λ s p. p) (λ a. Holds-weaken (λ tb p. p.0)) (λ s p. p)
        (Runs-on_cache _ (Runs-get_txn t (int n)))

  Keeps-latest :
      (t : LedgerType) → Keeps (Holds {W = W} IsFilled) (on_cache (Cache.get_latest_seqno t))
  Keeps-latest t =
      Runs-weaken _ (λ s p. p) (λ a. Holds-weaken (λ tb p. p.0)) (λ s p. p)
        (Runs-on_cache _ (Runs-get_latest_seqno t))

  Keeps-check_latest :
      (t : LedgerType) (latest : Option ℕ) → Keeps Filled (check_latest env t latest)
  unfolding check_latest
  Keeps-check_latest t none = Keeps-pure tt
  Keeps-check_latest t (some n) =
      search (keeps_rules, Keeps-get_txn env, Keeps-cached, Keeps-reset_if) depth 10

  Keeps-pull : (fuel : ℕ) (t : LedgerType) (fetched : ℕ) → Keeps Filled (pull env fuel t fetched)
  unfolding pull
  Keeps-pull zero t fetched = Keeps-block
  Keeps-pull (suc fuel) t fetched = Keeps-bind _ _ (Keeps-fetch_tail_txn env t none) λ row.
      Keeps-when_some row _
        λ i. Keeps-if _ (pure tt) _ (Keeps-pure tt) (Keeps-pull fuel t (fetched + 1))

  Keeps-sync_body : (fuel : ℕ) (t : LedgerType) → Keeps Filled (sync_body env fuel t)
  unfolding sync_body
  Keeps-sync_body fuel t =
      search (keeps_rules, Keeps-latest, Keeps-check_latest, Keeps-pull) depth 10

  Keeps-sync_at :
      (l : Lock) (fuel : ℕ) (t : LedgerType) (wait : Bool) (h : State W)
      → Filled h
      → Ends (λ a. Filled) Filled (sync_at env l fuel t wait h)
  unfolding sync_at released
  Keeps-sync_at absent fuel t wait h p = p
  Keeps-sync_at held fuel t true h p = p
  Keeps-sync_at held fuel t false h p = p
  Keeps-sync_at free fuel t wait h p =
      (Keeps-finally (sync_body env fuel t) _ (Keeps-sync_body fuel t)
          (λ s q. record { cache = q.cache })).at
        _ (record { cache = p.cache })

  -- A sync leaves no gap, however it ends.
  pub Keeps-sync_ledger_cache :
      (fuel : ℕ) (t : LedgerType) (wait : Bool) → Keeps Filled (sync_ledger_cache env fuel t wait)
  unfolding sync_ledger_cache
  Keeps-sync_ledger_cache fuel t wait = record {
    at = λ h p. Keeps-sync_at h.sync_lock fuel t wait h p;
  }

  Keeps-timed_out : (e : Exn) → Keeps Filled (timed_out env e)
  unfolding timed_out
  Keeps-timed_out timeout_error = Keeps-pure tt
  Keeps-timed_out e = Keeps-raise _

  pub Keeps-update_ledger_cache :
      (fuel : ℕ) (t : LedgerType) → Keeps Filled (update_ledger_cache env fuel t)
  unfolding update_ledger_cache
  Keeps-update_ledger_cache fuel t = search (keeps_rules, Keeps-sync_ledger_cache, Keeps-timed_out)

  Keeps-sync_all : (fuel : ℕ) (ts : List LedgerType) → Keeps Filled (sync_all env fuel ts)
  unfolding sync_all
  Keeps-sync_all fuel [] = Keeps-pure tt
  Keeps-sync_all fuel (t ∷ ts) =
      Keeps-bind _ _ (Keeps-sync_ledger_cache fuel t true) (λ _. Keeps-sync_all fuel ts)

  pub Keeps-init_cache : (fuel : ℕ) → Keeps Filled (init_cache env fuel)
  unfolding init_cache
  Keeps-init_cache fuel = Keeps-sync_all fuel ledger_types

  Keeps-update_all : (fuel : ℕ) (ts : List LedgerType) → Keeps Filled (update_all env fuel ts)
  unfolding update_all
  Keeps-update_all fuel [] = Keeps-pure tt
  Keeps-update_all fuel (t ∷ ts) =
      Keeps-bind _ _ (Keeps-update_ledger_cache fuel t) (λ _. Keeps-update_all fuel ts)

  pub Keeps-maintain_round : (fuel : ℕ) → Keeps Filled (maintain_round env fuel)
  unfolding maintain_round
  Keeps-maintain_round fuel = Keeps-update_all fuel ledger_types

  Keeps-reset_at :
      (l : Lock) (h : State W) → Filled h → Ends (λ a. Filled) Filled (reset_at env l h)
  unfolding reset_at
  Keeps-reset_at absent h p = p
  Keeps-reset_at held h p = p
  Keeps-reset_at free h p =
      (Keeps-finally (on_cache reset) _ (Runs-on_cache reset Keeps-reset)
          (λ s q. record { cache = q.cache })).at
        _ (record { cache = p.cache })

  pub Keeps-reset_ledger_cache : Keeps Filled (reset_ledger_cache env)
  unfolding reset_ledger_cache
  Keeps-reset_ledger_cache = record { at = λ h p. Keeps-reset_at h.sync_lock h p }

  Keeps-search :
      (t : LedgerType) (q ty : Option String) (limit : Option ℕ) (offset : ℕ)
      → Keeps (Filled {W = W}) (on_cache (Cache.get_txn_search env.fts t q ty limit offset true))
  Keeps-search t q ty limit offset =
      Runs-on_cache _ (Keeps-cached_search t env.fts q ty limit offset true)

  pub Keeps-get_txn_search :
      (fuel : ℕ) (lv : LedgerValue) (q ty : Option String) (limit : Option ℕ) (offset : ℕ)
      → Keeps Filled (get_txn_search env fuel lv q ty limit offset)
  unfolding get_txn_search
  Keeps-get_txn_search fuel lv q ty limit offset =
      search (keeps_rules, Keeps-sync_ledger_cache, Keeps-search)
