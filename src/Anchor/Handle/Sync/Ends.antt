-- ===== src/Anchor/Handle/Sync/Ends.antt =====
-- A sync comes to an end and gives its locks back.
use indy_perf.Base.{
  ℕ, zero, suc, ◌+◌, ◌<◌, ◌≤◌, ◌≡◌, refl, Bool, true, false, ◌&&◌, ltb, leb, Option, none, some,
  arith,
}
use indy_perf.Exec.{pure}
use indy_perf.Exec.Runs.{
  Stops, Prompt, Keeps-pure, Keeps-bind, Keeps-when_some, Runs-if, Runs-finally, keeps_rules,
}
use indy_perf.Anchor.LedgerType.{LedgerType}
use indy_perf.Anchor.Cache.Connection.{reset}
use indy_perf.Anchor.Cache.Prompt.{Prompt-reset}
use indy_perf.Anchor.Handle.State.{Env, State, Lock, absent, free, held}
use indy_perf.Anchor.Handle.Prompt.{
  LockIs, Prompt-on_cache, Prompt-cached_get, Prompt-cached_latest, Prompt-get_txn,
  Prompt-fetch_tail_txn,
}
use indy_perf.Anchor.Handle.Sync.{
  reset_if, check_latest, is_full, pull, sync_body, released, sync_at, sync_ledger_cache,
}

-- No task holds a lock, and none is said to be syncing.
pub record Idle {W : Type 0} (h : State W) : Type 0 where
  pub ledger_free : h.ledger_lock ≡ free
  pub sync_free : h.sync_lock ≡ free
  pub quiet : h.syncing ≡ false

not_full : (m fetched : ℕ) → 0 < m → ltb 0 m && leb m fetched ≡ false → fetched < m
not_full m fetched h e = ground arith

module _ {W : Type 0} (env : Env W) where
  Prompt-reset_if : (b : Bool) → Prompt (LockIs free) (reset_if env b)
  unfolding reset_if
  Prompt-reset_if true = Prompt-on_cache reset Prompt-reset
  Prompt-reset_if false = Keeps-pure tt

  Prompt-check_latest :
      (t : LedgerType) (latest : Option ℕ) → Prompt (LockIs free) (check_latest env t latest)
  unfolding check_latest
  Prompt-check_latest t none = Keeps-pure tt
  Prompt-check_latest t (some n) =
      search (keeps_rules, Prompt-get_txn env, Prompt-cached_get env, Prompt-reset_if) depth 10

  Prompt-pull :
      (fuel : ℕ) (t : LedgerType) (fetched : ℕ)
      → fetched < env.max_fetch
      → env.max_fetch ≤ fetched + fuel
      → Prompt (LockIs free) (pull env fuel t fetched)
  unfolding pull
  Prompt-pull zero t fetched h g = absurd (omega arith)
  Prompt-pull (suc fuel) t fetched h g = Keeps-bind _ _ (Prompt-fetch_tail_txn env t none) λ row.
      Keeps-when_some row _ λ i.
        Runs-if (is_full env (fetched + 1)) (pure tt) _ (λ _. Keeps-pure tt)
          (λ more.
            Prompt-pull fuel t (fetched + 1)
              (not_full env.max_fetch (fetched + 1) (omega arith) more) (omega arith))

  module _ (fuel : ℕ) (some_max : 0 < env.max_fetch) (enough : env.max_fetch ≤ fuel) where
    Prompt-first_pull : (t : LedgerType) → Prompt (LockIs free) (pull env fuel t 0)
    Prompt-first_pull t = Prompt-pull fuel t 0 some_max (omega arith)

    Prompt-sync_body : (t : LedgerType) → Prompt (LockIs free) (sync_body env fuel t)
    unfolding sync_body
    Prompt-sync_body t =
        search (keeps_rules, Prompt-cached_latest env, Prompt-check_latest, Prompt-first_pull) depth
          10

    Stops-sync_at :
        (l : Lock) (t : LedgerType) (wait : Bool) (h : State W)
        → l ≡ free
        → Idle h
        → Stops (λ done. Idle) Idle (λ _. ⊥) (sync_at env l fuel t wait h)
    unfolding sync_at released
    Stops-sync_at absent t wait h e p = absurd cc
    Stops-sync_at held t wait h e p = absurd cc
    Stops-sync_at free t wait h e p =
        (Runs-finally (sync_body env fuel t) _ (Prompt-sync_body t)
            (λ s q. record { ledger_free = q.lock; sync_free = refl; quiet = refl })).at
          _ (record { lock = p.ledger_free })

    Prompt-sync_ledger_cache :
        (t : LedgerType) (wait : Bool) → Prompt Idle (sync_ledger_cache env fuel t wait)
    unfolding sync_ledger_cache
    Prompt-sync_ledger_cache t wait = record {
      at = λ h p. Stops-sync_at h.sync_lock t wait h p.sync_free p;
    }

    -- Where MAX_FETCH is positive and the fuel is at least MAX_FETCH, and no task holds a lock: a sync of
    -- any ledger, with `wait` or without, ends with a result or an exception, whatever the ledger replies,
    -- and after it both locks are free and the anchor is not said to be syncing.
    pub sync_ledger_cache-ends :
        (t : LedgerType) (wait : Bool) (h : State W)
        → Idle h
        → Stops (λ done. Idle) Idle (λ _. ⊥) (sync_ledger_cache env fuel t wait h)
    sync_ledger_cache-ends t wait h p = (Prompt-sync_ledger_cache t wait).at h p
