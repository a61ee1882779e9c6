-- ===== src/Anchor/Handle/Calls/NoGap.antt =====
-- No sequence of calls opens a gap in the cache.
use indy_perf.Base.{ℕ, String, Option, List, [], ◌∷◌}
use indy_perf.Exec.{Exec, Outcome, returned, raised, waiting}
use indy_perf.Exec.Runs.{Ends, Keeps, Keeps-pure, Keeps-bind, Runs-weaken, keeps_rules}
use indy_perf.Json.{Json}
use indy_perf.Anchor.LedgerType.{LedgerType, LedgerValue}
use indy_perf.Anchor.Cache
use indy_perf.Anchor.Cache.Sound.{OnDisk}
use indy_perf.Anchor.Cache.Selects.{Runs-get_latest_seqno, Keeps-get_max_seqno as Keeps-cached_max}
use indy_perf.Anchor.Handle.State.{Env, State, on_cache}
use indy_perf.Anchor.Handle.Holds.{
  Holds-weaken, Runs-on_cache, Keeps-submit_request, Keeps-require_ready,
}
use indy_perf.Anchor.Handle.Requests.{require_did, get_nym, register_did}
use indy_perf.Anchor.Handle.Fetch.{get_latest_seqno, get_max_seqno}
use indy_perf.Anchor.Handle.NoGap.{Filled, Keeps-get_txn, Keeps-fetch_tail_txn}
use indy_perf.Anchor.Handle.NoGap.Range.{Keeps-get_txn_range}
use indy_perf.Anchor.Handle.Sync.Keeps.{
  Keeps-sync_ledger_cache, Keeps-update_ledger_cache, Keeps-init_cache, Keeps-maintain_round,
  Keeps-reset_ledger_cache, Keeps-get_txn_search,
}
use indy_perf.Anchor.Handle.Open.{Boot}
use indy_perf.Anchor.Handle.Open.Keeps.{Keeps-open_handle, Keeps-close_handle}
use indy_perf.Anchor.Handle.Validators.{validator_info}
use indy_perf.Anchor.Handle.Calls.{
  Call, open_anchor, close_anchor, latest_seqno, max_seqno, txn, tail_txn, txn_range, txn_search,
  nym, register, validators, sync, update, init, maintain, reset, done, perform, run,
}

module _ {W : Type 0} where
  Keeps-cached_latest :
      (t : LedgerType) → Keeps (Filled {W = W}) (on_cache (Cache.get_latest_seqno t))
  Keeps-cached_latest t =
      Runs-weaken _ (λ s p. p) (λ a. Holds-weaken (λ tb p. p.0)) (λ s p. p)
        (Runs-on_cache _ (Runs-get_latest_seqno t))

  Keeps-get_latest_seqno : (lv : LedgerValue) → Keeps (Filled {W = W}) (get_latest_seqno lv)
  unfolding get_latest_seqno
  Keeps-get_latest_seqno lv = search (keeps_rules, Keeps-cached_latest)

  Keeps-on_cache_max : (t : LedgerType) → Keeps (Filled {W = W}) (on_cache (Cache.get_max_seqno t))
  Keeps-on_cache_max t = Runs-on_cache _ (Keeps-cached_max t)

  Keeps-get_max_seqno : (lv : LedgerValue) → Keeps (Filled {W = W}) (get_max_seqno lv)
  unfolding get_max_seqno
  Keeps-get_max_seqno lv = search (keeps_rules, Keeps-on_cache_max)

module _ {W : Type 0} (env : Env W) where
  Keeps-get_nym : (did : String) → Keeps Filled (get_nym env did)
  unfolding get_nym
  Keeps-get_nym did =
      search (keeps_rules, Keeps-submit_request env, Keeps-require_ready env) depth 12

  Keeps-require_did : Keeps (Filled {W = W}) (require_did env)
  Keeps-require_did = search keeps_rules

  Keeps-register_did :
      (did : String) (verkey : Json) (alias : Option String) (role : Json)
      → Keeps Filled (register_did env did verkey alias role)
  unfolding register_did
  Keeps-register_did did verkey alias role =
      search (keeps_rules, Keeps-submit_request env, Keeps-require_did, Keeps-get_nym) depth 12

  Keeps-validator_info : Keeps Filled (validator_info env)
  unfolding validator_info
  Keeps-validator_info = search (keeps_rules, Keeps-submit_request env, Keeps-require_did) depth 12

module _ {W : Type 0} (b : Boot W) (fuel : ℕ) where
  Keeps-done : {A : Type 0} (m : Exec (State W) A) → Keeps Filled m → Keeps Filled (done b fuel m)
  unfolding done
  Keeps-done m k = Keeps-bind m _ k (λ _. Keeps-pure tt)

  Filled-after : {A : Type 0} (x : Outcome A × State W) → Ends (λ a. Filled) Filled x → Filled x.1
  Filled-after (returned a, s) p = p
  Filled-after (raised e, s) p = p
  Filled-after (waiting, s) p = p

  module _ (files : (w : W) → OnDisk (b.disk w)) where
    Keeps-perform : (c : Call) → Keeps Filled (perform b fuel c)
    unfolding perform
    Keeps-perform open_anchor = Keeps-open_handle b files
    Keeps-perform close_anchor = Keeps-close_handle b
    Keeps-perform (latest_seqno lv) = Keeps-done _ (Keeps-get_latest_seqno lv)
    Keeps-perform (max_seqno lv) = Keeps-done _ (Keeps-get_max_seqno lv)
    Keeps-perform (txn lv ident cache) = Keeps-done _ (Keeps-get_txn b.env lv ident cache)
    Keeps-perform (tail_txn t m) = Keeps-done _ (Keeps-fetch_tail_txn b.env t m)
    Keeps-perform (txn_range lv s e) = Keeps-done _ (Keeps-get_txn_range b.env fuel lv s e)
    Keeps-perform (txn_search lv q ty l o) =
        Keeps-done _ (Keeps-get_txn_search b.env fuel lv q ty l o)
    Keeps-perform (nym did) = Keeps-done _ (Keeps-get_nym b.env did)
    Keeps-perform (register did verkey alias role) = Keeps-register_did b.env did verkey alias role
    Keeps-perform validators = Keeps-done _ (Keeps-validator_info b.env)
    Keeps-perform (sync t wait) = Keeps-done _ (Keeps-sync_ledger_cache b.env fuel t wait)
    Keeps-perform (update t) = Keeps-update_ledger_cache b.env fuel t
    Keeps-perform init = Keeps-init_cache b.env fuel
    Keeps-perform maintain = Keeps-maintain_round b.env fuel
    Keeps-perform reset = Keeps-reset_ledger_cache b.env

    -- Whatever calls are made one after another, whatever libindy, the ledger and the files give, and
    -- whichever calls raise: if the cache has no gap at first and no database file has one, then every
    -- transaction from 1 to the latest of its ledger is in the cache, and in every database file.
    pub run-Filled : (calls : List Call) (h : State W) → Filled h → Filled (run b fuel calls h)
    unfolding run
    run-Filled [] h p = p
    run-Filled (c ∷ calls) h p =
        run-Filled calls (perform b fuel c h).1
          (Filled-after (perform b fuel c h) ((Keeps-perform c).at h p))
