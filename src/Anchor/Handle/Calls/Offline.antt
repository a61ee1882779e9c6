-- ===== src/Anchor/Handle/Calls/Offline.antt =====
-- Between `open`, `close` and the next `open`, calls of an anchor that is not ready.
use indy_perf.Base.{ℕ, ◌≡◌, refl, Bool, true, false, ◌&&◌, List, [], ◌∷◌, arith}
use indy_perf.Exec.{Exec, Outcome, returned, raised, waiting}
use indy_perf.Exec.Runs.{Ends, Keeps, Keeps-pure, Keeps-bind}
use indy_perf.Anchor.Handle.State.{State}
use indy_perf.Anchor.Handle.Unready.{
  Unready, Keeps-latest, Keeps-max, Keeps-get_txn, Keeps-fetch_tail_txn, Keeps-get_txn_range,
  Keeps-get_nym, Keeps-register_did, Keeps-validator_info,
}
use indy_perf.Anchor.Handle.Sync.Offline.{
  Keeps-sync, Keeps-update, Keeps-init, Keeps-maintain, Keeps-reset, Keeps-search,
}
use indy_perf.Anchor.Handle.Open.{Boot}
use indy_perf.Anchor.Handle.Calls as Calls
use indy_perf.Anchor.Handle.Calls.{
  Call, open_anchor, close_anchor, latest_seqno, max_seqno, txn, tail_txn, txn_range, txn_search,
  nym, register, validators, sync, update, init, maintain, done, perform, run,
}

-- Every call but `open` and `close`.
abbrev pub is_use : Call → Bool
is_use open_anchor = false
is_use close_anchor = false
is_use c = true

abbrev pub all_uses : List Call → Bool
all_uses [] = true
all_uses (c ∷ cs) = is_use c && all_uses cs

module _ {W : Type 0} (b : Boot W) (fuel : ℕ) where
  Keeps-done :
      {A : Type 0} {w : W} (m : Exec (State W) A)
      → Keeps (Unready w) m
      → Keeps (Unready w) (done b fuel m)
  unfolding done
  Keeps-done m k = Keeps-bind m _ k (λ _. Keeps-pure tt)

  Keeps-use : {w : W} (c : Call) → is_use c ≡ true → Keeps (Unready w) (perform b fuel c)
  unfolding perform
  Keeps-use open_anchor e = absurd cc
  Keeps-use close_anchor e = absurd cc
  Keeps-use (latest_seqno lv) e = Keeps-done _ (Keeps-latest lv)
  Keeps-use (max_seqno lv) e = Keeps-done _ (Keeps-max lv)
  Keeps-use (txn lv ident cache) e = Keeps-done _ (Keeps-get_txn b.env lv ident cache false)
  Keeps-use (tail_txn t m) e = Keeps-done _ (Keeps-fetch_tail_txn b.env t m)
  Keeps-use (txn_range lv s t) e = Keeps-done _ (Keeps-get_txn_range b.env fuel lv s t)
  Keeps-use (txn_search lv q ty l o) e = Keeps-done _ (Keeps-search b.env fuel lv q ty l o)
  Keeps-use (nym did) e = Keeps-done _ (Keeps-get_nym b.env did)
  Keeps-use (register did verkey alias role) e = Keeps-register_did b.env did verkey alias role
  Keeps-use validators e = Keeps-done _ (Keeps-validator_info b.env)
  Keeps-use (sync t wait) e = Keeps-done _ (Keeps-sync b.env fuel t wait)
  Keeps-use (update t) e = Keeps-update b.env fuel t
  Keeps-use init e = Keeps-init b.env fuel
  Keeps-use maintain e = Keeps-maintain b.env fuel
  Keeps-use Calls.reset e = Keeps-reset b.env

  Unready-after :
      {A : Type 0} {w : W} (x : Outcome A × State W)
      → Ends (λ a. Unready w) (Unready w) x
      → Unready w x.1
  Unready-after (returned a, s) p = p
  Unready-after (raised e, s) p = p
  Unready-after (waiting, s) p = p

  run-Unready :
      {w : W} (calls : List Call) (h : State W)
      → all_uses calls ≡ true
      → Unready w h
      → Unready w (run b fuel calls h)
  unfolding run
  run-Unready [] h e p = p
  run-Unready (c ∷ calls) h e p =
      run-Unready calls _ (ground arith)
        (Unready-after (perform b fuel c h) ((Keeps-use c (ground arith)).at h p))

  -- While an anchor is not ready, any calls of it but `open` and `close` send nothing to the ledger: the
  -- world is as it was, and the anchor is still not ready.
  pub run-offline :
      (calls : List Call) (h : State W)
      → all_uses calls ≡ true
      → h.ready ≡ false
      → let h' = run b fuel calls h in (h'.ready ≡ false) × (h'.world ≡ h.world)
  run-offline calls h e r =
      let p = run-Unready calls h e (record { unready = r; untouched = refl }) in
      (p.unready, p.untouched)
