-- ===== src/Anchor/Handle/Unready.antt =====
-- An anchor that is not ready leaves the ledger alone.
use indy_perf.Base.{
  ℕ, zero, suc, ◌+◌, ◌≡◌, refl, String, Bool, false, ◌&&◌, Option, none, some, if◌then◌else◌,
}
use indy_perf.Exn.{not_ready}
use indy_perf.Exec.{Exec, Outcome, returned, raised, waiting, pure, raise, gets, ◌>>=◌}
use indy_perf.Exec.Runs.{
  Ends, Runs, Keeps, Runs-bind, Runs-gets, Runs-if, Runs-raise, Keeps-bind, Keeps-if, Keeps-pure,
  Keeps-block, Keeps-when_some, Keeps-finally, Keeps-lift, keeps_rules,
}
use indy_perf.Json.{Json}
use indy_perf.Anchor.Ident.{Ident, seqno_of}
use indy_perf.Anchor.LedgerType.{LedgerType, LedgerValue}
use indy_perf.Anchor.Cache.Connection.{Cache}
use indy_perf.Anchor.Handle.State.{
  Env, State, Lock, absent, free, held, cached, on_cache, under_ledger_lock, with_ledger_lock,
  is_set,
}
use indy_perf.Anchor.Handle.Requests.{require_ready, require_did, get_nym, register_did}
use indy_perf.Anchor.Handle.Fetch.{
  get_latest_seqno, get_max_seqno, get_txn, fetch_tail, fetch_tail_txn, fetch_until, get_txn_range,
}
use indy_perf.Anchor.Handle.Validators.{validator_info}

-- Not ready, with the ledger and the network as in `w`.
pub record Unready {W : Type 0} (w : W) (h : State W) : Type 0 where
  pub unready : h.ready ≡ false
  pub untouched : h.world ≡ w

module _ {W : Type 0} {w : W} where
  Ends-put :
      {A : Type 0} (x : Outcome A × Cache) (h : State W)
      → Unready w h
      → Ends (λ a. Unready w) (Unready w) (x.0, record h { cache = some x.1 })
  Ends-put (returned a, c) h p = record { unready = p.unready; untouched = p.untouched }
  Ends-put (raised e, c) h p = record { unready = p.unready; untouched = p.untouched }
  Ends-put (waiting, c) h p = record { unready = p.unready; untouched = p.untouched }

  Ends-cached :
      {A : Type 0} (m : Exec Cache A) (o : Option Cache) (h : State W)
      → Unready w h
      → Ends (λ a. Unready w) (Unready w) (cached m o h)
  unfolding cached
  Ends-cached m none h p = p
  Ends-cached m (some c) h p = Ends-put (m c) h p

  pub Keeps-on_cache : {A : Type 0} (m : Exec Cache A) → Keeps (Unready w) (on_cache {W = W} m)
  unfolding on_cache
  Keeps-on_cache m = record { at = λ h p. Ends-cached m h.cache h p }

  Ends-ledger_lock :
      {A : Type 0} (m : Exec (State W) A) (l : Lock) (h : State W)
      → Keeps (Unready w) m
      → Unready w h
      → Ends (λ a. Unready w) (Unready w) (under_ledger_lock l m h)
  unfolding under_ledger_lock
  Ends-ledger_lock m absent h k p = p
  Ends-ledger_lock m held h k p = p
  Ends-ledger_lock m free h k p =
      (Keeps-finally m _ k (λ s q. record { unready = q.unready; untouched = q.untouched })).at _
        (record { unready = p.unready; untouched = p.untouched })

  Keeps-with_ledger_lock :
      {A : Type 0} (m : Exec (State W) A)
      → Keeps (Unready w) m
      → Keeps (Unready w) (with_ledger_lock m)
  unfolding with_ledger_lock
  Keeps-with_ledger_lock m k = record { at = λ h p. Ends-ledger_lock m h.ledger_lock h k p }

  pub Keeps-latest : (lv : LedgerValue) → Keeps (Unready w) (get_latest_seqno {W = W} lv)
  unfolding get_latest_seqno
  Keeps-latest lv = search (keeps_rules, Keeps-on_cache)

  pub Keeps-max : (lv : LedgerValue) → Keeps (Unready w) (get_max_seqno {W = W} lv)
  unfolding get_max_seqno
  Keeps-max lv = search (keeps_rules, Keeps-on_cache)

module _ {W : Type 0} {w : W} (env : Env W) where
  Runs-dead :
      {A : Type 0} (b : Bool) (m : Exec (State W) A)
      → Runs
          (λ s. (b ≡ false) × Unready w s)
          (if b then m else raise not_ready)
          (λ a s. ⊥)
          (Unready w)
  Runs-dead b m =
      Runs-if b m (raise not_ready) (λ on. record { at = λ s p. absurd (cc (on, p.0)) })
        (λ off. Runs-raise not_ready (λ s p. p.1))

  Runs-require_ready : Runs (Unready w) (require_ready env) (λ a s. ⊥) (Unready w)
  Runs-require_ready =
      Runs-bind (gets (λ h. h.ready)) _ (Runs-gets _ (λ s p. (p.unready, p)))
        (λ b. Runs-dead b (pure tt))

  Runs-require_did : Runs (Unready w) (require_did env) (λ a s. ⊥) (Unready w)
  Runs-require_did =
      Runs-bind (gets (λ h. h.ready && is_set h.did)) _
        (Runs-gets _ (λ s p. (rw p.unready refl, p))) (λ b. Runs-dead b (pure tt))

  -- The guard raises, so what follows it does not run.
  after_guard :
      {A : Type 0} (m : Exec (State W) (Unit {0})) (f : Unit {0} → Exec (State W) A)
      → Runs (Unready w) m (λ a s. ⊥) (Unready w)
      → Keeps (Unready w) (m >>= f)
  after_guard m f r = Runs-bind m f r (λ a. record { at = λ s p. absurd p })

  pub Keeps-get_txn :
      (lv : LedgerValue) (ident : Ident) (cache latest : Bool)
      → Keeps (Unready w) (get_txn env lv ident cache latest)
  unfolding get_txn
  Keeps-get_txn lv ident cache latest =
      Keeps-bind _ _ (Keeps-lift _) (λ t. after_guard (require_ready env) _ Runs-require_ready)

  pub Keeps-get_nym : (did : String) → Keeps (Unready w) (get_nym env did)
  unfolding get_nym
  Keeps-get_nym did = after_guard (require_ready env) _ Runs-require_ready

  pub Keeps-register_did :
      (did : String) (verkey : Json) (alias : Option String) (role : Json)
      → Keeps (Unready w) (register_did env did verkey alias role)
  unfolding register_did
  Keeps-register_did did verkey alias role = after_guard (require_did env) _ Runs-require_did

  pub Keeps-validator_info : Keeps (Unready w) (validator_info env)
  unfolding validator_info
  Keeps-validator_info = after_guard (require_did env) _ Runs-require_did

  Keeps-fetch_tail : (t : LedgerType) (m : Option ℕ) → Keeps (Unready w) (fetch_tail env t m)
  unfolding fetch_tail
  Keeps-fetch_tail t m = search (keeps_rules, Keeps-on_cache, Keeps-get_txn)

  pub Keeps-fetch_tail_txn :
      (t : LedgerType) (m : Option ℕ) → Keeps (Unready w) (fetch_tail_txn env t m)
  unfolding fetch_tail_txn
  Keeps-fetch_tail_txn t m = Keeps-with_ledger_lock _ (Keeps-fetch_tail t m)

  Keeps-fetch_until :
      (fuel : ℕ) (t : LedgerType) (end' : Option ℕ) (n : ℕ)
      → Keeps (Unready w) (fetch_until env fuel t end' n)
  unfolding fetch_until
  Keeps-fetch_until zero t end' n = Keeps-block
  Keeps-fetch_until (suc fuel) t end' n =
      Keeps-if _ _ (pure tt)
        (Keeps-bind (fetch_tail_txn env t end') _ (Keeps-fetch_tail_txn t end') (λ row.
          Keeps-when_some row _ (λ i. Keeps-fetch_until fuel t end' (seqno_of i.ident + 1))))
        (Keeps-pure tt)

  pub Keeps-get_txn_range :
      (fuel : ℕ) (lv : LedgerValue) (start end' : Option ℕ)
      → Keeps (Unready w) (get_txn_range env fuel lv start end')
  unfolding get_txn_range
  Keeps-get_txn_range fuel lv start end' =
      search (keeps_rules, Keeps-fetch_until, Keeps-on_cache) depth 9
