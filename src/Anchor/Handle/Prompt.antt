-- ===== src/Anchor/Handle/Prompt.antt =====
-- Which methods of `AnchorHandle` never wait for another task, as far as they take no lock but the
-- ledger's.
use indy_perf.Base.{ℕ, ◌≡◌, refl, Bool, Option, none, some}
use indy_perf.Exec.{Exec, Outcome, returned, raised, waiting}
use indy_perf.Exec.Runs.{Stops, Prompt, Runs-finally, Keeps-if, Keeps-pure, keeps_rules}
use indy_perf.Json.{Json, JsonText}
use indy_perf.Anchor.Ident.{Ident}
use indy_perf.Anchor.LedgerType.{LedgerType, LedgerValue}
use indy_perf.Anchor.Cache
use indy_perf.Anchor.Cache.Connection.{Cache}
use indy_perf.Anchor.Cache.Prompt.{
  Any, Prompt-Any, Prompt-get_latest_seqno, Prompt-get_txn as Prompt-cached_txn, Prompt-set_latest,
  Prompt-add_txn,
}
use indy_perf.Anchor.Cache.Schema.{TxnInfo}
use indy_perf.Anchor.Handle.State.{
  Env, State, Lock, absent, free, held, cached, on_cache, under_ledger_lock, with_ledger_lock,
}
use indy_perf.Anchor.Handle.Requests.{submit_request}
use indy_perf.Anchor.Handle.Holds.{Within-submit_request}
use indy_perf.Anchor.Handle.Fetch.{
  txn_id_of, fetched_data, has_txn, store, fetch, hit, miss, from_cache, answered, get_txn,
  fetch_tail, fetch_tail_txn,
}

pub record LockIs {W : Type 0} (l : Lock) (h : State W) : Type 0 where
  pub lock : h.ledger_lock ≡ l

module _ {W : Type 0} {l : Lock} where
  Stops-cached :
      {A : Type 0} (h : State W) (x : Outcome A × Cache)
      → LockIs l h
      → Stops (λ a. Any) Any (λ _. ⊥) x
      → Stops (λ a. LockIs l) (LockIs l) (λ _. ⊥) (x.0, record h { cache = some x.1 })
  Stops-cached h (returned a, c) p q = record { lock = p.lock }
  Stops-cached h (raised e, c) p q = record { lock = p.lock }
  Stops-cached h (waiting, c) p q = q

  Stops-on_cache :
      {A : Type 0} (m : Exec Cache A) (o : Option Cache) (h : State W)
      → Prompt Any m
      → LockIs l h
      → Stops (λ a. LockIs l) (LockIs l) (λ _. ⊥) (cached m o h)
  unfolding cached
  Stops-on_cache m none h k p = p
  Stops-on_cache m (some c) h k p = Stops-cached h (m c) p (k.at c tt)

  pub Prompt-on_cache :
      {A : Type 0} (m : Exec Cache A) → Prompt Any m → Prompt (LockIs {W = W} l) (on_cache m)
  unfolding on_cache
  Prompt-on_cache m k = record { at = λ h p. Stops-on_cache m h.cache h k p }

module _ {W : Type 0} where
  Stops-ledger_lock :
      {A : Type 0} (m : Exec (State W) A) (l : Lock) (h : State W)
      → l ≡ free
      → Prompt (LockIs held) m
      → Stops (λ a. LockIs free) (LockIs free) (λ _. ⊥) (under_ledger_lock l m h)
  unfolding under_ledger_lock
  Stops-ledger_lock m absent h e k = absurd cc
  Stops-ledger_lock m held h e k = absurd cc
  Stops-ledger_lock m free h e k =
      (Runs-finally m _ k (λ s p. record { lock = refl })).at _ (record { lock = refl })

  pub Prompt-with_ledger_lock :
      {A : Type 0} (m : Exec (State W) A)
      → Prompt (LockIs held) m
      → Prompt (LockIs free) (with_ledger_lock m)
  unfolding with_ledger_lock
  Prompt-with_ledger_lock m k = record { at = λ h p. Stops-ledger_lock m h.ledger_lock h p.lock k }

module _ {W : Type 0} (env : Env W) {l : Lock} where
  Prompt-submit_request :
      (req : JsonText) (signed apply_taa : Bool)
      → Prompt (LockIs l) (submit_request env req signed apply_taa)
  Prompt-submit_request = Within-submit_request _ (λ h w p. record { lock = p.lock }) env

  Prompt-fetched_data :
      (t : LedgerType) (ident : Ident) → Prompt (LockIs l) (fetched_data env t ident)
  unfolding fetched_data
  Prompt-fetched_data t ident = search (keeps_rules, Prompt-submit_request) depth 8

  Prompt-has_txn : (j : Json) → Prompt (LockIs l) (has_txn env j)
  unfolding has_txn
  Prompt-has_txn j = search keeps_rules

  Prompt-txn_id_of : (j : Json) → Prompt (LockIs l) (txn_id_of {W = W} j)
  unfolding txn_id_of
  Prompt-txn_id_of j = search keeps_rules

  Prompt-cached_set :
      (t : LedgerType) (n : ℕ) → Prompt (LockIs {W = W} l) (on_cache (Cache.set_latest t n))
  Prompt-cached_set t n = Prompt-on_cache _ (Prompt-Any _ (λ d p. Prompt-set_latest t n))

  pub Prompt-cached_get :
      (t : LedgerType) (i : Ident) → Prompt (LockIs {W = W} l) (on_cache (Cache.get_txn t i))
  Prompt-cached_get t i = Prompt-on_cache _ (Prompt-Any _ (λ d p. Prompt-cached_txn t i))

  pub Prompt-cached_latest :
      (t : LedgerType) → Prompt (LockIs {W = W} l) (on_cache (Cache.get_latest_seqno t))
  Prompt-cached_latest t = Prompt-on_cache _ (Prompt-Any _ (λ d p. Prompt-get_latest_seqno t))

  Prompt-store :
      (t : LedgerType) (cache latest : Bool) (i : TxnInfo)
      → Prompt (LockIs l) (store env t cache latest i)
  unfolding store
  Prompt-store t cache latest i =
      Keeps-if cache _ _
        (Prompt-on_cache _
          (Prompt-Any _ (λ d p. Prompt-add_txn env.codecs t _ i.txnid i.added i.value latest)))
        (Keeps-pure tt)

  Prompt-fetch :
      (t : LedgerType) (ident : Ident) (cache latest : Bool)
      → Prompt (LockIs l) (fetch env t ident cache latest)
  unfolding fetch
  Prompt-fetch t ident cache latest =
      search (keeps_rules, Prompt-fetched_data, Prompt-has_txn, Prompt-txn_id_of, Prompt-store)
        depth 14

  Prompt-answered :
      (t : LedgerType) (ident : Ident) (cache latest : Bool) (o : Option TxnInfo)
      → Prompt (LockIs l) (answered env t ident cache latest o)
  unfolding answered hit miss
  Prompt-answered t ident cache latest none = search (keeps_rules, Prompt-fetch)
  Prompt-answered t ident cache latest (some i) = search (keeps_rules, Prompt-cached_set)

  Prompt-from_cache :
      (t : LedgerType) (ident : Ident) (cache : Bool)
      → Prompt (LockIs l) (from_cache env t ident cache)
  unfolding from_cache
  Prompt-from_cache t ident cache = search (keeps_rules, Prompt-cached_get)

  -- `get_txn` takes no lock.
  pub Prompt-get_txn :
      (lv : LedgerValue) (ident : Ident) (cache latest : Bool)
      → Prompt (LockIs l) (get_txn env lv ident cache latest)
  unfolding get_txn
  Prompt-get_txn lv ident cache latest =
      search (keeps_rules, Prompt-from_cache, Prompt-answered) depth 12

module _ {W : Type 0} (env : Env W) where
  Prompt-fetch_tail : (t : LedgerType) (m : Option ℕ) → Prompt (LockIs held) (fetch_tail env t m)
  unfolding fetch_tail
  Prompt-fetch_tail t m = search (keeps_rules, Prompt-cached_latest env, Prompt-get_txn env)

  pub Prompt-fetch_tail_txn :
      (t : LedgerType) (m : Option ℕ) → Prompt (LockIs free) (fetch_tail_txn env t m)
  unfolding fetch_tail_txn
  Prompt-fetch_tail_txn t m = Prompt-with_ledger_lock _ (Prompt-fetch_tail t m)
