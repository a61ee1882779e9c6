-- ===== src/Anchor/Handle/NoGap.antt =====
-- The cache has no gap up to the latest transaction, whatever the ledger replies and wherever a
-- coroutine raises.
pub mod Range
use indy_perf.Base.{ℕ, ◌+◌, ◌≤◌, ◌≡◌, refl, Bool, true, false, ◌&&◌, Option, none, some, arith}
use indy_perf.Exn.{ok}
use indy_perf.Exec.{Exec, pure, lift, gets, ◌>>=◌}
use indy_perf.Exec.Runs.{
  Runs, Keeps, Runs-pure, Runs-lift, Runs-bind, Runs-if, Runs-weaken, Keeps-pure, Keeps-gets,
  keeps_rules,
}
use indy_perf.Json.{Json}
use indy_perf.Anchor.Ident.{Ident, int, is_int, given, seqno_of}
use indy_perf.Anchor.LedgerType.{LedgerType, LedgerValue, member, for_value, value}
use indy_perf.Anchor.Cache
use indy_perf.Anchor.Cache.Schema.{TxnInfo, Tables}
use indy_perf.Anchor.Cache.Filled.{IsFilled, latest_of, or_zero}
use indy_perf.Anchor.Cache.Adds.{AtTail, Runs-add_txn, Runs-set_latest}
use indy_perf.Anchor.Cache.Selects.{IsHit, Runs-get_txn, Runs-get_latest_seqno}
use indy_perf.Anchor.Handle.State.{Env, State, on_cache}
use indy_perf.Anchor.Handle.Requests.{require_ready}
use indy_perf.Anchor.Handle.Holds.{
  Holds, Holds-weaken, Runs-on_cache, Keeps-submit_request, Keeps-require_ready,
  Keeps-with_ledger_lock,
}
use indy_perf.Anchor.Handle.Fetch.{
  txn_id_of, fetched_data, has_txn, store, fetch, hit, miss, from_cache, answered, get_txn,
  next_seqno, fetch_tail, fetch_tail_txn,
}

and_left : (a b : Bool) → a && b ≡ true → a ≡ true
and_left a b h = ground arith

and_right : (a b : Bool) → a && b ≡ true → b ≡ true
and_right a b h = ground arith

for_value-member : (t t' : LedgerType) → for_value (member t) ≡ ok t' → t' ≡ t
unfolding for_value
for_value-member t t' e = cc

next_seqno-le : (latest : Option ℕ) (k : ℕ) → or_zero latest ≡ k → next_seqno latest ≤ k + 1
next_seqno-le none k e = omega arith
next_seqno-le (some n) k e = omega arith

-- The number after the latest is at the tail.
AtTail-next :
    (t t' : LedgerType) (latest : Option ℕ) (tb : Tables)
    → t' ≡ t
    → IsFilled tb × (or_zero latest ≡ latest_of (value t) tb)
    → AtTail true (value t') (seqno_of (int (next_seqno latest))) tb
unfolding seqno_of
AtTail-next t t' latest tb e p = record {
  filled = p.0;
  next = λ _. rw e (next_seqno-le latest (latest_of (value t) tb) p.1);
}

-- The invariant, for a transaction that is to be stored or made the latest.
abbrev Tail : {W : Type 0} → LedgerType → Ident → Bool → State W → Type 0
Tail t ident latest = Holds (AtTail latest (value t) (seqno_of ident))

abbrev pub Filled : {W : Type 0} → State W → Type 0
Filled = Holds IsFilled

module _ {W : Type 0} (env : Env W) where
  Keeps-fetched_data :
      {P : Tables → Type 0} (t : LedgerType) (ident : Ident)
      → Keeps (Holds P) (fetched_data env t ident)
  unfolding fetched_data
  Keeps-fetched_data t ident = search (keeps_rules, Keeps-submit_request env) depth 8

  Keeps-has_txn : {P : Tables → Type 0} (j : Json) → Keeps (Holds P) (has_txn env j)
  unfolding has_txn
  Keeps-has_txn j = search keeps_rules

  Keeps-txn_id_of : {P : Tables → Type 0} (j : Json) → Keeps (Holds {W = W} P) (txn_id_of j)
  unfolding txn_id_of
  Keeps-txn_id_of j = search keeps_rules

  module _ (t : LedgerType) (ident : Ident) (latest : Bool) where
    -- A part that keeps the tail, where only the absence of gaps matters if it raises.
    at_error :
        {A : Type 0} {P : State W → Type 0} {Q : A → State W → Type 0} (m : Exec (State W) A)
        → Runs P m Q (Tail t ident latest)
        → Runs P m Q Filled
    at_error m r = Runs-weaken m (λ s p. p) (λ a s p. p) (Holds-weaken (λ t p. p.filled)) r

    forget : (s : State W) → Tail t ident latest s → Filled s
    forget = Holds-weaken (λ t p. p.filled)

    Runs-store :
        (cache : Bool) (i : TxnInfo)
        → i.ident ≡ ident
        → Runs (Tail t ident latest) (store env t cache latest i) (λ _. Filled) Filled
    unfolding store
    Runs-store cache i e =
        Runs-if cache _ (pure tt)
          (λ on. rw e (
            Runs-on_cache _
              (Runs-add_txn t (seqno_of ident) latest env.codecs i.txnid i.added i.value)))
          (λ off. Runs-pure tt forget)

    Runs-fetch :
        (cache : Bool)
        → Runs (Tail t ident latest) (fetch env t ident cache latest) (λ _. Filled) Filled
    unfolding fetch
    Runs-fetch cache =
        Runs-bind (fetched_data env t ident) _ (at_error _ (Keeps-fetched_data t ident)) λ txn_data.
          Runs-bind (has_txn env txn_data) _ (at_error _ (Keeps-has_txn txn_data)) λ present.
            Runs-if present _ (pure none)
              (λ on. Runs-bind (gets (λ h. env.now h.world)) _ (at_error _ (Keeps-gets _)) λ added.
                Runs-bind (txn_id_of txn_data) _ (at_error _ (Keeps-txn_id_of txn_data)) λ txn_id.
                  Runs-bind (store env t cache latest _) _ (Runs-store cache _ refl)
                    λ _. Keeps-pure _)
              (λ off. Runs-pure none forget)

    Runs-hit :
        (i : TxnInfo)
        → Runs
            (Holds (λ tb. AtTail latest (value t) (seqno_of ident) tb × IsHit t ident (some i) tb))
            (hit env t ident latest i)
            (λ _. Filled)
            Filled
    unfolding hit
    Runs-hit i =
        Runs-bind _ (λ _. pure (some i))
          (Runs-if (latest && is_int ident) (on_cache (Cache.set_latest t (seqno_of ident)))
            (pure tt)
            (λ on.
              Runs-weaken (on_cache (Cache.set_latest t (seqno_of ident)))
                (Holds-weaken
                  (λ tb p. record { tail = p.0; row = p.1 (and_right latest _ on) refl }))
                (λ a s p. p) (Holds-weaken (λ tb p. p.tail.filled))
                (Runs-on_cache _
                  (Runs-set_latest t (seqno_of ident) latest (and_left latest _ on))))
            (λ off. Runs-pure tt (Holds-weaken (λ tb p. p.0.filled))))
          (λ _. Keeps-pure (some i))

    Runs-miss :
        (cache : Bool)
        → Runs (Tail t ident latest) (miss env t ident cache latest) (λ _. Filled) Filled
    unfolding miss
    Runs-miss cache =
        Runs-if (is_int ident) (fetch env t ident cache latest) (pure none) (λ on. Runs-fetch cache)
          (λ off. Runs-pure none forget)

    Runs-answered :
        (cache : Bool) (o : Option TxnInfo)
        → Runs
            (Holds (λ tb. AtTail latest (value t) (seqno_of ident) tb × IsHit t ident o tb))
            (answered env t ident cache latest o)
            (λ _. Filled)
            Filled
    unfolding answered
    Runs-answered cache (some i) = Runs-hit i
    Runs-answered cache none =
        Runs-weaken (miss env t ident cache latest) (Holds-weaken (λ tb p. p.0)) (λ a s p. p)
          (λ s p. p) (Runs-miss cache)

    Runs-from_cache :
        (cache : Bool)
        → Runs
            (Tail t ident latest)
            (from_cache env t ident cache)
            (λ o. Holds (λ tb. AtTail latest (value t) (seqno_of ident) tb × IsHit t ident o tb))
            Filled
    unfolding from_cache
    Runs-from_cache cache = at_error (from_cache env t ident cache) (
        Runs-if cache (on_cache (Cache.get_txn t ident)) (pure none)
          (λ on. Runs-on_cache _ (Runs-get_txn t ident))
          (λ off. Runs-pure none (Holds-weaken (λ tb p. (p, λ d h. cc)))))

    Runs-asked :
        (cache : Bool)
        → Runs
            (Tail t ident latest)
            (do cached ← from_cache env t ident cache; answered env t ident cache latest cached)
            (λ _. Filled)
            Filled
    Runs-asked cache = Runs-bind _ _ (Runs-from_cache cache) (Runs-answered cache)

  -- `get_txn` of a transaction that is to be the latest keeps the cache without a gap if it is the next
  -- one at most; any other `get_txn` does so anyway.
  Runs-get_txn_at :
      (lv : LedgerValue) (ident : Ident) (cache latest : Bool) (P : State W → Type 0)
      → ((t : LedgerType) (s : State W) → for_value lv ≡ ok t → P s → Tail t ident latest s)
      → ((s : State W) → P s → Filled s)
      → Runs P (get_txn env lv ident cache latest) (λ _. Filled) Filled
  unfolding get_txn
  Runs-get_txn_at lv ident cache latest P tail filled =
      Runs-bind (lift (for_value lv)) _ (Runs-lift (for_value lv) (λ t s e p. tail t s e p) filled)
        λ t.
          Runs-bind (require_ready env) _ (at_error t ident latest _ (Keeps-require_ready env)) λ _.
            Runs-if (given ident) _ (pure none) (λ on. Runs-asked t ident latest cache)
              (λ off. Runs-pure none (forget t ident latest))

  -- `get_txn` as the web server calls it.
  pub Keeps-get_txn :
      (lv : LedgerValue) (ident : Ident) (cache : Bool)
      → Keeps Filled (get_txn env lv ident cache false)
  Keeps-get_txn lv ident cache =
      Runs-get_txn_at lv ident cache false Filled
        (λ t s e. Holds-weaken (λ tb p. record { filled = p; next = λ d. cc }) s) (λ s p. p)

  Runs-next_txn :
      (t : LedgerType) (latest : Option ℕ)
      → Runs
          (Holds (λ tb. IsFilled tb × (or_zero latest ≡ latest_of (value t) tb)))
          (get_txn env (member t) (int (next_seqno latest)) true true)
          (λ _. Filled)
          Filled
  Runs-next_txn t latest =
      Runs-get_txn_at (member t) (int (next_seqno latest)) true true _
        (λ t' s e. Holds-weaken (λ tb p. AtTail-next t t' latest tb (for_value-member t t' e) p) s)
        (Holds-weaken (λ tb p. p.0))

  Keeps-fetch_tail : (t : LedgerType) (m : Option ℕ) → Keeps Filled (fetch_tail env t m)
  unfolding fetch_tail
  Keeps-fetch_tail t m =
      Runs-bind (on_cache (Cache.get_latest_seqno t)) _ (Runs-on_cache _ (Runs-get_latest_seqno t))
        λ latest.
          Runs-if _ (pure none) _ (λ past. Runs-pure none (Holds-weaken (λ tb p. p.0)))
            (λ due. Runs-next_txn t latest)

  -- The next transaction is fetched, or found in the cache, and becomes the latest.
  pub Keeps-fetch_tail_txn : (t : LedgerType) (m : Option ℕ) → Keeps Filled (fetch_tail_txn env t m)
  unfolding fetch_tail_txn
  Keeps-fetch_tail_txn t m = Keeps-with_ledger_lock env _ (Keeps-fetch_tail t m)
