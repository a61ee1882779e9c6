-- ===== src/Anchor/Cache/Adds.antt =====
-- The writes of `LedgerCache` under the invariant of the tables.
use indy_perf.Base.{ℕ, ◌+◌, ◌≤◌, ◌≡◌, Bool, true, Option, none, some, arith}
use indy_perf.Exn.{Result, ok, err}
use indy_perf.Exec.{Exec, pure, lift}
use indy_perf.Exec.Runs.{
  Runs, Keeps, Runs-pure, Runs-lift, Runs-bind, Runs-weaken, Runs-if, Keeps-pure, Keeps-bind,
}
use indy_perf.Json.{Json, Fields, end, field, JsonText}
use indy_perf.Anchor.LedgerType.{LedgerType, value}
use indy_perf.Anchor.Terms.{Codecs, txn_extract_terms}
use indy_perf.Anchor.Cache.{
  insert_if_any, replace_existent, replace_latest, with_unit, size_or, set_latest, set_existent,
  set_tail, add_txn,
}
use indy_perf.Anchor.Cache.Schema.{Time, Tables, replace, insert_terms, insert_transaction}
use indy_perf.Anchor.Cache.Connection.{Cache, query}
use indy_perf.Anchor.Cache.Filled.{
  latest_of, Has, IsFilled, Extends, insert_terms-Extends, insert_transaction-Extends,
  insert_transaction-Has, Extends-IsFilled, set_latest-IsFilled,
}
use indy_perf.Anchor.Cache.Sound.{Sound, Sound-weaken, Runs-query}

-- No gap; and if the transaction is to be the latest, it is the next one or an earlier one.
pub record AtTail (latest : Bool) (l n : ℕ) (t : Tables) : Type 0 where
  pub filled : IsFilled t
  pub next : latest ≡ true → n ≤ latest_of l t + 1

-- `AtTail`, and the transaction is there.
pub record AtRow (latest : Bool) (l n : ℕ) (t : Tables) : Type 0 where
  pub tail : AtTail latest l n t
  pub row : Has l n t

AtTail-Extends :
    {latest : Bool} {l n : ℕ} {t u : Tables}
    → Extends t u
    → AtTail latest l n t
    → AtTail latest l n u
AtTail-Extends x a = record {
  filled = Extends-IsFilled x a.filled;
  next = λ e. rw x.latest (a.next e);
}

pub ok_tables : {a : Unit {0}} {u : Tables} (r : Result Tables) → with_unit r ≡ ok (a, u) → r ≡ ok u
unfolding with_unit
ok_tables (ok t) h = ground arith
ok_tables (err e) h = cc

AtRow-insert :
    (latest : Bool) (l n : ℕ) (ty id : Json) (added : Time) (v : JsonText) (termsid : Option ℕ)
    (t t' : Tables)
    → AtTail latest l n t
    → insert_transaction l n ty id added v termsid t ≡ ok t'
    → AtRow latest l n t'
AtRow-insert latest l n ty id added v termsid t t' p e = record {
  tail = AtTail-Extends (insert_transaction-Extends l n ty id added v termsid t t' e) p;
  row = insert_transaction-Has l n ty id added v termsid t t' e;
}

-- What is left where the number is bound.
pub replaced_latest :
    (lt : LedgerType) (n : ℕ) (t t' : Tables) (a : Unit {0})
    → replace_latest lt n t ≡ ok (a, t')
    → t' ≡ record t { latest = replace (value lt) n t.latest }
unfolding replace_latest indy_perf.Anchor.Cache.Schema.bind_number
replaced_latest lt n t t' a e = ground arith

pub replaced_rows :
    (lt : LedgerType) (j : Json) (t t' : Tables) (a : Unit {0})
    → replace_existent lt j t ≡ ok (a, t')
    → (t'.latest ≡ t.latest) × (t'.transactions ≡ t.transactions)
unfolding replace_existent
replaced_rows lt j t t' a e = ground arith

replace_existent-Extends :
    (lt : LedgerType) (j : Json) (t t' : Tables) (a : Unit {0})
    → replace_existent lt j t ≡ ok (a, t')
    → Extends t t'
replace_existent-Extends lt j t t' a e =
    let (same_latest, same_rows) = replaced_rows lt j t t' a e in
    record { latest = same_latest; rows = λ l n h. rw same_rows h }

module _ (lt : LedgerType) (n : ℕ) (latest : Bool) where
  Keeps-insert_if_any : (f : Fields) → Keeps (Sound (AtTail latest (value lt) n)) (insert_if_any f)
  unfolding insert_if_any
  Keeps-insert_if_any end = Keeps-pure none
  Keeps-insert_if_any (field k v f) =
      Keeps-bind (query (insert_terms (field k v f))) _
        (Runs-query (insert_terms (field k v f))
          (λ t t' a p e. AtTail-Extends (insert_terms-Extends (field k v f) t a t' e) p))
        (λ a. Keeps-pure (some a))

  Runs-insert :
      (ty id : Json) (added : Time) (v : JsonText) (termsid : Option ℕ)
      → Runs
          (Sound (AtTail latest (value lt) n))
          (query (λ d. with_unit (insert_transaction (value lt) n ty id added v termsid d)))
          (λ _. Sound (AtRow latest (value lt) n))
          (Sound (AtTail latest (value lt) n))
  Runs-insert ty id added v termsid = Runs-query _ (λ t t' a p e.
      AtRow-insert latest (value lt) n ty id added v termsid t t' p
        (ok_tables (insert_transaction (value lt) n ty id added v termsid t) e))

  -- The latest number is set to a transaction that is there, and is the next one at most.
  pub Runs-set_latest :
      latest ≡ true
      → Runs
          (Sound (AtRow latest (value lt) n))
          (set_latest lt n)
          (λ _. Sound IsFilled)
          (Sound (AtRow latest (value lt) n))
  unfolding set_latest
  Runs-set_latest on = Runs-query (replace_latest lt n) (λ t t' a p e.
      rw (replaced_latest lt n t t' a e)
        (set_latest-IsFilled (value lt) n t p.tail.filled (p.tail.next on) p.row))

  pub Keeps-set_existent : (j : Json) → Keeps (Sound IsFilled) (set_existent lt j)
  unfolding set_existent
  Keeps-set_existent j =
      Runs-query (replace_existent lt j)
        (λ t t' a p e. Extends-IsFilled (replace_existent-Extends lt j t t' a e) p)

  -- `if latest:` the two numbers are set.
  Runs-set_tail :
      (j : Json)
      → Runs
          (Sound (AtRow latest (value lt) n))
          (set_tail lt n j latest)
          (λ _. Sound IsFilled)
          (Sound IsFilled)
  unfolding set_tail
  Runs-set_tail j =
      Runs-if latest _ (pure tt)
        (λ on.
          Runs-bind (set_latest lt n) (λ _. set_existent lt (size_or j n))
            (Runs-weaken (set_latest lt n) (λ s p. p) (λ a s p. p)
              (Sound-weaken (λ t p. p.tail.filled)) (Runs-set_latest on))
            (λ a. Keeps-set_existent (size_or j n)))
        (λ off. Runs-pure tt (Sound-weaken (λ t p. p.tail.filled)))

  -- What holds at an exception, with the tail forgotten.
  at_error :
      {A : Type 0} {P : Cache → Type 0} {Q : A → Cache → Type 0} (m : Exec Cache A)
      → Runs P m Q (Sound (AtTail latest (value lt) n))
      → Runs P m Q (Sound IsFilled)
  at_error m r = Runs-weaken m (λ s p. p) (λ a s p. p) (Sound-weaken (λ t p. p.filled)) r

  -- A transaction is added at the tail, or anywhere if it is not to be the latest: no gap appears, also
  -- where a statement raises.
  pub Runs-add_txn :
      (c : Codecs) (txn_id : Json) (added : Time) (v : JsonText)
      → Runs
          (Sound (AtTail latest (value lt) n))
          (add_txn c lt n txn_id added v latest)
          (λ _. Sound IsFilled)
          (Sound IsFilled)
  unfolding add_txn
  Runs-add_txn c txn_id added v =
      Runs-bind (lift (txn_extract_terms c v)) _
        (Runs-lift (txn_extract_terms c v) (λ a s e p. p) (Sound-weaken (λ t p. p.filled)))
        (λ x.
          Runs-bind (insert_if_any x.1) _ (at_error (insert_if_any x.1) (Keeps-insert_if_any x.1))
            (λ termsid.
              Runs-bind _ (λ _. set_tail lt n x.2 latest)
                (at_error _ (Runs-insert x.0 txn_id added v termsid)) (λ _. Runs-set_tail x.2)))
