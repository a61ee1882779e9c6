-- ===== src/Anchor/Cache/RoundTrip.antt =====
-- What `add_txn` stores, `get_txn` gives back.
use indy_perf.Base.{ℕ, suc, true, ◌≡◌, refl, Bool, Option, none, some, List, [], ◌∷◌, ◌++◌, arith}
use indy_perf.Exn.{Result, ok, err}
use indy_perf.Exec.{Outcome, returned, raised, waiting, pure, lift}
use indy_perf.Exec.Runs.{Stops, Triple, Runs-pure, Runs-bind, Runs-if, Keeps-lift}
use indy_perf.Json.{Json, JsonText}
use indy_perf.Anchor.Ident.{int}
use indy_perf.Anchor.LedgerType.{LedgerType, value}
use indy_perf.Anchor.Terms.{Codecs, txn_extract_terms}
use indy_perf.Anchor.Cache.{
  get_txn, select_txn, info_of, insert_if_any, replace_existent, replace_latest, with_unit, size_or,
  set_latest, set_existent, set_tail, add_txn,
}
use indy_perf.Anchor.Cache.Schema.{
  fits, bind_number, bind_ident, adapted, Time, Row, TxnInfo, Tables, replace, find_seqno,
  insert_transaction, new_row, text_affinity,
}
use indy_perf.Anchor.Cache.Connection.{
  Db, closed, blank, holding, Cache, stored, on_tables, query, select_bound,
}
use indy_perf.Anchor.Cache.Filled.{inserted, inserted_fits}
use indy_perf.Anchor.Cache.Adds.{replaced_latest, replaced_rows, ok_tables}
use indy_perf.Anchor.Cache.Prompt.{Any, Prompt-Any, Prompt-insert_if_any}

-- The connection is open, and `P` holds of the tables that it sees.
pub record Shows (P : Tables → Type 0) (c : Cache) : Type 0 where
  pub tables : Tables
  pub open_db : c.db ≡ holding tables
  pub holds : P tables

holding_inj : (t u : Tables) → holding t ≡ holding u → t ≡ u
holding_inj t u e = cc

module _ {A : Type 0} {P : Tables → Type 0} (f : Tables → Result (A × Tables)) where
  Stops-stored :
      (t : Tables) (r : Result (A × Tables)) (c : Cache)
      → f t ≡ r
      → ((t' : Tables) (a : A) → f t ≡ ok (a, t') → P t')
      → Stops (λ a. Shows P) Any (λ _. ⊥) (stored r c)
  unfolding stored
  Stops-stored t (ok (a, t')) c e step = record { tables = t'; open_db = refl; holds = step t' a e }
  Stops-stored t (err x) c e step = tt

  Stops-on_tables :
      (d : Db) (c : Cache)
      → ((t t' : Tables) (a : A) → d ≡ holding t → f t ≡ ok (a, t') → P t')
      → Stops (λ a. Shows P) Any (λ _. ⊥) (on_tables f d c)
  unfolding on_tables
  Stops-on_tables closed c step = tt
  Stops-on_tables blank c step = tt
  Stops-on_tables (holding t) c step = Stops-stored t (f t) c refl (λ t' a e. step t t' a refl e)

  -- After a statement that succeeded, what it gives from any tables.
  Runs-first :
      ((t t' : Tables) (a : A) → f t ≡ ok (a, t') → P t')
      → Triple Any (query f) (λ a. Shows P) Any (λ _. ⊥)
  unfolding query
  Runs-first step = record { at = λ c p. Stops-on_tables c.db c (λ t t' a d e. step t t' a e) }

  Stops-next :
      (d : Db) (c : Cache)
      → ((t t' : Tables) (a : A) → P t → f t ≡ ok (a, t') → P t')
      → (s : Shows P c) → d ≡ holding s.tables
      → Stops (λ a. Shows P) Any (λ _. ⊥) (on_tables f d c)
  unfolding on_tables
  Stops-next closed c step s e = tt
  Stops-next blank c step s e = tt
  Stops-next (holding t) c step s e =
      Stops-stored t (f t) c refl
        (λ t' a done. step t t' a (rw (holding_inj t s.tables e) s.holds) done)

  -- A statement that keeps `P`.
  Runs-next :
      ((t t' : Tables) (a : A) → P t → f t ≡ ok (a, t') → P t')
      → Triple (Shows P) (query f) (λ a. Shows P) Any (λ _. ⊥)
  unfolding query
  Runs-next step = record { at = λ c s. Stops-next c.db c step s s.open_db }

-- What `get_txn` gives for the stored transaction.
abbrev pub stored_info : ℕ → Json → Time → JsonText → TxnInfo
stored_info n id added v = record {
  ident = int n;
  txnid = text_affinity id;
  added = adapted added;
  value = v;
}

-- The transaction is in the tables.
record IsStored (l n : ℕ) (i : TxnInfo) (t : Tables) : Type 0 where
  pub found : info_of (find_seqno l n t.transactions) ≡ some i
  pub number_fits : fits n ≡ true

find_seqno-fresh :
    (l n : ℕ) (r : Row) (rows : List Row)
    → find_seqno l n rows ≡ none
    → r.ledger ≡ l
    → r.seqno ≡ n
    → find_seqno l n (rows ++ r ∷ []) ≡ some r
unfolding find_seqno
find_seqno-fresh l n r [] e a b = ground arith
find_seqno-fresh l n r (q ∷ rows) e a b = ground (arith, find_seqno-fresh l n r rows)

module _ (lt : LedgerType) (n : ℕ) (id : Json) (added : Time) (v : JsonText) where
  insert-IsStored :
      (ty : Json) (termsid : Option ℕ) (t t' : Tables)
      → insert_transaction (value lt) n ty id added v termsid t ≡ ok t'
      → IsStored (value lt) n (stored_info n id added v) t'
  unfolding new_row info_of
  insert-IsStored ty termsid t t' e =
      let (same, fresh) = inserted (value lt) n ty id added v termsid t t' e in
      let row = new_row (value lt) n ty id added v termsid in
      record {
        found = rw (same, find_seqno-fresh (value lt) n row t.transactions fresh refl refl) refl;
        number_fits = inserted_fits (value lt) n ty id added v termsid t t' e;
      }

  IsStored-rows :
      (t t' : Tables)
      → t'.transactions ≡ t.transactions
      → IsStored (value lt) n (stored_info n id added v) t
      → IsStored (value lt) n (stored_info n id added v) t'
  IsStored-rows t t' e p = record { found = rw e p.found; number_fits = p.number_fits }

  -- The parts of `add_txn` after its INSERT.
  Stored : Cache → Type 0
  Stored = Shows (IsStored (value lt) n (stored_info n id added v))

  Runs-inserted :
      (ty : Json) (termsid : Option ℕ)
      → Triple Any
          (query (λ d. with_unit (insert_transaction (value lt) n ty id added v termsid d)))
          (λ _. Stored)
          Any
          (λ _. ⊥)
  unfolding Stored
  Runs-inserted ty termsid = Runs-first _ (λ t t' a e.
      insert-IsStored ty termsid t t'
        (ok_tables (insert_transaction (value lt) n ty id added v termsid t) e))

  Runs-latest : Triple Stored (set_latest lt n) (λ _. Stored) Any (λ _. ⊥)
  unfolding set_latest Stored
  Runs-latest = Runs-next (replace_latest lt n) (λ t t' a p e.
      rw (replaced_latest lt n t t' a e)
        (IsStored-rows t (record t { latest = replace (value lt) n t.latest }) refl p))

  Runs-existent : (j : Json) → Triple Stored (set_existent lt j) (λ _. Stored) Any (λ _. ⊥)
  unfolding set_existent Stored
  Runs-existent j =
      Runs-next (replace_existent lt j)
        (λ t t' a p e. IsStored-rows t t' (replaced_rows lt j t t' a e).1 p)

  Runs-tail :
      (j : Json) (latest : Bool) → Triple Stored (set_tail lt n j latest) (λ _. Stored) Any (λ _. ⊥)
  unfolding set_tail
  Runs-tail j latest =
      Runs-if latest _ (pure tt)
        (λ on. Runs-bind (set_latest lt n) _ Runs-latest (λ _. Runs-existent (size_or j n)))
        (λ off. Runs-pure tt (λ s p. p))

  Runs-add :
      (k : Codecs) (latest : Bool)
      → Triple Any (add_txn k lt n id added v latest) (λ _. Stored) Any (λ _. ⊥)
  unfolding add_txn
  Runs-add k latest = Runs-bind (lift (txn_extract_terms k v)) _ (Keeps-lift _) (λ x.
      Runs-bind (insert_if_any x.1) _ (Prompt-Any _ (λ d p. Prompt-insert_if_any x.1))
        (λ termsid. Runs-bind _ _ (Runs-inserted x.0 termsid) (λ _. Runs-tail x.2 latest)))

module _ (lt : LedgerType) (k : ℕ) (i : TxnInfo) where
  -- The next `get_txn` reads it.
  read_stored :
      (c : Cache)
      → Shows (IsStored (value lt) (suc k) i) c
      → (get_txn lt (int (suc k)) c).0 ≡ returned (some i)
  unfolding get_txn select_bound bind_ident bind_number query on_tables select_txn stored
  read_stored c s = rw (s.open_db, s.holds.number_fits, s.holds.found) refl

  Stops-read :
      (x : Outcome (Unit {0}) × Cache)
      → Stops (λ _. Shows (IsStored (value lt) (suc k) i)) Any (λ _. ⊥) x
      → Stops (λ _ c'. (get_txn lt (int (suc k)) c').0 ≡ returned (some i)) Any (λ _. ⊥) x
  Stops-read (returned a, c) s = read_stored c s
  Stops-read (raised e, c) s = tt
  Stops-read (waiting, c) s = s

-- After an `add_txn` of a number from 1 on that returns, whether or not the transaction is made the latest,
-- `get_txn` by the number gives its number and its value as they were added, its ID as a column of type text
-- stores it, and its time as the text that sqlite3 writes for a datetime.
pub get_txn-add_txn :
    (codecs : Codecs) (lt : LedgerType) (k : ℕ) (id : Json) (added : Time) (v : JsonText)
    (latest : Bool) (c : Cache)
    → Stops
        (λ _ c'. (get_txn lt (int (suc k)) c').0 ≡ returned (some (stored_info (suc k) id added v)))
        (λ _. Unit)
        (λ _. ⊥)
        (add_txn codecs lt (suc k) id added v latest c)
unfolding Stored
get_txn-add_txn codecs lt k id added v latest c =
    Stops-read lt k (stored_info (suc k) id added v) _
      ((Runs-add lt (suc k) id added v codecs latest).at c tt)
