-- ===== src/Anchor/Cache/Schema.antt =====
-- The tables that `init_db` creates, and the statements that `LedgerCache` runs on them.
use indy_perf.Base.{
  ℕ, ◌+◌, String, Bool, true, false, ◌&&◌, Option, none, some, List, [], ◌∷◌, ◌++◌, length, ◌==◌,
  ltb, leb, str_eq, if◌then◌else◌,
}
use indy_perf.Base.Texts.{is_digit, int_of, show}
use indy_perf.Exn.{Result, ok, err, integrity_error, interface_error, overflow_error, ◌>>◌}
use indy_perf.Json.{Json, null, bool, num, str, arr, obj, Fields, end, field, JsonText}
use indy_perf.Anchor.Ident.{Ident, int, text}

-- What stands for a time: a datetime, and the text that sqlite3 writes for it, isoformat(" "), which is what
-- a SELECT gives back. A text is represented by the moment that it was written for.
pub data Time : Type 0 where
  datetime iso_text : ℕ → Time

-- sqlite3's adapter of a datetime. A column of type timestamp stores a text that is no number as it is.
abbrev pub adapted : Time → Time
adapted (datetime n) = iso_text n
adapted (iso_text n) = iso_text n

-- A row of `transactions`. The numeric columns hold numbers; `txntype` may hold a text that is none.
pub record Row : Type 0 where
  pub ledger : ℕ
  pub seqno : ℕ
  pub txntype : Json
  pub termsid : Option ℕ
  pub txnid : Json
  pub added : Time
  pub value : JsonText

-- What a SELECT of seqno, txnid, added, value returns. The first column is an Ident because `get_txn`
-- of AnchorHandle returns such a tuple too, with the ident that it was called with.
pub record TxnInfo : Type 0 where
  pub ident : Ident
  pub txnid : Json
  pub added : Time
  pub value : JsonText

-- `latest` and `existent` map a ledger to a number; the rowids of `terms` are its positions from 1.
pub record Tables : Type 0 where
  pub existent : List (ℕ × Json)
  pub latest : List (ℕ × ℕ)
  pub transactions : List Row
  pub terms : List Fields

abbrev pub no_rows : Tables
no_rows = record { existent = []; latest = []; transactions = []; terms = [] }

abbrev pub info : Row → TxnInfo
info r = record { ident = int r.seqno; txnid = r.txnid; added = r.added; value = r.value }

-- n < 2 ^ 63: a signed number of 64 bits
unfoldable pub fits : ℕ → Bool
fits n = ltb n 9223372036854775808

-- What a statement binds to a `?`: sqlite3 raises an OverflowError for a number that does not fit.
unfoldable pub bind_number : ℕ → Result (Unit {0})
unfolding fits
bind_number n = if fits n then ok tt else err overflow_error

unfoldable pub bind_both : ℕ → ℕ → Result (Unit {0})
bind_both m n = if fits m && fits n then ok tt else err overflow_error

-- An int, and any text.
unfoldable pub bind_ident : Ident → Result (Unit {0})
unfolding bind_number
bind_ident (int n) = bind_number n
bind_ident (text s) = ok tt

-- Lists and dicts cannot be bound to a `?`.
unfoldable pub bind_value : Json → Result Json
unfolding bind_number
bind_value (num n) = do bind_number n; ok (num n)
bind_value (arr l) = err interface_error
bind_value (obj f) = err interface_error
bind_value j = ok j

-- A column of type integer stores a text of digits as a number, and any other text as it is. A Python
-- bool is bound as 0 or 1.
unfoldable pub affinity : Json → Json
affinity (str s) = if is_digit s then num (int_of s) else str s
affinity (bool true) = num 1
affinity (bool false) = num 0
affinity j = j

-- A column of type text stores a number as its decimal text.
unfoldable pub text_affinity : Json → Json
text_affinity (num n) = str (show n)
text_affinity (bool true) = str "1"
text_affinity (bool false) = str "0"
text_affinity j = j

module _ {A : Type 0} where
  unfoldable pub select_by_ledger : ℕ → List (ℕ × A) → Option A
  select_by_ledger k [] = none
  select_by_ledger k ((j, a) ∷ l) = if j == k then some a else select_by_ledger k l

  -- REPLACE INTO: the primary key is the ledger.
  unfoldable pub replace : ℕ → A → List (ℕ × A) → List (ℕ × A)
  replace k a [] = (k, a) ∷ []
  replace k a ((j, b) ∷ l) =
      let rest = replace k a l in if j == k then (k, a) ∷ l else (j, b) ∷ rest

-- WHERE ledger=? AND seqno=?
unfoldable pub find_seqno : ℕ → ℕ → List Row → Option Row
find_seqno l n [] = none
find_seqno l n (r ∷ rows) = if r.ledger == l && r.seqno == n then some r else find_seqno l n rows

-- txnid = s, of a column of type text
txnid_is : Json → String → Bool
txnid_is (str t) s = str_eq t s
txnid_is _ s = false

-- WHERE ledger=? AND txnid=?
unfoldable pub find_txnid : ℕ → String → List Row → Option Row
unfolding txnid_is
find_txnid l s [] = none
find_txnid l s (r ∷ rows) =
    if r.ledger == l && txnid_is r.txnid s then some r else find_txnid l s rows

-- ORDER BY seqno
unfoldable pub insert_by_seqno : Row → List Row → List Row
insert_by_seqno r [] = r ∷ []
insert_by_seqno r (q ∷ l) =
    let rest = insert_by_seqno r l in if leb r.seqno q.seqno then r ∷ q ∷ l else q ∷ rest

-- WHERE ledger=? AND seqno BETWEEN ? AND ? ORDER BY seqno
unfoldable pub select_range : ℕ → ℕ → ℕ → List Row → List Row
unfolding insert_by_seqno
select_range l start end' [] = []
select_range l start end' (r ∷ rows) =
    let rest = select_range l start end' rows in
    if r.ledger == l && leb start r.seqno && leb r.seqno end' then insert_by_seqno r rest else rest

-- INSERT INTO terms: the values are bound, and the rowid is the next one.
unfoldable pub bind_fields : Fields → Result (Unit {0})
bind_fields end = ok tt
bind_fields (field k v f) = do bind_value v; bind_fields f

unfoldable pub insert_terms : Fields → Tables → Result (ℕ × Tables)
unfolding bind_fields bind_value
insert_terms f t = do bind_fields f; ok (length t.terms + 1, record t { terms = t.terms ++ f ∷ [] })

-- NOT NULL
not_null : Json → Result Json
not_null null = err integrity_error
not_null j = ok j

-- PRIMARY KEY (ledger, seqno)
unique : Option Row → Result (Unit {0})
unique none = ok tt
unique (some r) = err integrity_error

-- The row that is stored for the values of the INSERT.
unfoldable pub new_row : ℕ → ℕ → Json → Json → Time → JsonText → Option ℕ → Row
unfolding affinity text_affinity
new_row l n txntype txnid added value termsid = record {
  ledger = l;
  seqno = n;
  txntype = affinity txntype;
  termsid = termsid;
  txnid = text_affinity txnid;
  added = adapted added;
  value = value;
}

-- INSERT INTO transactions
unfoldable pub insert_transaction :
    ℕ → ℕ → Json → Json → Time → JsonText → Option ℕ → Tables → Result Tables
unfolding bind_number bind_value not_null unique
insert_transaction l n txntype txnid added value termsid t = do
  bind_number n
  bind_value txntype
  bind_value txnid
  not_null txntype
  unique (find_seqno l n t.transactions)
  ok (record t {
    transactions = t.transactions ++ new_row l n txntype txnid added value termsid ∷ [];
  })
