-- ===== src/Anchor/Cache.antt =====
-- `LedgerCache`: the reads and writes of the SQLite database of transactions.
pub mod Schema
pub mod Search
pub mod Connection
pub mod Filled
pub mod Sound
pub mod Adds
pub mod Selects
pub mod Prompt
pub mod Reopened
pub mod RoundTrip
pub mod Refines
pub mod Consecutive
pub mod Complete
use indy_perf.Base.{
  ℕ, zero, suc, ◌+◌, String, Bool, Option, none, some, List, [], ◌∷◌, map, length, ◌==◌,
  if◌then◌else◌,
}
use indy_perf.Base.Texts.{is_empty}
use indy_perf.Exn
use indy_perf.Exn.{Result, ok, err}
use indy_perf.Exec.{Exec, pure, lift, ◌>>=◌, ◌>>◌}
use indy_perf.Json.{Json, num, Fields, end, field, truthy, JsonText}
use indy_perf.Anchor.Ident.{Ident, int, text, is_int, given, seqno_of}
use indy_perf.Anchor.LedgerType.{LedgerType, value}
use indy_perf.Anchor.Terms.{Codecs, txn_extract_terms}
use indy_perf.Anchor.Cache.Schema.{
  Time, Row, TxnInfo, Tables, info, bind_number, bind_both, bind_ident, bind_value, affinity,
  select_by_ledger, replace, find_seqno, find_txnid, select_range, insert_terms, insert_transaction,
}
use indy_perf.Anchor.Cache.Connection.{Cache, query, select, select_bound}
use indy_perf.Anchor.Cache.Search.{Match, test_of, found, page}

-- `row and row[0] or None`
unfoldable pub nonzero : Option ℕ → Option ℕ
nonzero none = none
nonzero (some zero) = none
nonzero (some (suc n)) = some (suc n)

unfoldable pub get_latest_seqno : LedgerType → Exec Cache (Option ℕ)
unfolding select nonzero select_by_ledger
get_latest_seqno t = select (λ s. nonzero (select_by_ledger (value t) s.latest))

unfoldable pub truthy_or_none : Option Json → Option Json
truthy_or_none none = none
truthy_or_none (some j) = if truthy j then some j else none

unfoldable pub get_max_seqno : LedgerType → Exec Cache (Option Json)
unfolding select truthy_or_none select_by_ledger
get_max_seqno t = select (λ s. truthy_or_none (select_by_ledger (value t) s.existent))

unfoldable pub info_of : Option Row → Option TxnInfo
info_of none = none
info_of (some r) = some (info r)

unfoldable pub select_txn : LedgerType → Ident → Tables → Option TxnInfo
select_txn t (int n) s = info_of (find_seqno (value t) n s.transactions)
select_txn t (text k) s =
    if is_int (text k)
    then info_of (find_seqno (value t) (seqno_of (text k)) s.transactions)
    else info_of (find_txnid (value t) k s.transactions)

unfoldable pub get_txn : LedgerType → Ident → Exec Cache (Option TxnInfo)
unfolding select_bound bind_ident select_txn info_of find_seqno find_txnid is_int seqno_of
get_txn t ident =
    if given ident then select_bound (bind_ident ident) (select_txn t ident) else pure none

-- The rows up to the first that is not at its place.
unfoldable pub until_gap : ℕ → List Row → List Row
until_gap pos [] = []
until_gap pos (r ∷ rows) =
    let rest = until_gap (pos + 1) rows in if r.seqno == pos then r ∷ rest else []

unfoldable pub rows_between : LedgerType → Option ℕ → Option ℕ → Exec Cache (List TxnInfo)
rows_between t (some (suc s)) (some (suc e)) =
    select_bound (bind_both (suc s) (suc e))
      (λ d. map info (until_gap (suc s) (select_range (value t) (suc s) (suc e) d.transactions)))
rows_between t _ _ = pure []

-- `is None`
or_else : Option ℕ → Option ℕ → Option ℕ
or_else none d = d
or_else (some n) d = some n

unfoldable pub get_txn_range : LedgerType → Option ℕ → Option ℕ → Exec Cache (List TxnInfo)
unfolding get_latest_seqno rows_between or_else until_gap select_range
get_txn_range t start end' = do
  latest ← get_latest_seqno t
  rows_between t (or_else start (some 1)) (or_else end' latest)

-- A text that is empty counts as no type.
given_type : Option String → Option String
given_type none = none
given_type (some s) = if is_empty s then none else some s

-- A limit of -1 can be bound.
limit_number : Option ℕ → ℕ
limit_number none = 0
limit_number (some n) = n

-- The parameters are bound before sqlite3 reads the query of the MATCH.
unfoldable pub get_txn_search :
    Match
    → LedgerType
    → Option String
    → Option String
    → Option ℕ
    → ℕ
    → Bool
    → Exec Cache (List TxnInfo × Option ℕ)
unfolding select select_bound bind_both limit_number test_of found page given_type
get_txn_search m t q txn_type limit offset count = do
  select_bound (bind_both (limit_number limit) offset) (λ d. tt)
  test ← lift (test_of m q)
  rows ← select (λ d. found (value t) (given_type txn_type) test d)
  pure (map info (page limit offset rows), if count then some (length rows) else none)

unfoldable pub replace_latest : LedgerType → ℕ → Tables → Result (Unit × Tables)
replace_latest t n d = elim (bind_number n) [
  | err e ↦ err e
  | ok u ↦ ok (tt, record d { latest = replace (value t) n d.latest })
]

unfoldable pub set_latest : LedgerType → ℕ → Exec Cache Unit
unfolding query replace_latest replace bind_number
set_latest t n = query (replace_latest t n)

unfoldable pub replace_existent : LedgerType → Json → Tables → Result (Unit × Tables)
replace_existent t n d = elim (bind_value n) [
  | err e ↦ err e
  | ok j ↦ ok (tt, record d { existent = replace (value t) (affinity j) d.existent })
]

unfoldable pub set_existent : LedgerType → Json → Exec Cache Unit
unfolding query replace_existent replace bind_value affinity
set_existent t n = query (replace_existent t n)

-- `if terms:` a dict that is not empty
unfoldable pub insert_if_any : Fields → Exec Cache (Option ℕ)
insert_if_any end = pure none
insert_if_any (field k v f) = do rowid ← query (insert_terms (field k v f)); pure (some rowid)

-- `ledger_size or seq_no`
unfoldable pub size_or : Json → ℕ → Json
size_or j n = if truthy j then j else num n

unfoldable pub with_unit : Result Tables → Result (Unit × Tables)
with_unit (ok t) = ok (tt, t)
with_unit (err e) = err e

unfoldable pub set_tail : LedgerType → ℕ → Json → Bool → Exec Cache Unit
unfolding set_latest set_existent size_or
set_tail t n ledger_size latest =
    if latest then (do set_latest t n; set_existent t (size_or ledger_size n)) else pure tt

unfoldable pub add_txn : Codecs → LedgerType → ℕ → Json → Time → JsonText → Bool → Exec Cache Unit
unfolding query insert_if_any insert_terms insert_transaction with_unit set_tail txn_extract_terms
add_txn c t n txn_id added txn_value latest = do
  (txn_type, terms, ledger_size) ← lift (txn_extract_terms c txn_value)
  terms_id ← insert_if_any terms
  query (λ d. with_unit (insert_transaction (value t) n txn_type txn_id added txn_value terms_id d))
  set_tail t n ledger_size latest
