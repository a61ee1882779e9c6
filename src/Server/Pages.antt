-- ===== src/Server/Pages.antt =====
-- `ledger_json`: a page of the transactions of a ledger, in order or found by a search.
pub mod Windows
use Prim.Native.Char.{code}
use Prim.Native.String.{compare}
use Prim.Native.Nat.{Ordering}
use indy_perf.Base.{
  ℕ, ◌+◌, ◌-◌, ◌*◌, String, Bool, true, false, ◌&&◌, ◌||◌, Option, none, some, List, [], ◌∷◌,
  length, ltb, leb, ◌==◌, if◌then◌else◌,
}
use indy_perf.Environ.{int_text}
use indy_perf.Base.Integers.{ℤ, pos, negsuc}
use indy_perf.Exn.{Result, ok, err, type_error, value_error}
use indy_perf.Exec.{Exec, pure, lift, gets, ◌>>=◌}
use indy_perf.Json.{Json, null, num, str, obj, end, field, truthy, loads}
use indy_perf.Anchor.LedgerType.{text}
use indy_perf.Anchor.Cache.Schema.{TxnInfo}
use indy_perf.Anchor.Handle.State.{Env, State}
use indy_perf.Anchor.Handle.Fetch.{get_txn_range, get_max_seqno}
use indy_perf.Anchor.Handle.Sync.{get_txn_search}
use indy_perf.Server.Responses.{Response, json_response, not_ready_response}

-- The parameters of the query, as texts.
pub record Query : Type 0 where
  pub page : Option String
  pub page_size : Option String
  pub query : Option String
  pub type_of : Option String

-- A number below 0, with which Python goes on, is not modelled.
natural : Result ℤ → Result ℕ
natural (ok (pos n)) = ok n
natural (ok (negsuc n)) = err value_error
natural (err e) = err e

-- int(query.get(name, d))
unfoldable pub int_param : ℕ → Option String → Result ℕ
unfolding int_text natural
int_param d none = ok d
int_param d (some s) = natural (int_text s)

is_space : ℕ → Bool
is_space c = leb 9 c && leb c 13 || leb 28 c && leb c 32

-- not s.strip()
is_blank : String → Bool
unfolding is_space
is_blank String.[] = true
is_blank (String.◌∷◌ c s) = is_space (code c) && is_blank s

-- A parameter that is blank is none.
unfoldable pub unless_blank : Option String → Option String
unfolding is_blank
unless_blank none = none
unless_blank (some s) = if is_blank s then none else some s

-- The number of the first transaction of a page, and of the last one. For page 0 the code's first number is
-- negative: the range is then empty because its end is 0, and SQLite takes the offset for 0, as here.
abbrev pub first_of : ℕ → ℕ → ℕ
first_of page size = (page - 1) * size + 1

abbrev pub last_of : ℕ → ℕ → ℕ
last_of page size = page * size

-- m - n
unfoldable pub difference : ℕ → ℕ → ℤ
difference m n = if leb n m then pos (m - n) else negsuc (n - m - 1)

-- The answer: an error, or the page with its position.
pub data PageResponse : Type 0 where
  other : Response → PageResponse
  page_of :
      (total : Json) (page_size page : ℕ) (first_index last_index : ℤ) (results : List Json)
      (last_modified : Json)
      → PageResponse

-- max(a, b), of two texts
later : Json → Json → Result Json
later (str a) (str b) = elim (compare a b) [ Ordering.lt ↦ ok (str b) | _ ↦ ok (str a) ]
later _ _ = err type_error

-- The loop over the rows. What it takes for the time of a row, row[1], is the ID of the transaction.
unfoldable pub collected : Json → List TxnInfo → Result (List Json × Json)
unfolding later
collected last [] = ok ([], last)
collected last (i ∷ rows) = elim (if truthy last then later last i.txnid else ok i.txnid) [
  | err e ↦ err e
  | ok last' ↦ elim (loads i.value) [
    | err e ↦ err e
    | ok j ↦ elim (collected last' rows) [ err e ↦ err e | ok (results, m) ↦ ok (j ∷ results, m) ]
  ]
]

or_null : Option Json → Json
or_null none = null
or_null (some j) = j

count_json : Option ℕ → Json
count_json none = null
count_json (some n) = num n

is_given : Option String → Bool
is_given none = false
is_given (some s) = true

invalid_page : Response
invalid_page = json_response 404 (obj (field "detail" (str "Invalid page.") end))

unfoldable pub page_response : ℕ → ℕ → Json → List Json × Json → PageResponse
unfolding difference invalid_page
page_response page size total (results, last) =
    if length results == 0 && ltb 1 page
    then other invalid_page
    else page_of total size page (difference (page * size + 1) size)
        (difference (page * size + length results) size) results last

module _ {W : Type 0} (env : Env W) (fuel : ℕ) where
  -- The rows of the page and the total.
  unfoldable pub page_rows :
      String → ℕ → ℕ → Option String → Option String → Exec (State W) (List TxnInfo × Json)
  unfolding get_txn_search get_txn_range get_max_seqno or_null count_json is_given
  page_rows ledger page size q txn_type =
      if is_given txn_type || is_given q
      then (do
        (rows, count) ←
            get_txn_search env fuel (text ledger) q txn_type (some size) (first_of page size - 1)
        pure (rows, count_json count))
      else (do
        rows ←
            get_txn_range env fuel (text ledger) (some (first_of page size))
              (some (last_of page size))
        count ← get_max_seqno (text ledger)
        pure (rows, or_null count))

  answered : String → Query → Exec (State W) PageResponse
  unfolding int_param unless_blank page_rows collected page_response
  answered ledger q = do
    page ← lift (int_param 1 q.page)
    size ← lift (int_param 100 q.page_size)
    (rows, total) ← page_rows ledger page size (unless_blank q.query) (unless_blank q.type_of)
    results ← lift (collected null rows)
    pure (page_response page size total results)

  unfoldable pub ledger_json : String → Query → Exec (State W) PageResponse
  unfolding answered
  ledger_json ledger q = do
    ready ← gets (λ h. h.ready)
    if ready then answered ledger q else pure (other not_ready_response)
