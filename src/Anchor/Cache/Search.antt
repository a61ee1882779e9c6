-- ===== src/Anchor/Cache/Search.antt =====
-- The full-text search of `get_txn_search`: the join of `terms` and `transactions`.
use indy_perf.Base.{
  ℕ, ◌+◌, String, Bool, true, false, ◌&&◌, Option, none, some, List, [], ◌∷◌, ◌++◌, take, drop,
  ◌==◌, str_eq, if◌then◌else◌,
}
use indy_perf.Exn.{Result, ok, err, operational_error}
use indy_perf.Json.{Json, num, str, Fields}
use indy_perf.Anchor.Cache.Schema.{Row, Tables, affinity}

-- How SQLite's fts3 reads a query: none if it is malformed, or a test on the columns of a row.
abbrev pub Match : Type 0
Match = String → Option (Fields → Bool)

-- column = parameter, for numbers and texts
scalar_eq : Json → Json → Bool
scalar_eq (num m) (num n) = m == n
scalar_eq (str s) (str t) = str_eq s t
scalar_eq _ _ = false

-- AND txn.txntype = ?, if a type is given
unfoldable pub has_type : Option String → Row → Bool
unfolding scalar_eq affinity
has_type none r = true
has_type (some s) r = scalar_eq r.txntype (affinity (str s))

is_row : Option ℕ → ℕ → Bool
is_row none n = false
is_row (some m) n = m == n

-- ON txn.termsid = terms.rowid AND txn.ledger = ?, for one row of `terms`
unfoldable pub joined : ℕ → Option String → ℕ → List Row → List Row
unfolding is_row has_type
joined l ty rowid [] = []
joined l ty rowid (r ∷ rows) =
    let rest = joined l ty rowid rows in
    if is_row r.termsid rowid && r.ledger == l && has_type ty r then r ∷ rest else rest

-- The rows of `terms`, in order from the rowid `n` on.
unfoldable pub join_from :
    ℕ → Option String → (Fields → Bool) → ℕ → List Fields → List Row → List Row
unfolding joined
join_from l ty test n [] rows = []
join_from l ty test n (f ∷ fs) rows =
    let rest = join_from l ty test (n + 1) fs rows in
    if test f then joined l ty n rows ++ rest else rest

-- AND terms MATCH ?, if a query is given
unfoldable pub test_of : Match → Option String → Result (Fields → Bool)
test_of m none = ok (λ f. true)
test_of m (some q) = elim (m q) [ none ↦ err operational_error | some t ↦ ok t ]

-- All rows that the search finds.
unfoldable pub found : ℕ → Option String → (Fields → Bool) → Tables → List Row
unfolding join_from
found l ty test t = join_from l ty test 1 t.terms t.transactions

-- LIMIT ? OFFSET ?; no limit is -1
unfoldable pub page : Option ℕ → ℕ → List Row → List Row
page none offset l = drop offset l
page (some n) offset l = take n (drop offset l)
