-- ===== src/Tests/Cache.antt =====
-- The cache in a file.
use indy_perf.Base.{
  false, ◌&&◌, ℕ, ◌+◌, ◌-◌, ◌≡◌, refl, true, none, some, List, [], ◌∷◌, length, arith,
}
use indy_perf.Exec.{returned, raised}
use indy_perf.Exn.{overflow_error}
use indy_perf.Exec.Runs.{Stops}
use indy_perf.Json.{str, num, dumped}
use indy_perf.Anchor.Ident.{int}
use indy_perf.Anchor.LedgerType.{domain}
use indy_perf.Anchor.Cache.{get_txn, add_txn, get_txn_range}
use indy_perf.Anchor.Cache.Filled.{IsFilled}
use indy_perf.Anchor.Cache.Consecutive.{Consecutive}
use indy_perf.Anchor.Cache.Complete.{IsKeyed, get_txn_range_complete}
use indy_perf.Anchor.Cache.Schema.{fits, datetime, iso_text, Row, Tables, no_rows}
use indy_perf.Anchor.Cache.Connection.{Cache, holding, commit_to, open_cache, reset}
use indy_perf.Anchor.Cache.Reopened.{
  Write, adds, sets_latest, sets_existent, write_all, open_cache-write_all, open_cache-reset,
}
use indy_perf.Anchor.Cache.RoundTrip.{stored_info, get_txn-add_txn}
use indy_perf.Anchor.Cache.Refines.{Book}
use indy_perf.Anchor.Cache.Refines.Steps.{Sees}
use indy_perf.Anchor.Cache.Refines.Reads.{Agrees, returns, write_all-Agrees}
use indy_perf.Tests.World.{codecs, txn_data}

-- A new file, open.
abbrev in_file : Cache
in_file = record { db = holding no_rows; db_path = "cache.db"; disk = ("cache.db", no_rows) ∷ [] }

abbrev writes : List Write
writes =
    adds domain 1 (str "id") (datetime 7) (dumped (txn_data 1)) true
    ∷ sets_latest domain 1
    ∷ sets_existent domain (num 4)
    ∷ []

open_cache-write_all_example :
    open_cache (write_all codecs writes in_file)
    ≡ (returned tt, record in_file { db = holding no_rows })
unfolding indy_perf.Anchor.Cache.Connection.committed
open_cache-write_all_example = open_cache-write_all codecs writes in_file no_rows refl

open_cache-reset_example : open_cache (reset in_file).1 ≡ (
  returned tt,
  record in_file { db = holding no_rows; disk = commit_to "cache.db" no_rows in_file.disk },
)
open_cache-reset_example = open_cache-reset in_file no_rows refl refl

get_txn-add_txn_example :
    Stops
      (λ _ c'.
        (get_txn domain (int 1) c').0
        ≡ returned (some (stored_info 1 (str "id") (datetime 7) (dumped (txn_data 1)))))
      (λ _. Unit)
      (λ _. ⊥)
      (add_txn codecs domain 1 (str "id") (datetime 7) (dumped (txn_data 1)) true in_file)
get_txn-add_txn_example =
    get_txn-add_txn codecs domain 0 (str "id") (datetime 7) (dumped (txn_data 1)) true in_file

abbrev row : ℕ → Row
row n = record {
  ledger = 1;
  seqno = n;
  txntype = num 1;
  termsid = none;
  txnid = str "id";
  added = iso_text 7;
  value = dumped (txn_data n);
}

abbrev two : Tables
two = record { existent = []; latest = (1, 2) ∷ []; transactions = row 2 ∷ row 1 ∷ []; terms = [] }

two-IsFilled : IsFilled two
unfolding indy_perf.Anchor.Cache.Schema.find_seqno indy_perf.Anchor.Cache.Schema.select_by_ledger
two-IsFilled = record { at = λ l n p q. ground arith }

two-IsKeyed : IsKeyed two.transactions
unfolding indy_perf.Anchor.Cache.Schema.find_seqno
two-IsKeyed = (refl, (refl, tt))

get_txn_range_complete_example :
    Stops
      (λ rows c'. Consecutive 1 rows × (length rows ≡ 1 + 1 + 1 - 1))
      (λ c'. (fits 1 && fits 2) ≡ false)
      (λ c'. ⊥)
      (get_txn_range domain (some 1) (some 2) (record in_file { db = holding two }))
unfolding indy_perf.Anchor.Cache.Schema.select_by_ledger
get_txn_range_complete_example =
    get_txn_range_complete domain 0 1 (record in_file { db = holding two }) two refl two-IsFilled
      two-IsKeyed (omega arith)

-- A book with nothing in it, which a new file has.
abbrev no_entries : Book
no_entries = record { txn = λ l n. none; latest = λ l. none }

in_file-Sees : Sees no_entries in_file
unfolding indy_perf.Anchor.Cache.Schema.find_seqno indy_perf.Anchor.Cache.Schema.select_by_ledger
    indy_perf.Anchor.Cache.info_of indy_perf.Anchor.Cache.nonzero
in_file-Sees = record {
  tables = no_rows;
  open_db = refl;
  holds = record { txns = λ l n. refl; latest = λ l. refl; keyed = tt };
}

-- The second add is of a number that is taken.
abbrev writes_twice : List Write
writes_twice =
    adds domain 1 (str "id") (datetime 7) (dumped (txn_data 1)) true
    ∷ adds domain 1 (str "other") (datetime 8) (dumped (txn_data 1)) true
    ∷ sets_latest domain 1
    ∷ []

write_all-Agrees_example :
    Agrees no_entries writes_twice
      (returns codecs writes_twice in_file)
      (write_all codecs writes_twice in_file)
write_all-Agrees_example = write_all-Agrees codecs writes_twice no_entries in_file in_file-Sees

-- A number that sqlite3 cannot bind.
too_great : (get_txn domain (int 9223372036854775808) in_file).0 ≡ raised overflow_error
unfolding get_txn indy_perf.Anchor.Cache.Schema.bind_number
too_great = refl
