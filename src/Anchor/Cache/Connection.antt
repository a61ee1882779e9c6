-- ===== src/Anchor/Cache/Connection.antt =====
-- `LedgerCache` as a connection: opening, closing, and the two ways to run statements. What is written is
-- seen on the connection at once, and by others when it is committed to the file.
use indy_perf.Base.{
  String, Bool, true, false, Option, none, some, List, [], ◌∷◌, str_eq, if◌then◌else◌,
}
use indy_perf.Base.Texts.{is_empty}
use indy_perf.Exn.{Result, ok, err, attribute_error, operational_error}
use indy_perf.Exec.{Exec, returned, raised, pure, gets, modify, ◌>>=◌, ◌>>◌}
use indy_perf.Anchor.Cache.Schema.{Tables, no_rows}

-- `self.db`: None, a connection to a database with no tables, or one that sees these tables.
pub data Db : Type 0 where
  closed : Db
  blank : Db
  holding : Tables → Db

-- `disk` has what is committed in each database file. `db` sees also what is not.
pub record Cache : Type 0 where
  pub db : Db
  pub db_path : String
  pub disk : List (String × Tables)

-- __init__: `db_path or ":memory:"`
unfoldable pub init : Option String → List (String × Tables) → Cache
init none disk = record { db = closed; db_path = ":memory:"; disk = disk }
init (some p) disk = record {
  db = closed;
  db_path = if is_empty p then ":memory:" else p;
  disk = disk;
}

unfoldable pub committed : String → List (String × Tables) → Option Tables
committed p [] = none
committed p ((q, t) ∷ disk) = if str_eq q p then some t else committed p disk

-- A commit writes the file; the database in memory has none.
unfoldable pub commit_to : String → Tables → List (String × Tables) → List (String × Tables)
commit_to p t disk = if str_eq p ":memory:" then disk else (p, t) ∷ disk

-- What sqlite3 sees after it opens the path.
unfoldable pub connected : Option Tables → Db
connected none = blank
connected (some t) = holding t

-- What a statement gives, and the tables that the connection sees after it.
unfoldable pub stored : {A : Type 0} → Result (A × Tables) → Exec Cache A
stored (ok (a, t)) c = (returned a, record c { db = holding t })
stored (err e) c = (raised e, c)

unfoldable pub on_tables : {A : Type 0} → (Tables → Result (A × Tables)) → Db → Exec Cache A
unfolding stored
on_tables f closed c = (raised attribute_error, c)
on_tables f blank c = (raised operational_error, c)
on_tables f (holding t) c = stored (f t) c

-- `query` with `script=False`: sqlite3 begins a transaction before a statement that writes, and nothing
-- of it is committed here.
unfoldable pub query : {A : Type 0} → (Tables → Result (A × Tables)) → Exec Cache A
unfolding on_tables
query f c = on_tables f c.db c

unfoldable pub script_on : (Tables → Tables) → Db → Exec Cache Unit
script_on f closed c = (raised attribute_error, c)
script_on f blank c = (raised operational_error, c)
script_on f (holding t) c =
    (returned tt, record c { db = holding (f t); disk = commit_to c.db_path (f t) c.disk })

-- `query` with `script=True`: executescript commits what is pending, and runs the statements each in a
-- transaction of its own.
unfoldable pub executescript : (Tables → Tables) → Exec Cache Unit
unfolding script_on commit_to
executescript f c = script_on f c.db c

-- A SELECT.
unfoldable pub select : {A : Type 0} → (Tables → A) → Exec Cache A
unfolding query
select f = query (λ t. ok (f t, t))

-- A SELECT with parameters, which raises where they cannot be bound.
unfoldable pub select_bound : {A : Type 0} → Result (Unit {0}) → (Tables → A) → Exec Cache A
unfolding query
select_bound b f = query (λ t. elim b [ err e ↦ err e | ok u ↦ ok (f t, t) ])

unfoldable pub created : Db → Exec Cache Unit
created closed c = (raised attribute_error, c)
created (holding t) c = (raised operational_error, c)
created blank c =
    (returned tt, record c { db = holding no_rows; disk = commit_to c.db_path no_rows c.disk })

unfoldable pub init_db : Exec Cache Unit
unfolding created commit_to
init_db c = created c.db c

-- Closing a connection drops what is not committed.
unfoldable pub close : Exec Cache Unit
close c = (returned tt, record c { db = closed })

unfoldable pub is_new : Option Tables → Bool
is_new none = true
is_new (some t) = false

-- Path(":memory:") is a file name too, and no such file is on the disk.
unfoldable pub open_cache : Exec Cache Unit
unfolding close init_db committed connected is_new
open_cache = do
  close
  file ← gets (λ c. committed c.db_path c.disk)
  modify (λ c. record c { db = connected file })
  if is_new file then init_db else pure tt

unfoldable pub reset : Exec Cache Unit
unfolding executescript
reset = executescript (λ t. record t { existent = []; latest = []; transactions = [] })
