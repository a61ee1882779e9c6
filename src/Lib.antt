-- ===== src/Lib.antt =====
-- IndyPerf: the ledger browser, von-network/server/anchor.py and von-network/server/server.py, and the
-- scripts that set up a ledger and measure it.
--
-- The anchor is the part of the web server that talks to an Indy ledger and keeps a local cache of its
-- transactions. `AnchorHandle` submits requests by way of libindy; `LedgerCache` is a SQLite database with
-- the transactions, the search terms drawn from them, and for each ledger the latest transaction up to which
-- it is complete. Background tasks keep the cache current, and the routes of server/server.py read it.
--
-- Which file models what:
--   Base            names of the library, numbers, lists and texts that the other files share
--   Exn             the exceptions that the code tells apart, and a result that may be one
--   Json            JSON values with Python's get, [], in, truth and ==, and json.loads and json.dumps
--   Exec            a coroutine: a state goes in; a result, an exception or a wait comes out, and the state.
--                   Exec/Runs has a Hoare logic with one rule for each way to build one
--   Anchor/LedgerType, Ident, Seeds, Genesis
--                   LedgerType.for_value, is_int, seed_as_bytes and seed_to_did, resolve_genesis_file
--   Environ, Anchor/Config
--                   what the modules read from the environment; the constants of anchor.py and AnchorHandle()
--   Anchor/Terms    txn_extract_terms, by transaction type; Verkeys has the two forms of a verkey
--   Anchor/Cache    LedgerCache. Schema has the tables and statements, Connection what is committed and what
--                   is not, Search the join behind get_txn_search, Cache.antt the methods, and Refines the
--                   book that the cache is to its callers
--   Anchor/Handle   AnchorHandle. State has the fields, Signing and Requests submit_request, get_nym and
--                   register_did, Fetch get_txn, fetch_tail_txn and get_txn_range, Sync sync_ledger_cache and
--                   what calls it, Agreement _register_txn_agreement, Open open and close, Validators
--                   validator_info, Calls any sequence of calls
--   Server          the routes of server.py. Responses has status and ledger_seq, StatusText
--                   status_text, Register register, Pages ledger_json, Text ledger_text, Site the genesis
--                   route and what the pages are filled with
--   FileServer      server.py at the root, which serves the genesis files of a node
--   Scripts         the scripts that talk to libindy. Calls has the functions of libindy and the handles that
--                   they open and close, Program a coroutine of a script as a tree of what it awaits, prints
--                   and writes, with its run; Program/Runs what holds whatever libindy answers. Tasks is
--                   asyncio.gather under any order of the awaits, with Shared and Turns for tasks that share
--                   handles. Steward is add_steward/create_steward.py, Utils add_steward/utils.py, Load
--                   test_transactions/test_transactions.py, Synctest von-network/server/synctest.py, CredDef
--                   and Metadata von-network/cli-scripts/cred_def.py and set_did_metadata.py,
--                   Storage what the last two have in common
--   Timings         the statistics of test_transactions/parse_result.py; Files has the files that it reads
--   Tests           a toy alphabet and a small ledger, on which the definitions run
--
-- A method is a function of the handle's state, with the source's name and arguments. A `try` is `catch` or
-- `finally`, and what was written before an exception stays written.
--
-- What is a parameter: libindy, the signer, the clock, fts3's MATCH, base58, base64, nacl, sha256, the
-- download of a genesis file, the files on disk, the floats of the timings and the printing of dates (Env,
-- AgreementEnv, Boot, Codecs, Base58, Keys, Download, Floats, Formats, Machine, Times), and in cred_def.py the JSON
-- of a schemaId below 0. What changes anything does so in a world of any type. `IsBase58` names what is assumed
-- of base58 where it matters, on lists of bytes.
--
-- The environment is a function from names to texts; what a text of it, or a result file, is as JSON is an
-- argument of the scripts that read it.
--
-- JSON numbers are naturals. A JSON text is the value that was written, or garbage. `isdigit`, `upper`, `lower`
-- and `int` are those of ASCII; the page and the page size of ledger_json are modelled from 0 on. The text of
-- some exception messages is shortened.
--
-- A number that a statement binds must be below 2 ^ 63, or sqlite3 raises an OverflowError. A datetime comes back
-- from the database as the text that sqlite3 writes for it.
-- The anchor's limit of a sync is MAX_FETCH as a natural: below 0 it means what 0 does, no limit.
--
-- Fuel: the loops of sync_ledger_cache and get_txn_range run until the ledger has no more transactions.
-- Fuel bounds their rounds, and a run without fuel left is `waiting`: it is still fetching. `waiting` also
-- stands for an await on a lock that another task holds.
--
-- A script is another kind of coroutine: it runs beside others of its kind, which take turns at the awaits.
-- Machine is what answers it: libindy, the clock and the pauses. A trace records what it asked and what was
-- answered, what it printed and what it wrote.
--
-- Not modelled: two tasks of the anchor that alternate at their awaits (each method runs alone), the start of
-- background tasks (init_cache and one round of maintain_cache are calls of their own), log lines of the
-- server, the pages and files that the web server sends as they are, and aries-cloudagent-python, which is
-- another project's library.
pub mod Base
pub mod Exn
pub mod Environ
pub mod Json
pub mod Exec
pub mod Anchor
pub mod Server
pub mod FileServer
pub mod Scripts
pub mod Timings
mod Tests
