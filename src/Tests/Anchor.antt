-- ===== src/Tests/Anchor.antt =====
-- The anchor at the small world.
use indy_perf.Base.{◌≡◌, refl, str_eq, if◌then◌else◌, true, false, none, some, List, [], ◌∷◌, map}
use indy_perf.Base.Integers.{pos, negsuc}
use indy_perf.Exn.{ok, err, value_error}
use indy_perf.Exec.{Outcome, returned, raised, waiting}
use indy_perf.Anchor.Ident.{Ident, int}
use indy_perf.Anchor.LedgerType.{domain, member, number}
use indy_perf.Anchor.Cache.Schema.{TxnInfo}
use indy_perf.Anchor.Handle.NoGap.{Filled}
use indy_perf.Anchor.Handle.Fetch.{get_txn_range}
use indy_perf.Anchor.Handle.Calls.{Call, open_anchor, txn, sync, init, run}
use indy_perf.Anchor.Handle.Calls.NoGap.{run-Filled}
use indy_perf.Anchor.Handle.Open.{open_handle}
use indy_perf.Anchor.Handle.Open.Outcomes.{Ended, open_handle-Ended}
use indy_perf.Environ.{Environ, int_text}
use indy_perf.Anchor.Config.{Config, constants, config}
use indy_perf.Tests.World.{env, boot, fresh}

-- Open, look at transaction 2 out of order, sync, and look for one that is not there.
abbrev calls : List Call
calls =
    open_anchor
    ∷ txn (number 1) (int 2) true
    ∷ init
    ∷ txn (member domain) (int 9) true
    ∷ sync domain false
    ∷ []

run-Filled_example : Filled (run boot 10 calls fresh)
run-Filled_example = run-Filled boot 10 (λ w. tt) calls fresh (record { cache = tt })

abbrev idents : Outcome (List TxnInfo) → List Ident
idents (returned l) = map (λ i. i.ident) l
idents (raised e) = []
idents waiting = []

-- After the calls a range has both transactions, the second of which was fetched first.
after_calls :
    let (r, h) = get_txn_range env 10 (member domain) none none (run boot 10 calls fresh) in
    idents r ≡ int 1 ∷ int 2 ∷ []
unfolding run get_txn_range indy_perf.Exec.◌>>=◌ indy_perf.Anchor.Handle.Sync.sync_ledger_cache
    indy_perf.Anchor.Handle.Sync.init_cache indy_perf.Anchor.Handle.Open.open_handle
    indy_perf.Anchor.Cache.get_txn indy_perf.Json.get indy_perf.Json.index indy_perf.Json.contains
    indy_perf.Anchor.Cache.add_txn indy_perf.Json.dict_set indy_perf.Anchor.Cache.get_latest_seqno
    indy_perf.Anchor.Cache.Schema.new_row indy_perf.Anchor.Cache.get_txn_range
    indy_perf.Anchor.Cache.Schema.bind_both
after_calls = refl

open_handle-Ended_example : Ended fresh (open_handle boot fresh)
open_handle-Ended_example = open_handle-Ended boot fresh

-- An environment that sets three variables.
abbrev environ : Environ
environ name =
    if str_eq name "MAX_FETCH"
    then some "10"
    else if str_eq name "ANONYMOUS"
    then some "False"
    else if str_eq name "REGISTER_NEW_DIDS"
    then some "1"
    else none

abbrev environ_config : Config
environ_config = constants environ (pos 10) (pos 120)

loaded : config environ ≡ ok environ_config
unfolding config int_text
loaded = refl

-- MAX_FETCH=-1 loads.
below_zero : int_text " -1 " ≡ ok (negsuc 0)
unfolding int_text
below_zero = refl

marked : int_text "+50_000\n" ≡ ok (pos 50000)
unfolding int_text
marked = refl

mark_last : int_text "5_" ≡ err value_error
unfolding int_text
mark_last = refl
