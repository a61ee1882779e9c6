-- ===== src/Anchor/Handle/Calls.antt =====
-- Every way in which the web server and the background tasks use an `AnchorHandle`, as data, and the
-- run of any sequence of such calls. An exception ends its own call only.
pub mod NoGap
pub mod Offline
use indy_perf.Base.{ℕ, String, Bool, false, Option, List, [], ◌∷◌}
use indy_perf.Exec.{Exec, pure, ◌>>=◌, ◌>>◌}
use indy_perf.Json.{Json}
use indy_perf.Anchor.Ident.{Ident}
use indy_perf.Anchor.LedgerType.{LedgerType, LedgerValue}
use indy_perf.Anchor.Handle.State.{State}
use indy_perf.Anchor.Handle.Requests.{get_nym, register_did}
use indy_perf.Anchor.Handle.Fetch.{
  get_latest_seqno, get_max_seqno, get_txn, fetch_tail_txn, get_txn_range,
}
use indy_perf.Anchor.Handle.Sync.{
  sync_ledger_cache, update_ledger_cache, init_cache, maintain_round, reset_ledger_cache,
  get_txn_search,
}
use indy_perf.Anchor.Handle.Open.{Boot, open_handle, close_handle}
use indy_perf.Anchor.Handle.Validators.{validator_info}

pub data Call : Type 0 where
  open_anchor close_anchor : Call
  latest_seqno max_seqno : LedgerValue → Call
  txn : LedgerValue → Ident → Bool → Call
  tail_txn : LedgerType → Option ℕ → Call
  txn_range : LedgerValue → Option ℕ → Option ℕ → Call
  txn_search : LedgerValue → Option String → Option String → Option ℕ → ℕ → Call
  nym : String → Call
  register : String → Json → Option String → Json → Call
  validators : Call
  sync : LedgerType → Bool → Call
  update : LedgerType → Call
  init maintain reset : Call

module _ {W : Type 0} (b : Boot W) (fuel : ℕ) where
  -- The call, its result dropped.
  done : {A : Type 0} → Exec (State W) A → Exec (State W) Unit
  done m = do m; pure tt

  unfoldable pub perform : Call → Exec (State W) Unit
  unfolding done
  perform open_anchor = open_handle b
  perform close_anchor = close_handle b
  perform (latest_seqno lv) = done (get_latest_seqno lv)
  perform (max_seqno lv) = done (get_max_seqno lv)
  perform (txn lv ident cache) = done (get_txn b.env lv ident cache false)
  perform (tail_txn t m) = done (fetch_tail_txn b.env t m)
  perform (txn_range lv s e) = done (get_txn_range b.env fuel lv s e)
  perform (txn_search lv q ty l o) = done (get_txn_search b.env fuel lv q ty l o)
  perform (nym did) = done (get_nym b.env did)
  perform (register did verkey alias role) = register_did b.env did verkey alias role
  perform validators = done (validator_info b.env)
  perform (sync t wait) = done (sync_ledger_cache b.env fuel t wait)
  perform (update t) = update_ledger_cache b.env fuel t
  perform init = init_cache b.env fuel
  perform maintain = maintain_round b.env fuel
  perform reset = reset_ledger_cache b.env

  -- One call after another.
  unfoldable pub run : List Call → State W → State W
  unfolding perform
  run [] h = h
  run (c ∷ cs) h = run cs (perform c h).1
