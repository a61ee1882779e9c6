-- ===== src/Anchor/Handle/Fetch.antt =====
-- Transactions by way of the cache: `get_txn`, `fetch_tail_txn`, `get_txn_range`.
use indy_perf.Base.{
  ℕ, zero, suc, ◌+◌, Bool, true, false, ◌&&◌, Option, none, some, List, ◌++◌, length, ltb, leb,
  if◌then◌else◌,
}
use indy_perf.Exn.{Exn, anchor, is_anchor}
use indy_perf.Exec.{Exec, pure, raise, lift, gets, catch, block, when_some, ◌>>=◌, ◌>>◌}
use indy_perf.Json.{Json, null, obj, end, truthy, index, get, contains, dumps}
use indy_perf.Anchor.Ident.{Ident, int, is_int, given, seqno_of}
use indy_perf.Anchor.LedgerType.{LedgerType, LedgerValue, member, for_value, name}
use indy_perf.Anchor.Cache
use indy_perf.Anchor.Cache.Schema.{datetime, TxnInfo}
use indy_perf.Anchor.Handle.State.{Env, State, on_cache, with_ledger_lock}
use indy_perf.Anchor.Handle.Requests.{submit_request, require_ready}

unfoldable pub get_latest_seqno : {W : Type 0} → LedgerValue → Exec (State W) (Option ℕ)
unfolding on_cache
get_latest_seqno lv = do t ← lift (for_value lv); on_cache (Cache.get_latest_seqno t)

unfoldable pub get_max_seqno : {W : Type 0} → LedgerValue → Exec (State W) (Option Json)
unfolding on_cache
get_max_seqno lv = do t ← lift (for_value lv); on_cache (Cache.get_max_seqno t)

-- j or {}
or_empty : Json → Json
or_empty j = if truthy j then j else obj end

-- An AnchorException while a transaction is fetched is wrapped in another, whose message names the
-- transaction (not modelled in the text).
unfoldable pub reraised : {W A : Type 0} → Exn → Exec (State W) A
reraised e = raise (if is_anchor e then anchor "Exception when fetching transaction" else e)

-- `if "txnMetadata" in txn_data: txn_id = txn_data["txnMetadata"].get("txnId")`
unfoldable pub txn_id_of : {W : Type 0} → Json → Exec (State W) Json
txn_id_of txn_data = do
  present ← lift (contains txn_data "txnMetadata")
  if present
      then (do metadata ← lift (index txn_data "txnMetadata"); lift (get metadata "txnId" null))
      else pure null

-- `latest and latest + 1 or 1`
abbrev pub next_seqno : Option ℕ → ℕ
next_seqno none = 1
next_seqno (some n) = n + 1

-- `max_seqno and latest > max_seqno`; a maximum of 0 is no maximum.
abbrev pub passed : Option ℕ → ℕ → Bool
passed none n = false
passed (some zero) n = false
passed (some (suc m)) n = ltb (suc m) n

-- `not end or fetch_from <= end`
abbrev pub within : Option ℕ → ℕ → Bool
within none n = true
within (some zero) n = true
within (some (suc e)) n = leb n (suc e)

-- `start or 1`
abbrev pub start_or_1 : Option ℕ → ℕ
start_or_1 none = 1
start_or_1 (some zero) = 1
start_or_1 (some (suc n)) = suc n

module _ {W : Type 0} (env : Env W) where
  -- The request for a transaction and its data, or {}.
  unfoldable pub fetched_data : LedgerType → Ident → Exec (State W) Json
  unfolding or_empty reraised submit_request
  fetched_data t ident = do
    did ← gets (λ h. h.did)
    req_json ← lift (env.build_get_txn did (name t) (seqno_of ident))
    txn ← catch (submit_request env req_json false false) reraised
    result ← lift (index txn "result_4")
    found ← lift (get result "data" (obj end))
    pure (or_empty found)

  -- `txn_data and txn_data.get("txn")`
  unfoldable pub has_txn : Json → Exec (State W) Bool
  has_txn txn_data =
      if truthy txn_data
      then (do txn ← lift (get txn_data "txn" null); pure (truthy txn))
      else pure false

  unfoldable pub store : LedgerType → Bool → Bool → TxnInfo → Exec (State W) Unit
  unfolding on_cache
  store t cache latest i =
      if cache
      then on_cache (Cache.add_txn env.codecs t (seqno_of i.ident) i.txnid i.added i.value latest)
      else pure tt

  -- A transaction that the ledger has not is None.
  unfoldable pub fetch : LedgerType → Ident → Bool → Bool → Exec (State W) (Option TxnInfo)
  unfolding fetched_data has_txn txn_id_of store
  fetch t ident cache latest = do
    txn_data ← fetched_data t ident
    present ← has_txn txn_data
    if present
        then (do
          added ← gets (λ h. env.now h.world)
          txn_id ← txn_id_of txn_data
          let i : TxnInfo = record {
            ident = ident;
            txnid = txn_id;
            added = datetime added;
            value = dumps txn_data;
          }
          store t cache latest i
          pure (some i))
        else pure none

  -- A transaction that the cache has: it becomes the latest if it is asked for as such.
  unfoldable pub hit : LedgerType → Ident → Bool → TxnInfo → Exec (State W) (Option TxnInfo)
  unfolding on_cache
  hit t ident latest i = do
    (if latest && is_int ident then on_cache (Cache.set_latest t (seqno_of ident)) else pure tt)
    pure (some i)

  -- A text that is no number is a transaction ID, which only the cache can find.
  unfoldable pub miss : LedgerType → Ident → Bool → Bool → Exec (State W) (Option TxnInfo)
  unfolding fetch
  miss t ident cache latest = if is_int ident then fetch t ident cache latest else pure none

  unfoldable pub from_cache : LedgerType → Ident → Bool → Exec (State W) (Option TxnInfo)
  unfolding on_cache
  from_cache t ident cache = if cache then on_cache (Cache.get_txn t ident) else pure none

  -- After the cache has been asked.
  unfoldable pub answered :
      LedgerType → Ident → Bool → Bool → Option TxnInfo → Exec (State W) (Option TxnInfo)
  unfolding hit miss
  answered t ident cache latest (some i) = hit t ident latest i
  answered t ident cache latest none = miss t ident cache latest

  unfoldable pub get_txn : LedgerValue → Ident → Bool → Bool → Exec (State W) (Option TxnInfo)
  unfolding from_cache answered for_value
  get_txn lv ident cache latest = do
    t ← lift (for_value lv)
    require_ready env
    if given ident
        then (do cached ← from_cache t ident cache; answered t ident cache latest cached)
        else pure none

  unfoldable pub fetch_tail : LedgerType → Option ℕ → Exec (State W) (Option TxnInfo)
  unfolding on_cache get_txn
  fetch_tail t max_seqno = do
    latest ← on_cache (Cache.get_latest_seqno t)
    if passed max_seqno (next_seqno latest)
        then pure none
        else get_txn (member t) (int (next_seqno latest)) true true

  unfoldable pub fetch_tail_txn : LedgerType → Option ℕ → Exec (State W) (Option TxnInfo)
  unfolding with_ledger_lock fetch_tail
  fetch_tail_txn t max_seqno = with_ledger_lock (fetch_tail t max_seqno)

  -- The loop of `get_txn_range`. The fuel bounds the rounds; without it the task is still fetching.
  unfoldable pub fetch_until : ℕ → LedgerType → Option ℕ → ℕ → Exec (State W) Unit
  unfolding fetch_tail_txn
  fetch_until zero t end' fetch_from = block
  fetch_until (suc fuel) t end' fetch_from =
      let go_on = (do
        row ← fetch_tail_txn t end'
        when_some row (λ i. fetch_until fuel t end' (seqno_of i.ident + 1))) in
      if within end' fetch_from then go_on else pure tt

  unfoldable pub get_txn_range :
      ℕ → LedgerValue → Option ℕ → Option ℕ → Exec (State W) (List TxnInfo)
  unfolding on_cache fetch_until
  get_txn_range fuel lv start end' = do
    t ← lift (for_value lv)
    rows ← on_cache (Cache.get_txn_range t (some (start_or_1 start)) end')
    let pos = start_or_1 start + length rows
    fetch_until fuel t end' pos
    if within end' pos
        then (do more ← on_cache (Cache.get_txn_range t (some pos) end'); pure (rows ++ more))
        else pure rows
