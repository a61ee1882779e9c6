-- ===== src/Anchor/Handle/Sync.antt =====
-- Keeping the cache current: `sync_ledger_cache` and the tasks and searches that call it.
pub mod Keeps
pub mod Ends
pub mod Offline
use indy_perf.Base.{
  ℕ, zero, suc, ◌+◌, String, Bool, true, false, not, ◌&&◌, Option, none, some, List, [], ◌∷◌, ltb,
  leb, str_eq, if◌then◌else◌,
}
use indy_perf.Exn.{Exn, Result, ok, err, attribute_error, timeout_error, is_anchor}
use indy_perf.Exec.{
  Exec, returned, raised, waiting, block, pure, raise, lift, catch, finally, when_some, ◌>>=◌, ◌>>◌,
}
use indy_perf.Json.{Json, index, json_eq, JsonText, loads}
use indy_perf.Anchor.Ident.{int}
use indy_perf.Anchor.LedgerType.{LedgerType, pool, domain, config, LedgerValue, member, for_value}
use indy_perf.Anchor.Cache
use indy_perf.Anchor.Cache.Connection.{reset}
use indy_perf.Anchor.Cache.Schema.{TxnInfo}
use indy_perf.Anchor.Handle.State.{Env, State, Lock, absent, free, held, on_cache}
use indy_perf.Anchor.Handle.Fetch.{get_txn, fetch_tail_txn}

-- One round of `compare_txns`: txnA[k] != txnB[k], and the rest of the keys if they are equal.
unfoldable pub same_at : List String → Json → Json → Result Bool
unfolding json_eq
same_at [] a b = ok true
same_at (k ∷ ks) a b =
    let rest = same_at ks a b in
    elim (index a k) [
      | err e ↦ err e
      | ok u ↦ elim (index b k) [ err e ↦ err e | ok v ↦ if json_eq u v then rest else ok false ]
    ]

unfoldable pub compare_txns : Json → Json → Result Bool
unfolding same_at
compare_txns = same_at ("txn" ∷ "txnMetadata" ∷ "reqSignature" ∷ [])

-- json.loads of both, and the comparison
compare_texts : JsonText → JsonText → Result Bool
compare_texts a b = elim (loads a) [
  | err e ↦ err e
  | ok u ↦ elim (loads b) [ err e ↦ err e | ok v ↦ compare_txns u v ]
]

-- `not cache_txn or not txn or not self.compare_txns(…)`
unfoldable pub is_stale : Option TxnInfo → Option TxnInfo → Result Bool
unfolding compare_texts compare_txns
is_stale (some c) (some t) = elim (compare_texts c.value t.value) [
  | err e ↦ err e
  | ok same ↦ ok (not same)
]
is_stale _ _ = ok true

-- for ledger_type in LedgerType
abbrev pub ledger_types : List LedgerType
ledger_types = pool ∷ domain ∷ config ∷ []

module _ {W : Type 0} (env : Env W) where
  reset_if : Bool → Exec (State W) Unit
  unfolding on_cache
  reset_if true = on_cache reset
  reset_if false = pure tt

  -- The cached transaction at `latest` against the ledger's: the cache is dropped if they differ.
  unfoldable pub check_latest : LedgerType → Option ℕ → Exec (State W) Unit
  unfolding reset_if on_cache is_stale get_txn
  check_latest t none = pure tt
  check_latest t (some latest) = do
    txn ← get_txn env (member t) (int latest) false false
    cache_txn ← on_cache (Cache.get_txn t (int latest))
    stale ← lift (is_stale cache_txn txn)
    reset_if stale

  -- `MAX_FETCH > 0 and fetched >= MAX_FETCH`
  abbrev pub is_full : ℕ → Bool
  is_full fetched = ltb 0 env.max_fetch && leb env.max_fetch fetched

  -- `while not done`. The fuel bounds the rounds; without it the task is still fetching.
  unfoldable pub pull : ℕ → LedgerType → ℕ → Exec (State W) Unit
  unfolding fetch_tail_txn
  pull zero t fetched = block
  pull (suc fuel) t fetched = do
    row ← fetch_tail_txn env t none
    when_some row (λ i. if is_full (fetched + 1) then pure tt else pull fuel t (fetched + 1))

  -- The `try` of `sync_ledger_cache`: whether it ended with the loop.
  sync_body : ℕ → LedgerType → Exec (State W) Bool
  unfolding on_cache check_latest pull
  sync_body fuel t =
      catch
        (do
          latest ← on_cache (Cache.get_latest_seqno t)
          check_latest t latest
          pull fuel t 0
          pure true)
        (λ e. if is_anchor e then pure false else raise e)

  released : State W → State W
  released h = record h { sync_lock = free; syncing = false }

  sync_at : Lock → ℕ → LedgerType → Bool → Exec (State W) Bool
  sync_at absent fuel t wait h = (raised attribute_error, h)
  sync_at held fuel t true h = (waiting, h)
  sync_at held fuel t false h = (returned false, h)
  sync_at free fuel t wait h =
      finally (sync_body fuel t) released (record h { sync_lock = held; syncing = true })

  -- Without `wait` the lock is given up after 10 ms: here, if another task holds it.
  unfoldable pub sync_ledger_cache : ℕ → LedgerType → Bool → Exec (State W) Bool
  unfolding sync_at sync_body released
  sync_ledger_cache fuel t wait h = sync_at h.sync_lock fuel t wait h

  timed_out : Exn → Exec (State W) Unit
  timed_out timeout_error = pure tt
  timed_out e = raise e

  unfoldable pub update_ledger_cache : ℕ → LedgerType → Exec (State W) Unit
  unfolding sync_ledger_cache timed_out
  update_ledger_cache fuel t = catch (do sync_ledger_cache fuel t false; pure tt) timed_out

  sync_all : ℕ → List LedgerType → Exec (State W) Unit
  unfolding sync_ledger_cache
  sync_all fuel [] = pure tt
  sync_all fuel (t ∷ ts) = do sync_ledger_cache fuel t true; sync_all fuel ts

  -- `init_cache`, up to the task that it starts, `maintain_cache`.
  unfoldable pub init_cache : ℕ → Exec (State W) Unit
  unfolding sync_all
  init_cache fuel = sync_all fuel ledger_types

  update_all : ℕ → List LedgerType → Exec (State W) Unit
  unfolding update_ledger_cache
  update_all fuel [] = pure tt
  update_all fuel (t ∷ ts) = do update_ledger_cache fuel t; update_all fuel ts

  -- One round of the endless loop of `maintain_cache`.
  unfoldable pub maintain_round : ℕ → Exec (State W) Unit
  unfolding update_all
  maintain_round fuel = update_all fuel ledger_types

  reset_at : Lock → Exec (State W) Unit
  unfolding on_cache
  reset_at absent h = (raised attribute_error, h)
  reset_at held h = (waiting, h)
  reset_at free h =
      finally (on_cache reset) (λ h'. record h' { sync_lock = free })
        (record h { sync_lock = held })

  -- async with self._sync_lock
  unfoldable pub reset_ledger_cache : Exec (State W) Unit
  unfolding reset_at
  reset_ledger_cache h = reset_at h.sync_lock h

  -- `if txn_type == "": txn_type = None`
  type_or_none : Option String → Option String
  type_or_none none = none
  type_or_none (some s) = if str_eq s "" then none else some s

  unfoldable pub get_txn_search :
      ℕ
      → LedgerValue
      → Option String
      → Option String
      → Option ℕ
      → ℕ
      → Exec (State W) (List TxnInfo × Option ℕ)
  unfolding on_cache sync_ledger_cache type_or_none
  get_txn_search fuel lv q txn_type limit offset = do
    t ← lift (for_value lv)
    sync_ledger_cache fuel t false
    on_cache (Cache.get_txn_search env.fts t q (type_or_none txn_type) limit offset true)
