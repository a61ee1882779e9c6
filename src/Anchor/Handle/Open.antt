-- ===== src/Anchor/Handle/Open.antt =====
-- Opening and closing: `_open_pool`, `open`, `close`.
pub mod Keeps
pub mod Outcomes
use indy_perf.Base.{
  ℕ, suc, String, Bool, true, false, Option, none, some, List, [], ◌∷◌, str_eq, if◌then◌else◌,
}
use indy_perf.Exn.{Exn, anchor, indy_error, is_anchor, other_code}
use indy_perf.Exec.{
  Exec, Outcome, returned, raised, pure, raise, lift, gets, modify, catch, ◌>>=◌, ◌>>◌,
}
use indy_perf.Anchor.Seeds.{Keys, bytes, seed_to_did}
use indy_perf.Anchor.Genesis.{Genesis, Download, resolve_genesis_file}
use indy_perf.Anchor.Cache.Schema.{Tables}
use indy_perf.Anchor.Cache.Connection.{init, open_cache, close}
use indy_perf.Anchor.Handle.State.{Env, State, free, on_cache}
use indy_perf.Anchor.Handle.Agreement.{AgreementEnv, register_txn_agreement}

-- libindy's pool, the environment's settings, and the globals of the genesis file, which stand in the
-- world. A call of libindy gives none where it raises an IndyError.
pub record Boot (W : Type 0) : Type 0 where
  pub env : Env W
  pub agreement : AgreementEnv W
  pub keys : Keys
  pub download : Download
  pub genesis : W → Genesis
  pub put_genesis : Genesis → W → W
  -- pool.set_protocol_version and the names of pool.list_pools
  pub set_protocol_version : W → Option (Unit {0}) × W
  pub list_pools : W → Option (List String) × W
  pub delete_pool : String → W → Option (Unit {0}) × W
  -- with the name of the genesis file
  pub create_pool : String → Option String → W → Option (Unit {0}) × W
  pub open_pool : String → W → Option ℕ × W
  -- pool.close_pool_ledger
  pub close_pool : Option ℕ → W → Option (Unit {0}) × W
  -- LEDGER_CACHE_PATH, and the database files that are there
  pub cache_path : Option String
  pub disk : W → List (String × Tables)

abbrev pool_name : String
pool_name = "nodepool"

mem : String → List String → Bool
mem s [] = false
mem s (t ∷ l) = if str_eq t s then true else mem s l

module _ {W : Type 0} (b : Boot W) where
  called : {A : Type 0} → String → State W → Option A × W → Outcome A × State W
  called m h (none, w) = (raised (anchor m), record h { world = w })
  called m h (some x, w) = (returned x, record h { world = w })

  -- A call of libindy, whose IndyError becomes an AnchorException.
  call : {A : Type 0} → String → (W → Option A × W) → Exec (State W) A
  unfolding called
  call m f h = called m h (f h.world)

  genesis_at : State W → Outcome (Option String) × Genesis → Outcome (Option String) × State W
  genesis_at h (r, g) = (r, record h { world = b.put_genesis g h.world })

  genesis_file : Exec (State W) (Option String)
  unfolding genesis_at resolve_genesis_file
  genesis_file h = genesis_at h (resolve_genesis_file b.download (b.genesis h.world))

  unfoldable pub open_pool : Exec (State W) Unit
  unfolding call genesis_file mem
  open_pool = do
    modify (λ h. record h { pool = none })
    call "Error setting pool protocol version" b.set_protocol_version
    names ← call "Error deleting existing pool configuration" b.list_pools
    (if mem pool_name names
        then call "Error deleting existing pool configuration" (b.delete_pool pool_name)
        else pure tt)
    file ← genesis_file
    call "Error creating pool configuration" (b.create_pool pool_name file)
    handle ← call "Error opening pool ledger connection" (b.open_pool pool_name)
    modify (λ h. record h { pool = some handle })

  -- An AnchorException leaves its note in `_init_error`.
  noting : String → Exec (State W) Unit → Exec (State W) Unit
  noting note m = catch m (λ e. do
    (if is_anchor e then modify (λ h. record h { init_error = some note }) else pure tt)
    raise e)

  has_pool : Option ℕ → Bool
  has_pool (some (suc n)) = true
  has_pool _ = false

  -- A cache that was open before has written the files since.
  files_now : State W → List (String × Tables)
  files_now h = elim h.cache [ none ↦ b.disk h.world | some c ↦ c.disk ]

  new_cache : Exec (State W) Unit
  unfolding files_now init on_cache open_cache
  new_cache = do
    modify (λ h. record h { cache = some (init b.cache_path (files_now h)) })
    on_cache open_cache

  connect : Exec (State W) Unit
  unfolding noting has_pool open_pool
  connect = do
    there ← gets (λ h. has_pool h.pool)
    if there then pure tt else noting "Error initializing pool ledger" open_pool

  log_in : Exec (State W) Unit
  unfolding noting seed_to_did register_txn_agreement
  log_in = do
    seed ← gets (λ h. h.seed)
    (did, verkey) ← lift (seed_to_did b.keys (bytes seed))
    modify (λ h. record h { did = some did; verkey = some verkey })
    noting "Error registering transaction agreement" (register_txn_agreement b.env b.agreement)

  -- Every exception leaves `open` as one AnchorException.
  wrapped : Exn → Exec (State W) Unit
  wrapped e = raise (anchor "Initialization error")

  -- The `try` of `open`.
  opening : Exec (State W) Unit
  unfolding new_cache connect log_in
  opening = do
    new_cache
    connect
    anonymous ← gets (λ h. h.anonymous)
    (if anonymous then pure tt else log_in)
    modify (λ h. record h { ledger_lock = free; sync_lock = free; ready = true })

  -- `open`, up to the task that it starts, `init_cache`.
  unfoldable pub open_handle : Exec (State W) Unit
  unfolding opening wrapped
  open_handle = catch opening wrapped

  -- The IndyError of pool.close_pool_ledger is not caught.
  closed_pool : State W → Option (Unit {0}) × W → Outcome Unit × State W
  closed_pool h (none, w) = (raised (indy_error other_code), record h { world = w })
  closed_pool h (some x, w) = (returned tt, record h { world = w; pool = none })

  unfoldable pub close_handle : Exec (State W) Unit
  unfolding closed_pool has_pool on_cache close
  close_handle = do
    modify (λ h. record h { ready = false })
    there ← gets (λ h. has_pool h.pool)
    (if there then (λ h. closed_pool h (b.close_pool h.pool h.world)) else pure tt)
    on_cache close
