-- ===== src/Anchor/Handle/State.antt =====
-- The fields of `AnchorHandle`, and the code outside the repository that its methods call.
use indy_perf.Base.{ℕ, String, Bool, false, not, Option, none, some, List}
use indy_perf.Base.Texts.{is_empty}
use indy_perf.Exn.{Result, attribute_error}
use indy_perf.Exec.{Exec, raised, waiting, finally}
use indy_perf.Json.{Json, JsonText}
use indy_perf.Anchor.Terms.{Codecs}
use indy_perf.Anchor.Cache.Connection.{Cache}
use indy_perf.Anchor.Cache.Search.{Match}

-- libindy, plenum's signer, the clock and SQLite's fts3. `W` is all that they depend on and change: the
-- ledger's nodes, the network and the time.
pub record Env (W : Type 0) : Type 0 where
  -- ledger.submit_request(pool, request); none is an IndyError
  pub submit : Option ℕ → JsonText → W → Option JsonText × W
  -- ledger.build_get_txn_request(did, ledger, seqno), and the other requests
  pub build_get_txn : Option String → String → ℕ → Result JsonText
  pub build_get_nym : Option String → String → Result JsonText
  pub build_nym : Option String → String → Json → Option String → Json → Result JsonText
  pub build_validator_info : Option String → Result JsonText
  -- SimpleSigner(did, seed).sign(request)
  pub sign : String → List ℕ → Json → Result Json
  -- datetime.now()
  pub now : W → ℕ
  pub codecs : Codecs
  pub fts : Match
  -- MAX_FETCH
  pub max_fetch : ℕ

-- `asyncio.Lock`: None before `open`.
pub data Lock : Type 0 where
  absent free held : Lock

pub record State (W : Type 0) : Type 0 where
  pub anonymous : Bool
  pub cache : Option Cache
  pub did : Option String
  pub init_error : Option String
  pub pool : Option ℕ
  pub ready : Bool
  pub ledger_lock : Lock
  pub register_dids : Bool
  pub seed : List ℕ
  pub sync_lock : Lock
  pub syncing : Bool
  pub taa_accept : Option Json
  pub verkey : Option String
  pub world : W

-- bool(did)
abbrev pub is_set : Option String → Bool
is_set none = false
is_set (some s) = not (is_empty s)

module _ {W : Type 0} where
  unfoldable pub cached : {A : Type 0} → Exec Cache A → Option Cache → Exec (State W) A
  cached m none h = (raised attribute_error, h)
  cached m (some c) h = let (r, c') = m c in (r, record h { cache = some c' })

  -- A method of `self._cache`.
  unfoldable pub on_cache : {A : Type 0} → Exec Cache A → Exec (State W) A
  unfolding cached
  on_cache m h = cached m h.cache h

  unfoldable pub under_ledger_lock : {A : Type 0} → Lock → Exec (State W) A → Exec (State W) A
  under_ledger_lock absent m h = (raised attribute_error, h)
  under_ledger_lock held m h = (waiting, h)
  under_ledger_lock free m h =
      finally m (λ h'. record h' { ledger_lock = free }) (record h { ledger_lock = held })

  -- async with self._ledger_lock: released on every way out of `m`
  unfoldable pub with_ledger_lock : {A : Type 0} → Exec (State W) A → Exec (State W) A
  unfolding under_ledger_lock
  with_ledger_lock m h = under_ledger_lock h.ledger_lock m h
