-- ===== src/Anchor/Handle/Requests.antt =====
-- `submit_request` and the methods that ask the ledger without the cache.
pub mod Refusals
use indy_perf.Base.{String, Bool, true, false, ◌&&◌, Option, none, some, if◌then◌else◌}
use indy_perf.Base.Texts.{is_empty}
use indy_perf.Exn.{Result, ok, err, anchor, not_ready, type_error}
use indy_perf.Exec.{Exec, Outcome, returned, raised, pure, raise, lift, gets, ◌>>=◌, ◌>>◌}
use indy_perf.Json.{Json, str, obj, end, truthy, index, JsonText, loads}
use indy_perf.Anchor.Handle.State.{Env, State, is_set}
use indy_perf.Anchor.Handle.Signing.{accepted, signed_request}

-- The parts of `public_config`.
pub record PublicConfig : Type 0 where
  pub anonymous : Bool
  pub init_error : Option String
  pub register_new_dids : Bool
  pub ready : Bool
  pub syncing : Bool

unfoldable pub public_config : {W : Type 0} → State W → PublicConfig
public_config h = record {
  anonymous = h.anonymous;
  init_error = h.init_error;
  register_new_dids = h.register_dids;
  ready = h.ready;
  syncing = h.syncing;
}

module _ {W : Type 0} (env : Env W) where
  unfoldable pub sent : State W → Option JsonText × W → Outcome JsonText × State W
  sent h (none, w) =
      (raised (anchor "Error submitting ledger transaction request"), record h { world = w })
  sent h (some t, w) = (returned t, record h { world = w })

  -- ledger.submit_request, with its IndyError caught
  unfoldable pub send : JsonText → Exec (State W) JsonText
  send req h = sent h (env.submit h.pool req h.world)

  unfoldable pub prepared : JsonText → Bool → Bool → State W → Result JsonText
  prepared req_json signed apply_taa h =
      if signed then signed_request env apply_taa req_json h else ok req_json

  unfoldable pub submit_request : JsonText → Bool → Bool → Exec (State W) Json
  unfolding sent send prepared signed_request accepted
  submit_request req_json signed apply_taa = do
    r ← gets (prepared req_json signed apply_taa)
    req ← lift r
    rv_json ← send req
    resp ← lift (loads rv_json)
    lift (accepted env resp)

  -- if not self.ready: raise NotReadyException()
  abbrev pub require_ready : Exec (State W) Unit
  require_ready = do ready ← gets (λ h. h.ready); if ready then pure tt else raise not_ready

  -- if not self.ready or not self.did: raise NotReadyException()
  abbrev pub require_did : Exec (State W) Unit
  require_did = do
    fit ← gets (λ h. h.ready && is_set h.did)
    if fit then pure tt else raise not_ready

  -- json.loads of a text inside a reply
  nested : Json → Result Json
  nested (str s) = loads (env.codecs.parse s)
  nested _ = err type_error

  -- The nym; an empty dict if the ledger has none.
  unfoldable pub get_nym : String → Exec (State W) Json
  unfolding submit_request nested
  get_nym did = do
    require_ready
    own ← gets (λ h. h.did)
    req ← lift (env.build_get_nym own did)
    response ← submit_request req true false
    result ← lift (index response "result_4")
    data_json ← lift (index result "data")
    if truthy data_json then lift (nested data_json) else pure (obj end)

  -- `alias or None`
  or_none : Option String → Option String
  or_none none = none
  or_none (some s) = if is_empty s then none else some s

  unfoldable pub register_did : String → Json → Option String → Json → Exec (State W) Unit
  unfolding get_nym submit_request or_none
  register_did did verkey alias role = do
    require_did
    nym ← get_nym did
    own ← gets (λ h. h.did)
    if truthy nym then pure tt else (do
      req ← lift (env.build_nym own did verkey (or_none alias) role)
      submit_request req true true
      pure tt)
