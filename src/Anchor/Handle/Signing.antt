-- ===== src/Anchor/Handle/Signing.antt =====
-- What `submit_request` makes of a request before it is sent, and of the reply.
use Prim.Native.String.{◌++◌ as str_append}
use indy_perf.Base.{String, Bool, ◌&&◌, ◌||◌, Option, none, some, if◌then◌else◌}
use indy_perf.Base.Texts.{is_empty}
use indy_perf.Exn.{Result, ok, err, anchor, type_error, ◌>>=◌}
use indy_perf.Json.{Json, str, obj, truthy, dict_set, index, get, JsonText, loads, dumps}
use indy_perf.Anchor.Terms.{py_str, is_text}
use indy_perf.Anchor.Handle.State.{Env, State}

-- j[k] = v
unfoldable pub set_item : Json → String → Json → Result Json
set_item (obj f) k v = ok (obj (dict_set k v f))
set_item _ k v = err type_error

-- resp.get("op", "") in ("REQNACK", "REJECT")
abbrev pub is_refusal : Json → Bool
is_refusal op = is_text op "REQNACK" || is_text op "REJECT"

module _ {W : Type 0} (env : Env W) where
  unfoldable pub refusal : Json → Result Json
  refusal resp = do
    reason ← index resp "reason"
    err (anchor (str_append "Ledger rejected transaction request: " (py_str env.codecs reason)))

  -- The reply, unless the ledger refuses the request.
  unfoldable pub accepted : Json → Result Json
  unfolding refusal
  accepted resp = do op ← get resp "op" (str ""); if is_refusal op then refusal resp else ok resp

  with_taa : Bool → Option Json → Json → Result Json
  with_taa apply_taa none req = ok req
  with_taa apply_taa (some accept) req =
      if apply_taa && truthy accept then set_item req "taaAcceptance" accept else ok req

  unfoldable pub signer : Option String → Result String
  signer none = err (anchor "Cannot sign request: no DID")
  signer (some d) = if is_empty d then err (anchor "Cannot sign request: no DID") else ok d

  -- The branch on `signed`: the request with its signature.
  unfoldable pub signed_request : Bool → JsonText → State W → Result JsonText
  unfolding with_taa set_item signer
  signed_request apply_taa req_json h = do
    did ← signer h.did
    req ← loads req_json
    req' ← with_taa apply_taa h.taa_accept req
    signature ← env.sign did h.seed req'
    signed ← set_item req' "signature" signature
    ok (dumps signed)
