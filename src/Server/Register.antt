-- ===== src/Server/Register.antt =====
-- `register`: a new DID is written to the ledger, from a seed or from a DID and a verkey.
pub mod Padding
use Prim.Native.String.{◌++◌}
use indy_perf.Base.{
  ℕ, zero, suc, ◌-◌, String, Bool, true, false, not, ◌||◌, Option, none, some, List, [], ◌∷◌,
  length, ◌==◌, leb, str_eq, if◌then◌else◌,
}
use indy_perf.Base.Texts.{is_empty}
use indy_perf.Exn.{Result, ok, err}
use indy_perf.Exec.{Exec, pure, lift, gets, catch, ◌>>=◌, ◌>>◌}
use indy_perf.Json.{Json, null, str, obj, end, field}
use indy_perf.Anchor.Seeds as Seeds
use indy_perf.Anchor.Seeds.{Keys, codes, ascii, seed_to_did}
use indy_perf.Anchor.Handle.State.{Env, State}
use indy_perf.Anchor.Handle.Requests.{register_did}
use indy_perf.Server.Responses.{
  Response, json_response, text_response, not_ready_response, on_not_ready,
}

-- The members of the JSON body: texts, or missing. What libindy makes of other values is not modelled.
pub record Body : Type 0 where
  pub seed : Option String
  pub did : Option String
  pub verkey : Option String
  pub alias : Option String
  pub role : Option String

-- body.get("role", "ENDORSER"), and the old name of the role
unfoldable pub role_of : Option String → String
role_of none = "ENDORSER"
role_of (some r) = if str_eq r "TRUST_ANCHOR" then "ENDORSER" else r

-- seed.endswith("=")
unfoldable pub ends_with_equals : List ℕ → Bool
ends_with_equals [] = false
ends_with_equals (c ∷ []) = c == b'='
ends_with_equals (c ∷ d ∷ l) = ends_with_equals (d ∷ l)

-- "0" * n
unfoldable pub zeroes : ℕ → String
zeroes zero = ""
zeroes (suc n) = String.◌∷◌ "0" (zeroes n)

-- seed += "0" * (32 - len(seed)); a text that is longer stays as it is.
unfoldable pub padded : String → String
unfolding zeroes codes
padded s = s ++ zeroes (32 - length (codes s))

-- What the checks of the seed come to: an answer, or a seed to go on with.
pub data Checked : Type 0 where
  answer : Response → Checked
  seed_text : String → Checked
  no_seed : Checked

-- A seed in base 64 has to hold 32 characters.
unfoldable pub check_base64 : String → Result (List ℕ) → Result Checked
unfolding padded
check_base64 s (err e) = err e
check_base64 s (ok testseed) =
    if length testseed == 32
    then ok (seed_text (padded s))
    else ok (answer (text_response 400 "Seed must be 32 characters long."))

-- base64.b64decode(seed).decode("ascii")
decoded : Keys → String → Result (List ℕ)
decoded k s = elim (k.b64decode s) [ err e ↦ err e | ok b ↦ ascii b ]

unfoldable pub check_seed : Keys → String → Result Checked
unfolding codes ends_with_equals padded check_base64 decoded
check_seed k s =
    if ends_with_equals (codes s)
    then check_base64 s (decoded k s)
    else if leb (length (codes s)) 32
    then ok (seed_text (padded s))
    else ok (answer (text_response 400 "Seed must be between 0 and 32 characters long."))

-- `not did`
unfoldable pub missing : Option String → Bool
missing none = true
missing (some s) = is_empty s

or_empty : Option String → String
or_empty none = ""
or_empty (some s) = s

needs_both : Response
needs_both =
    text_response 400
      "Either seed the seed parameter or the did and verkey parameters must be provided."

unfoldable pub checked : Keys → Body → Result Checked
unfolding missing check_seed needs_both or_empty
checked k b =
    if not (missing b.seed)
    then check_seed k (or_empty b.seed)
    else if missing b.did || missing b.verkey
    then ok (answer needs_both)
    else ok no_seed

module _ {W : Type 0} (env : Env W) (k : Keys) where
  -- The DID and the verkey to register: those of the seed where one of them is missing.
  unfoldable pub identity : Body → Option String → Result (String × String)
  unfolding missing seed_to_did or_empty
  identity b none = ok (or_empty b.did, or_empty b.verkey)
  identity b (some seed) =
      if missing b.did || missing b.verkey
      then elim (seed_to_did k (Seeds.text seed)) [
        | err e ↦ err e
        | ok (auto_did, verkey) ↦ ok (if missing b.did then auto_did else or_empty b.did, verkey)
      ]
      else ok (or_empty b.did, or_empty b.verkey)

  seed_json : Option String → Json
  seed_json none = null
  seed_json (some s) = str s

  -- The answer names the seed, the DID and the verkey.
  unfoldable pub registered : Body → Option String → Exec (State W) Response
  unfolding identity register_did on_not_ready seed_json role_of
  registered b seed = do
    (did, verkey) ← lift (identity b seed)
    let done : Response = json_response 200 (
        obj
          (field "seed" (seed_json seed) (field "did" (str did) (field "verkey" (str verkey) end))))
    catch (do register_did env did (str verkey) b.alias (str (role_of b.role)); pure done)
        on_not_ready

  go_on : Body → Checked → Exec (State W) Response
  unfolding registered
  go_on b (answer r) = pure r
  go_on b (seed_text s) = registered b (some s)
  go_on b no_seed = registered b b.seed

  -- A body that is empty is none.
  with_body : Option Body → Exec (State W) Response
  unfolding checked go_on
  with_body none = pure (text_response 400 "Expected json request body")
  with_body (some b) = do c ← lift (checked k b); go_on b c

  unfoldable pub register : Option Body → Exec (State W) Response
  unfolding with_body
  register body = do
    ready ← gets (λ h. h.ready)
    if ready then with_body body else pure not_ready_response
