-- ===== src/Anchor/Handle/Agreement.antt =====
-- `_register_txn_agreement`: the acceptance mechanisms (AML) and the author agreement (TAA) of the two
-- configuration files are published, unless the ledger has their version.
pub mod Keeps
pub mod NoText
use Prim.Native.String.{◌++◌ as str_append}
use indy_perf.Base.{
  ℕ, String, Bool, true, false, not, ◌&&◌, Option, none, some, List, [], ◌∷◌, if◌then◌else◌,
}
use indy_perf.Base.Texts.{is_empty, uncons}
use indy_perf.Exn.{Result, ok, err, anchor, index_error, type_error, attribute_error}
use indy_perf.Exec.{Exec, pure, lift, gets, modify, ◌>>=◌, ◌>>◌}
use indy_perf.Json.{
  Json, null, num, str, arr, obj, cons, end, field, truthy, json_eq, index, get, contains, JsonText,
  dumped, garbage, loads, dumps,
}
use indy_perf.Anchor.Handle.State.{Env, State}
use indy_perf.Anchor.Handle.Requests.{submit_request}

-- The files, the requests, the hash and the clock that are used here.
pub record AgreementEnv (W : Type 0) : Type 0 where
  -- what the file at the path holds; none if there is no path or no file
  pub aml_file : Option JsonText
  pub taa_file : Option JsonText
  pub build_get_aml : Option String → Result JsonText
  -- did, aml, version, context
  pub build_aml : Option String → JsonText → Json → Json → Result JsonText
  pub build_get_taa : Option String → Result JsonText
  -- did, text, version, ratification_ts
  pub build_taa : Option String → Json → Json → Json → Result JsonText
  -- sha256(text.encode("utf-8")).digest().hex()
  pub sha256 : String → String
  -- midnight of today
  pub today : W → ℕ

-- A file that is empty is not read.
unfoldable pub read_config : Option JsonText → Result Json
read_config none = ok null
read_config (some (dumped j)) = ok j
read_config (some (garbage s)) = if is_empty s then ok null else loads (garbage s)

-- a and b, for a dict to be given: an exception if the key is missing where it is read
has_keys : Json → List String → Result Bool
has_keys j [] = ok true
has_keys j (k ∷ ks) =
    let rest = has_keys j ks in
    elim (contains j k) [ err e ↦ err e | ok b ↦ if b then rest else ok false ]

-- `if config and ("k" not in config or …): raise`
unfoldable pub validated : String → List String → Json → Result Unit
unfolding has_keys
validated message ks j =
    if truthy j
    then elim (has_keys j ks) [ err e ↦ err e | ok b ↦ if b then ok tt else err (anchor message) ]
    else ok tt

-- The log lines about the TAA read its text first.
unfoldable pub log_taa : Json → Result Unit
log_taa j = if truthy j then elim (index j "text") [ err e ↦ err e | ok t ↦ ok tt ] else ok tt

-- a + b, for two texts
add_texts : Json → Json → Result Json
add_texts (str a) (str b) = ok (str (str_append a b))
add_texts _ _ = err type_error

-- next(iter(methods))
first_item : Json → Result Json
first_item (obj (field k v f)) = ok (str k)
first_item (arr (cons j l)) = ok j
first_item (str s) = elim (uncons s) [ none ↦ err index_error | some (c, r) ↦ ok (str c) ]
first_item _ = err type_error

encode_text : Json → Result String
encode_text (str s) = ok s
encode_text _ = err attribute_error

module _ {W : Type 0} (env : Env W) (a : AgreementEnv W) where
  -- response["result_4"]["data"] of a signed request
  published : (Option String → Result JsonText) → Exec (State W) Json
  unfolding submit_request
  published build = do
    did ← gets (λ h. h.did)
    req ← lift (build did)
    response ← submit_request env req true false
    result ← lift (index response "result_4")
    lift (index result "data")

  -- `not found or found["version"] != config["version"]`
  unfoldable pub is_outdated : Json → Json → Exec (State W) Bool
  unfolding json_eq
  is_outdated found config =
      if truthy found
      then (do
        old ← lift (index found "version")
        new ← lift (index config "version")
        pure (not (json_eq old new)))
      else pure true

  -- `found and found[k]`
  and_field : Json → String → Exec (State W) Json
  and_field found k = if truthy found then lift (index found k) else pure found

  publish_aml : Json → Exec (State W) Json
  unfolding submit_request
  publish_aml config = do
    aml ← lift (index config "aml")
    version ← lift (index config "version")
    context ← lift (get config "context" null)
    did ← gets (λ h. h.did)
    req ← lift (a.build_aml did (dumps aml) version context)
    submit_request env req true false
    pure aml

  -- The methods that are in force after the AML part.
  unfoldable pub aml_methods : Json → Exec (State W) Json
  unfolding published is_outdated and_field publish_aml
  aml_methods config = do
    found ← published a.build_get_aml
    methods ← and_field found "aml"
    if truthy config
        then (do
          outdated ← is_outdated found config
          if outdated then publish_aml config else pure methods)
        else pure methods

  -- version + text of an agreement, or its text if that is blank
  plaintext_of : Json → Exec (State W) Json
  unfolding add_texts
  plaintext_of j = do
    text ← lift (index j "text")
    if truthy text
        then (do version ← lift (index j "version"); lift (add_texts version text))
        else pure text

  publish_taa : Json → Exec (State W) Json
  unfolding submit_request plaintext_of
  publish_taa config = do
    text ← lift (index config "text")
    version ← lift (index config "version")
    ratification_ts ← lift (index config "ratification_ts")
    did ← gets (λ h. h.did)
    req ← lift (a.build_taa did text version ratification_ts)
    submit_request env req true false
    plaintext_of config

  -- The plaintext of the agreement in force after the TAA part.
  unfoldable pub taa_plaintext : Json → Exec (State W) Json
  unfolding published is_outdated plaintext_of publish_taa
  taa_plaintext config = do
    found ← published a.build_get_taa
    plaintext ← if truthy found then plaintext_of found else pure found
    if truthy config
        then (do
          outdated ← is_outdated found config
          if outdated then publish_taa config else pure plaintext)
        else pure plaintext

  accept : Json → Json → Exec (State W) Unit
  unfolding first_item encode_text
  accept methods plaintext = do
    rough_time ← gets (λ h. a.today h.world)
    text ← lift (encode_text plaintext)
    mechanism ← lift (first_item methods)
    let acceptance : Json = obj (
        field "taaDigest" (str (a.sha256 text))
          (field "mechanism" mechanism (field "time" (num rough_time) end)))
    modify (λ h. record h { taa_accept = some acceptance })

  unfoldable pub register_txn_agreement : Exec (State W) Unit
  unfolding read_config log_taa validated aml_methods taa_plaintext accept
  register_txn_agreement = do
    aml_config ← lift (read_config a.aml_file)
    taa_config ← lift (read_config a.taa_file)
    lift (log_taa taa_config)
    lift (validated "Invalid AML configuration" ("version" ∷ "aml" ∷ []) aml_config)
    lift (
        validated "Invalid TAA configuration" ("version" ∷ "text" ∷ "ratification_ts" ∷ [])
          taa_config)
    methods ← aml_methods aml_config
    plaintext ← taa_plaintext taa_config
    if truthy methods && truthy plaintext then accept methods plaintext else pure tt
