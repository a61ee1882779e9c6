-- ===== src/Scripts/CredDef.antt =====
-- von-network/cli-scripts/cred_def.py. `encode` is the text
-- that json.dumps makes of a value.
pub mod Blanks
use Prim.Native.Char.{code}
use Prim.Native.String.{◌++◌ as str_append}
use indy_perf.Base.{
  ℕ, String, Bool, false, ◌||◌, ◌&&◌, none, List, [], ◌∷◌, ◌==◌, leb, if◌then◌else◌,
}
use indy_perf.Base.Texts.{show, split}
use indy_perf.Base.Integers.{ℤ, pos, negsuc}
use indy_perf.Environ.{Environ, or_default, int_text}
use indy_perf.Scripts.Storage.{wallet_texts, started}
use indy_perf.Exn as Exn
use indy_perf.Exn.{Result, ok}
use indy_perf.Json.{
  Json, bool, num, str, arr, obj, Items, nil, cons, field, end, index, JsonText, loads, dumps,
}
use indy_perf.Scripts.Calls.{
  set_protocol_version, open_pool_ledger, open_wallet, issuer_create_and_store_credential_def,
}
use indy_perf.Scripts.Program.{
  Script, ◌>>=◌, ◌>>◌, call, of_result, print_log, print, pprint, say, printed_json, ret, text,
  write_to, reporting,
}

abbrev pub cred_def_config : JsonText
cred_def_config = dumps (obj (field "support_revocation" (bool false) end))

pub record Settings : Type 0 where
  pub pool_name : String
  pub wallet_config : JsonText
  pub wallet_credentials : JsonText
  pub author_did : String
  pub seq_no : Json
  pub schema_name : String
  pub schema_version : String
  pub schema_attributes : Items
  pub cred_def_tag : String
  pub cred_def_type : String

attributes : List String → Items
attributes [] = nil
attributes (a ∷ l) = cons (str a) (attributes l)

abbrev default_attributes : String
default_attributes =
    "corp_num,legal_name,permit_id,permit_type,permit_issued_date,permit_status,effective_date"

-- The number as JSON: `negative n` stands for -(n + 1), which the JSON values here do not have.
number : (ℕ → Json) → ℤ → Json
number negative (pos n) = num n
number negative (negsuc n) = negative n

-- What the module reads from the environment when it is loaded.
unfoldable pub settings : (ℕ → Json) → (String → JsonText) → Environ → Result Settings
unfolding attributes number
settings negative parse env = Exn.◌>>=◌ (wallet_texts parse env) (λ w.
    Exn.◌>>=◌ (int_text (or_default (env "schemaId") "10")) (λ seq_no. ok (record {
      pool_name = or_default (env "poolName") "local_pool";
      wallet_config = w.config;
      wallet_credentials = w.credentials;
      author_did = or_default (env "authorDid") "VePGZfzvcgmT3GTdYgpDiT";
      seq_no = number negative seq_no;
      schema_name = or_default (env "schemaName") "ian-permit.ian-co";
      schema_version = or_default (env "schemaVersion") "1.0.0";
      schema_attributes =
          attributes (split b',' (or_default (env "schemaAttributes") default_attributes));
      cred_def_tag = or_default (env "tag") "tag";
      cred_def_type = or_default (env "type") "CL";
    })))

-- c in string.whitespace: tab, line feed, vertical tab, form feed, carriage return and space
unfoldable pub is_whitespace : ℕ → Bool
is_whitespace c = leb 9 c && leb c 13 || c == 32

-- s.translate({ord(c): None for c in string.whitespace})
unfoldable pub without_whitespace : String → String
without_whitespace String.[] = String.[]
without_whitespace (String.◌∷◌ c s) =
    let rest = without_whitespace s in if is_whitespace (code c) then rest else String.◌∷◌ c rest

-- author_did + ':2:' + schema_name + ':' + schema_version
unfoldable pub schema_id : Settings → String
schema_id s =
    str_append s.author_did
      (str_append ":2:" (str_append s.schema_name (str_append ":" s.schema_version)))

unfoldable pub schema_data : Settings → Json
unfolding schema_id
schema_data s = obj (
    field "id" (str (schema_id s)) (
      field "seqNo" s.seq_no (
        field "name" (str s.schema_name) (
          field "version" (str s.schema_version)
            (field "ver" (str "1.0") (field "attrNames" (arr s.schema_attributes) end))))))

unfoldable pub schema : Settings → Json
unfolding schema_data
schema s =
    obj
      (field "seqNo" s.seq_no (field "dest" (str s.author_did) (field "data" (schema_data s) end)))

module _ {F : Type 0} (encode : Json → String) (s : Settings) where
  -- cred_def['value']['primary'], as it is written
  unfoldable pub write_primary : String → Json → Script F Unit
  write_primary cred_def_primary_file cred_def = do
    value ← of_result (index cred_def "value")
    cred_def_primary ← of_result (index value "primary")
    let cred_def_primary_output = without_whitespace (encode cred_def_primary)
    print cred_def_primary_output
    write_to cred_def_primary_file (text cred_def_primary_output)

  -- What follows the call.
  unfoldable pub report_definition : String → JsonText → Script F Unit
  unfolding write_primary
  report_definition cred_def_primary_file cred_def_json = do
    print_log "Credential definition: " ""
    cred_def ← of_result (loads cred_def_json)
    pprint cred_def
    print_log "\nCred def primary: " ""
    write_primary cred_def_primary_file cred_def

  unfoldable pub steps : String → Script F Unit
  unfolding schema
  steps cred_def_primary_file = do
    print_log (str_append "Open Pool Ledger: " s.pool_name) ""
    call (set_protocol_version 2)
    pool_handle ← call (open_pool_ledger s.pool_name none)
    print_log "\n4. Open wallet and get handle from libindy\n" ""
    say (printed_json "" s.wallet_config) (ret tt)
    say (printed_json "" s.wallet_credentials) (ret tt)
    wallet_handle ← call (open_wallet s.wallet_config s.wallet_credentials)
    print (show wallet_handle)
    print_log "\n9. Build the SCHEMA request to add new schema to the ledger as a Steward\n" ""
    pprint (schema s)
    print_log
        "\n11. Creating and storing CRED DEFINITION using anoncreds as Trust Anchor, for the given Schema\n"
        ""
    (cred_def_id, cred_def_json) ← call (
        issuer_create_and_store_credential_def wallet_handle s.author_did (dumps (schema_data s))
          s.cred_def_tag s.cred_def_type cred_def_config)
    report_definition cred_def_primary_file cred_def_json

  unfoldable pub write_schema_and_cred_def : String → Script F Unit
  write_schema_and_cred_def cred_def_primary_file = reporting (steps cred_def_primary_file)

-- The script: `result` is what the plugin of the wallet storage returns.
unfoldable pub cred_def :
    {F : Type 0} (encode : Json → String) (negative : ℕ → Json) (parse : String → JsonText)
    (env : Environ) (result : ℤ)
    → Script F Unit
cred_def encode negative parse env result = do
  s ← of_result (settings negative parse env)
  started result (write_schema_and_cred_def encode s "/tmp/primarykey.txt")
