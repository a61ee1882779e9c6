-- ===== src/Anchor/Terms.antt =====
-- `txn_extract_terms`: what a transaction is indexed under. Base58 is the package base58, `repr`
-- Python's str() of a list or a dict, and `parse` reads a JSON text that stands inside a value.
pub mod Verkeys
pub mod Roles
use Prim.Native.String.{◌++◌}
use indy_perf.Base.{String, Bool, true, false, List, str_eq, if◌then◌else◌}
use indy_perf.Base.Texts.{join, show}
use indy_perf.Exn.{Result, ok, err, type_error, attribute_error, ◌>>=◌}
use indy_perf.Json.{
  Json, null, bool, num, str, obj, Fields, end, truthy, dict_set, index, get, contains, texts,
  JsonText, loads,
}
use indy_perf.Anchor.Terms.Verkeys.{Base58, nym_verkeys}
use indy_perf.Anchor.Terms.Roles.{role_name}

-- What the extraction calls of other code.
pub record Codecs : Type 0 where
  pub base58 : Base58
  pub repr : Json → String
  pub parse : String → JsonText

-- "{}".format(j)
unfoldable pub py_str : Codecs → Json → String
unfolding show
py_str c null = "None"
py_str c (bool true) = "True"
py_str c (bool false) = "False"
py_str c (num n) = show n
py_str c (str s) = s
py_str c j = c.repr j

-- j == s, for a text s
abbrev pub is_text : Json → String → Bool
is_text (str t) s = str_eq t s
is_text _ s = false

-- The verkeys of a NYM: what `data` holds, or None twice.
unfoldable pub add_verkeys : Codecs → Json → Fields → Result Fields
unfolding nym_verkeys
add_verkeys c d r = do
  present ← contains d "verkey"
  if present
      then (do
        verkey ← index d "verkey"
        dest ← index d "dest"
        (short_verkey, full_verkey) ← nym_verkeys c.base58 dest verkey
        ok (dict_set "verkey" full_verkey (dict_set "short_verkey" short_verkey r)))
      else ok (dict_set "verkey" null (dict_set "short_verkey" null r))

-- The branch on "1".
unfoldable pub nym_terms : Codecs → Json → Fields → Result Fields
unfolding add_verkeys role_name
nym_terms c txn r = do
  d ← index txn "data"
  dest ← index d "dest"
  alias ← get d "alias" null
  r' ← add_verkeys c d (dict_set "alias" alias (dict_set "ident" dest r))
  role_id ← get d "role" null
  role ← role_name role_id
  ok (dict_set "data" role r')

-- json.loads of a value of a transaction, which must be a text.
unfoldable pub loads_value : Codecs → Json → Result Json
loads_value c (str s) = loads (c.parse s)
loads_value c _ = err type_error

or_empty : Json → Json
or_empty j = if truthy j then j else obj end

-- The branch on "100".
unfoldable pub attrib_terms : Codecs → Json → Fields → Result Fields
unfolding loads_value or_empty
attrib_terms c txn r = do
  d ← index txn "data"
  dest ← index d "dest"
  raw_data ← get d "raw" (str "{}")
  attribs ← loads_value c raw_data
  endpoints ← get (or_empty attribs) "endpoint" (obj end)
  endpoint ← get endpoints "endpoint" null
  ok (dict_set "alias" endpoint (dict_set "ident" dest r))

-- The branch on "101".
unfoldable pub schema_terms : Codecs → Json → Fields → Result Fields
unfolding py_str
schema_terms c txn r = do
  d ← index txn "data"
  schema ← index d "data"
  schema_name ← index schema "name"
  version ← index schema "version"
  attr_names ← index schema "attr_names"
  names ← texts attr_names
  ok (
      dict_set "data" (str (join " " names))
        (dict_set "ident" (str (py_str c schema_name ++ " " ++ py_str c version)) r))

-- j.keys()
dict_keys : Json → Result (List String)
dict_keys (obj f) = texts (obj f)
dict_keys _ = err attribute_error

-- The branch on "102".
unfoldable pub cred_def_terms : Json → Fields → Result Fields
unfolding dict_keys
cred_def_terms txn r = do
  d ← index txn "data"
  cred_def ← index d "data"
  primary ← index cred_def "primary"
  attributes ← index primary "r"
  names ← dict_keys attributes
  ok (dict_set "data" (str (join " " names)) r)

unfoldable pub typed_terms : Codecs → Json → Json → Fields → Result Fields
typed_terms c txn txntype r =
    if is_text txntype "1"
    then nym_terms c txn r
    else if is_text txntype "100"
    then attrib_terms c txn r
    else if is_text txntype "101"
    then schema_terms c txn r
    else if is_text txntype "102"
    then cred_def_terms txn r
    else ok r

-- The type, the terms and the ledger size of a transaction; None for what is missing.
unfoldable pub txn_terms : Codecs → Json → Result (Json × Fields × Json)
unfolding typed_terms nym_terms attrib_terms schema_terms cred_def_terms
txn_terms c data' = do
  ledger_size ← get data' "ledgerSize" null
  txnmeta ← get data' "txnMetadata" (obj end)
  txnid ← get txnmeta "txnId" null
  txn ← get data' "txn" (obj end)
  txntype ← get txn "type" null
  meta ← get txn "metadata" (obj end)
  sender ← get meta "from" null
  terms ← typed_terms c txn txntype (dict_set "sender" sender (dict_set "txnid" txnid end))
  ok (txntype, terms, ledger_size)

unfoldable pub txn_extract_terms : Codecs → JsonText → Result (Json × Fields × Json)
unfolding txn_terms
txn_extract_terms c txn_json = do
  data' ← loads txn_json
  if truthy data' then txn_terms c data' else ok (null, end, null)
