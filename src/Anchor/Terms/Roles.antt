-- ===== src/Anchor/Terms/Roles.antt =====
-- `INDY_ROLE_TYPES` and `INDY_TXN_TYPES`, and their lookups.
use indy_perf.Base.{String, Option, none, some, List, [], ◌∷◌, str_eq, if◌then◌else◌}
use indy_perf.Exn.{Result, ok, err, type_error}
use indy_perf.Json.{Json, null, str, arr, obj}

abbrev pub indy_role_types : List (String × String)
indy_role_types = ("0", "TRUSTEE") ∷ ("2", "STEWARD") ∷ ("100", "TGB") ∷ ("101", "ENDORSER") ∷ []

abbrev pub indy_txn_types : List (String × String)
indy_txn_types =
    ("0", "NODE")
    ∷ ("1", "NYM")
    ∷ ("3", "GET_TXN")
    ∷ ("4", "TXN_AUTHOR_AGREEMENT")
    ∷ ("5", "TXN_AUTHOR_AGREEMENT_AML")
    ∷ ("6", "GET_TXN_AUTHOR_AGREEMENT")
    ∷ ("7", "GET_TXN_AUTHOR_AGREEMENT_AML")
    ∷ ("100", "ATTRIB")
    ∷ ("101", "SCHEMA")
    ∷ ("102", "CRED_DEF")
    ∷ ("103", "DISCLO")
    ∷ ("104", "GET_ATTR")
    ∷ ("105", "GET_NYM")
    ∷ ("107", "GET_SCHEMA")
    ∷ ("108", "GET_CLAIM_DEF")
    ∷ ("109", "POOL_UPGRADE")
    ∷ ("110", "NODE_UPGRADE")
    ∷ ("111", "POOL_CONFIG")
    ∷ ("112", "CHANGE_KEY")
    ∷ ("113", "REVOC_REG_DEF")
    ∷ ("114", "REVOC_REG_ENTRY")
    ∷ ("115", "GET_REVOC_REG_DEF")
    ∷ ("116", "GET_REVOC_REG")
    ∷ ("117", "GET_REVOC_REG_DELTA")
    ∷ ("118", "POOL_RESTART")
    ∷ ("119", "VALIDATOR_INFO")
    ∷ ("120", "AUTH_RULE")
    ∷ ("121", "GET_AUTH_RULE")
    ∷ ("122", "AUTH_RULES")
    ∷ []

unfoldable pub name_of : String → List (String × String) → Option String
name_of k [] = none
name_of k ((j, v) ∷ l) = if str_eq j k then some v else name_of k l

or_none : Option String → Json
or_none none = null
or_none (some s) = str s

-- INDY_ROLE_TYPES.get(role_id): a list or a dict has no hash.
unfoldable pub role_name : Json → Result Json
unfolding name_of or_none
role_name (str s) = ok (or_none (name_of s indy_role_types))
role_name (arr l) = err type_error
role_name (obj f) = err type_error
role_name _ = ok null
