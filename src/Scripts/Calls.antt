-- ===== src/Scripts/Calls.antt =====
-- The functions of libindy that the scripts await, as data, and what their answers leave open: a pool, a
-- wallet. No handle is used that is not open.
use indy_perf.Base.{ℕ, String, Bool, true, false, ◌≡◌, Option, none, some, List, [], ◌∷◌}
use indy_perf.Exn.{ErrorCode}
use indy_perf.Json.{Json, JsonText}

pub data Call : Type 0 where
  set_protocol_version : ℕ → Call
  list_pools : Call
  create_pool_ledger_config : String → JsonText → Call
  open_pool_ledger : String → Option JsonText → Call
  create_wallet open_wallet : JsonText → JsonText → Call
  create_and_store_my_did : ℕ → JsonText → Call
  -- submitter_did, target_did, ver_key, role; no alias
  build_nym_request : String → String → String → String → Call
  build_get_nym_request : String → String → Call
  build_get_txn_request : String → String → ℕ → Call
  build_get_acceptance_mechanisms_request build_get_txn_author_agreement_request : String → Call
  -- pool, wallet, submitter_did, request
  sign_and_submit_request : ℕ → ℕ → String → JsonText → Call
  submit_request : ℕ → JsonText → Call
  -- wallet, did, schema, tag, type, config
  issuer_create_and_store_credential_def : ℕ → String → JsonText → String → String → JsonText → Call
  set_did_metadata : ℕ → String → JsonText → Call
  close_wallet close_pool_ledger : ℕ → Call
  delete_wallet : JsonText → JsonText → Call
  delete_pool_ledger_config : String → Call

-- What an await gives.
abbrev pub Reply : Call → Type 0
Reply list_pools = List Json
Reply (open_pool_ledger name config) = ℕ
Reply (open_wallet config credentials) = ℕ
-- a DID and its verification key
Reply (create_and_store_my_did wallet did) = String × String
Reply (build_nym_request submitter target key role) = JsonText
Reply (build_get_nym_request submitter target) = JsonText
Reply (build_get_txn_request submitter ledger seq_no) = JsonText
Reply (build_get_acceptance_mechanisms_request submitter) = JsonText
Reply (build_get_txn_author_agreement_request submitter) = JsonText
Reply (sign_and_submit_request pool wallet submitter request) = JsonText
Reply (submit_request pool request) = JsonText
-- the identifier and the definition
Reply (issuer_create_and_store_credential_def wallet did schema tag kind config) = String × JsonText
Reply other = Unit

-- A value, or an IndyError.
pub data Answer (A : Type 0) : Type 0 where
  answer : A → Answer A
  failure : ErrorCode → Answer A

-- What happened, for the properties: the scripts keep no such record.
pub data Event : Type 0 where
  answered : (c : Call) → Reply c → Event
  failed : Call → ErrorCode → Event
  slept : ℕ → Event

abbrev pub event : (c : Call) → Answer (Reply c) → Event
event c (answer r) = answered c r
event c (failure e) = failed c e

-- What a script holds of libindy: the open pool and the open wallet, and whether their configuration and
-- its file are stored.
pub record Held : Type 0 where
  pub configured : Bool
  pub pool : Option ℕ
  pub stored : Bool
  pub wallet : Option ℕ

abbrev pub nothing : Held
nothing = record { configured = false; pool = none; stored = false; wallet = none }

-- What a call that succeeds changes. What is opened was stored.
abbrev pub effect : (c : Call) → Reply c → Held → Held
effect (create_pool_ledger_config name config) r h = record h { configured = true }
effect (open_pool_ledger name config) r h = record h { configured = true; pool = some r }
effect (create_wallet config credentials) r h = record h { stored = true }
effect (open_wallet config credentials) r h = record h { stored = true; wallet = some r }
effect (close_wallet w) r h = record h { wallet = none }
effect (close_pool_ledger p) r h = record h { pool = none }
effect (delete_wallet config credentials) r h = record h { stored = false }
effect (delete_pool_ledger_config name) r h = record h { configured = false }
effect other r h = h

-- The handles of a call are open, and what it opens or deletes is not.
abbrev pub Allowed : Call → Held → Type 0
Allowed (open_pool_ledger name config) h = h.pool ≡ none
Allowed (create_wallet config credentials) h = h.wallet ≡ none
Allowed (open_wallet config credentials) h = h.wallet ≡ none
Allowed (create_and_store_my_did w did) h = h.wallet ≡ some w
Allowed (sign_and_submit_request p w submitter request) h = (h.pool ≡ some p) × (h.wallet ≡ some w)
Allowed (submit_request p request) h = h.pool ≡ some p
Allowed (issuer_create_and_store_credential_def w did schema tag kind config) h = h.wallet ≡ some w
Allowed (set_did_metadata w did metadata) h = h.wallet ≡ some w
Allowed (close_wallet w) h = h.wallet ≡ some w
Allowed (close_pool_ledger p) h = h.pool ≡ some p
Allowed (delete_wallet config credentials) h = h.wallet ≡ none
Allowed (delete_pool_ledger_config name) h = h.pool ≡ none
Allowed other h = Unit

abbrev pub after_event : Event → Held → Held
after_event (answered c r) h = effect c r h
after_event (failed c e) h = h
after_event (slept n) h = h

-- What is held after the events, the latest first.
abbrev pub held : List Event → Held
held [] = nothing
held (e ∷ events) = after_event e (held events)

abbrev AllowedEvent : Event → Held → Type 0
AllowedEvent (answered c r) h = Allowed c h
AllowedEvent (failed c e) h = Allowed c h
AllowedEvent (slept n) h = Unit

-- Every call was allowed when it was made.
abbrev pub Legal : List Event → Type 0
Legal [] = Unit
Legal (e ∷ events) = AllowedEvent e (held events) × Legal events
