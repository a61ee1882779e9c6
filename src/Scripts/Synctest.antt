-- ===== src/Scripts/Synctest.antt =====
-- von-network/server/synctest.py: a pool, a wallet and a DID are made where there is none, and the
-- transactions of a ledger are read up to its end. `fuel` bounds the rounds of `while True`; without fuel
-- the loop has no result.
pub mod Unbound
pub mod Rows
use Prim.Native.String.{◌++◌ as str_append}
use indy_perf.Base.{ℕ, zero, suc, ◌+◌, String, Bool, true, false, Option, none, some, if◌then◌else◌}
use indy_perf.Base.Texts.{show}
use indy_perf.Exn.{ErrorCode, indy_error, wallet_exists, did_exists, unbound_local}
use indy_perf.Json.{num, str, obj, field, end, JsonText, loads, dumps}
use indy_perf.Scripts.Calls.{
  Call, set_protocol_version, list_pools, create_pool_ledger_config, open_pool_ledger,
  create_wallet, open_wallet, create_and_store_my_did, build_get_acceptance_mechanisms_request,
  build_get_txn_author_agreement_request, build_get_txn_request, sign_and_submit_request,
  submit_request,
}
use indy_perf.Scripts.Program.{
  Script, ret, throw, ◌>>=◌, ◌>>◌, call, of_result, attempt, on_indy_error, say, printed_json,
  exception, print, log_info,
}
use indy_perf.Scripts.Replies.{has_data, has_pool}

abbrev pool_name : String
pool_name = "nodepool"

abbrev wallet_cfg : JsonText
wallet_cfg = dumps (obj (field "id" (str "trustee_wallet") (field "freshness_time" (num 0) end)))

abbrev wallet_access : JsonText
wallet_access = dumps (obj (field "key" (str "key") end))

-- LEDGER_SEED stands in the text.
abbrev pub did_json : JsonText
did_json = dumps (obj (field "seed" (str "000000000000000000000000Trustee1") end))

abbrev pub pool_call : String → Call
pool_call genesis_file =
    create_pool_ledger_config pool_name (dumps (obj (field "genesis_txn" (str genesis_file) end)))

-- print(ledger_name, txn_idx)
abbrev pub row : String → ℕ → String
row ledger_name txn_idx = str_append ledger_name (str_append " " (show txn_idx))

module _ {F : Type 0} where
  -- except IndyError, around create_wallet
  unfoldable pub unless_wallet_exists : ErrorCode → Script F Unit
  unless_wallet_exists wallet_exists = log_info "Wallet already exists"
  unless_wallet_exists e = throw (indy_error e)

  -- except IndyError, around create_and_store_my_did: no DID is bound
  unfoldable pub unless_did_exists : ErrorCode → Script F (Option String)
  unless_did_exists did_exists = do log_info "DID already exists in wallet"; ret none
  unless_did_exists e = throw (indy_error e)

  -- The use of a local variable.
  unfoldable pub bound : Option String → Script F String
  bound none = throw unbound_local
  bound (some s) = ret s

  unfoldable pub create_did : ℕ → Script F (Option String)
  create_did wallet_handle = do
    (my_did, my_verkey) ← call (
        create_and_store_my_did wallet_handle
          (dumps (obj (field "seed" (str "000000000000000000000000Trustee1") end))))
    log_info "Created wallet DID"
    ret (some my_did)

  unfoldable pub create_pool : String → Bool → Script F Unit
  create_pool genesis_file true = ret tt
  create_pool genesis_file false = call (pool_call genesis_file)

  unfoldable pub connect : String → Script F ℕ
  unfolding create_pool
  connect genesis_file = do
    call (set_protocol_version 2)
    pools ← call list_pools
    exists ← of_result (has_pool pool_name pools)
    create_pool genesis_file exists
    pool_handle ← call (open_pool_ledger pool_name (some (dumps (obj end))))
    log_info "Connected to ledger pool"
    ret pool_handle

  unfoldable pub open_trustee_wallet : Script F ℕ
  unfolding unless_wallet_exists
  open_trustee_wallet = do
    attempt (on_indy_error unless_wallet_exists) (call (create_wallet wallet_cfg wallet_access))
    wallet_handle ← call (open_wallet wallet_cfg wallet_access)
    log_info "Opened wallet"
    ret wallet_handle

  -- The acceptance mechanisms and the author agreement.
  unfoldable pub print_agreement : ℕ → ℕ → String → Script F Unit
  print_agreement pool_handle wallet_handle my_did = do
    get_aml_req ← call (build_get_acceptance_mechanisms_request my_did)
    aml ← call (sign_and_submit_request pool_handle wallet_handle my_did get_aml_req)
    say (printed_json "AML" aml) (ret tt)
    get_taa_req ← call (build_get_txn_author_agreement_request my_did)
    taa ← call (sign_and_submit_request pool_handle wallet_handle my_did get_taa_req)
    say (printed_json "TAA" taa) (ret tt)

  -- while True
  unfoldable pub pull : ℕ → String → String → ℕ → ℕ → Script F (Option Unit)
  pull pool_handle my_did ledger_name zero txn_idx = ret none
  pull pool_handle my_did ledger_name (suc fuel) txn_idx =
      let rest =
        print (row ledger_name txn_idx) >> pull pool_handle my_did ledger_name fuel (txn_idx + 1) in
      do
        req_json ← call (build_get_txn_request my_did ledger_name txn_idx)
        rv_json ← call (submit_request pool_handle req_json)
        rv ← of_result (loads rv_json)
        more ← of_result (has_data rv)
        if more then rest else ret (some tt)

  unfoldable pub sync : ℕ → String → Script F (Option Unit)
  sync fuel genesis_file = do
    pool_handle ← connect genesis_file
    wallet_handle ← open_trustee_wallet
    did ← attempt (on_indy_error unless_did_exists) (create_did wallet_handle)
    my_did ← bound did
    print_agreement pool_handle wallet_handle my_did
    pull pool_handle my_did "DOMAIN" fuel 1

  -- The script: except Exception: LOGGER.exception
  unfoldable pub synctest : ℕ → String → Script F (Option Unit)
  unfolding sync
  synctest fuel genesis_file =
      attempt (λ e. say (exception e) (ret (some tt))) (sync fuel genesis_file)
