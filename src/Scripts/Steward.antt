-- ===== src/Scripts/Steward.antt =====
-- add_steward/create_steward.py: a steward writes the NYM of another, and a client reads it back.
pub mod Closes
use indy_perf.Base.{ℕ, String, none, if◌then◌else◌}
use indy_perf.Exn.{ErrorCode, pool_config_exists, wallet_exists}
use indy_perf.Json.{Json, str, obj, field, end, JsonText, loads, dumps}
use indy_perf.Anchor.Terms.{Codecs, py_str, is_text}
use indy_perf.Scripts.Replies.{queried_verkey}
use indy_perf.Scripts.Calls.{
  create_and_store_my_did, create_pool_ledger_config, create_wallet, open_wallet, open_pool_ledger,
  set_protocol_version, build_nym_request, build_get_nym_request, sign_and_submit_request,
  submit_request, close_wallet, close_pool_ledger, delete_wallet, delete_pool_ledger_config,
}
use indy_perf.Scripts.Program.{
  Script, ret, ◌>>=◌, ◌>>◌, call, of_result, print_log, pprint, attempt, on_indy_error, reporting,
}

abbrev pool_name : String
pool_name = "prifob"

abbrev wallet_config : JsonText
wallet_config = dumps (obj (field "id" (str "wallet") end))

abbrev wallet_credentials : JsonText
wallet_credentials = dumps (obj (field "key" (str "wallet_key") end))

-- Both branches of each `if` do nothing.
abbrev unless_pool_config_exists : {F : Type 0} → ErrorCode → Script F Unit
unless_pool_config_exists pool_config_exists = ret tt
unless_pool_config_exists other = ret tt

abbrev unless_wallet_exists : {F : Type 0} → ErrorCode → Script F Unit
unless_wallet_exists wallet_exists = ret tt
unless_wallet_exists other = ret tt

module _ {F : Type 0} (codecs : Codecs) (genesis_file_path : String) where
  -- Steps 1 and 2.
  unfoldable pub open_pool : Script F ℕ
  open_pool = do
    call (set_protocol_version 2)
    print_log
        "\n1. Creates a new local pool ledger configuration that is used later when connecting to ledger.\n"
        ""
    attempt (on_indy_error unless_pool_config_exists) (
        call (
          create_pool_ledger_config pool_name
            (dumps (obj (field "genesis_txn" (str genesis_file_path) end)))))
    print_log "\n2. Open pool ledger and get handle from libindy\n" ""
    call (open_pool_ledger pool_name none)

  -- Steps 3 and 4.
  unfoldable pub open_new_wallet : Script F ℕ
  open_new_wallet = do
    print_log "\n3. Creating new secure wallet\n" ""
    attempt (on_indy_error unless_wallet_exists)
        (call (create_wallet wallet_config wallet_credentials))
    print_log "\n4. Open wallet and get handle from libindy\n" ""
    call (open_wallet wallet_config wallet_credentials)

  -- Steps 5 and 6: the steward's DID, and the DID and the key of the new trust anchor.
  unfoldable pub create_dids : ℕ → Script F (String × String × String)
  create_dids wallet_handle = do
    print_log "\n5. Generating and storing steward DID and verkey\n" ""
    (steward_did, steward_verkey) ← call (
        create_and_store_my_did wallet_handle
          (dumps (obj (field "seed" (str "000000000000000000000000Trustee1") end))))
    print_log "Steward DID: " steward_did
    print_log "Steward Verkey: " steward_verkey
    print_log "\n6. Generating and storing trust anchor DID and verkey\n" ""
    (trust_anchor_did, trust_anchor_verkey) ←
        call (create_and_store_my_did wallet_handle (dumps (obj end)))
    print_log "Trust anchor DID: " trust_anchor_did
    print_log "Trust anchor Verkey: " trust_anchor_verkey
    ret (steward_did, trust_anchor_did, trust_anchor_verkey)

  -- Steps 7 and 8.
  unfoldable pub write_nym : ℕ → ℕ → String × String × String → Script F Unit
  write_nym pool_handle wallet_handle (steward_did, trust_anchor_did, trust_anchor_verkey) = do
    print_log "\n7. Building NYM request to add Trust Anchor to the ledger\n" ""
    request ← call (build_nym_request steward_did trust_anchor_did trust_anchor_verkey "STEWARD")
    print_log "NYM transaction request: " ""
    shown ← of_result (loads request)
    pprint shown
    print_log "\n8. Sending NYM request to the ledger\n" ""
    response ← call (sign_and_submit_request pool_handle wallet_handle steward_did request)
    print_log "NYM transaction response: " ""
    replied ← of_result (loads response)
    pprint replied

  -- Steps 9 to 11: the reply to a client's GET_NYM.
  unfoldable pub query_nym : ℕ → ℕ → String → Script F Json
  query_nym pool_handle wallet_handle trust_anchor_did = do
    print_log
        "\n9. Generating and storing DID and verkey representing a Client that wants to obtain Trust Anchor Verkey\n"
        ""
    (client_did, client_verkey) ← call (create_and_store_my_did wallet_handle (dumps (obj end)))
    print_log "Client DID: " client_did
    print_log "Client Verkey: " client_verkey
    print_log "\n10. Building the GET_NYM request to query trust anchor verkey\n" ""
    request ← call (build_get_nym_request client_did trust_anchor_did)
    print_log "GET_NYM request: " ""
    shown ← of_result (loads request)
    pprint shown
    print_log "\n11. Sending the Get NYM request to the ledger\n" ""
    response_json ← call (submit_request pool_handle request)
    response ← of_result (loads response_json)
    print_log "GET_NYM response: " ""
    pprint response
    ret response

  -- Step 12.
  unfoldable pub compare_verkeys : String → Json → Script F Unit
  compare_verkeys trust_anchor_verkey response = do
    print_log
        "\n12. Comparing Trust Anchor verkey as written by Steward and as retrieved in GET_NYM response submitted by Client\n"
        ""
    print_log "Written by Steward: " trust_anchor_verkey
    verkey_from_ledger ← of_result (queried_verkey codecs response)
    print_log "Queried from ledger: " (py_str codecs verkey_from_ledger)
    print_log "Matching: "
        (if is_text verkey_from_ledger trust_anchor_verkey then "True" else "False")

  -- Steps 13 to 15.
  unfoldable pub clean_up : ℕ → ℕ → Script F Unit
  clean_up pool_handle wallet_handle = do
    print_log "\n13. Closing wallet and pool\n" ""
    call (close_wallet wallet_handle)
    call (close_pool_ledger pool_handle)
    print_log "\n14. Deleting created wallet\n" ""
    call (delete_wallet wallet_config wallet_credentials)
    print_log "\n15. Deleting pool ledger config\n" ""
    call (delete_pool_ledger_config pool_name)

  unfoldable pub steps : Script F Unit
  steps = do
    pool_handle ← open_pool
    wallet_handle ← open_new_wallet
    (steward_did, trust_anchor_did, trust_anchor_verkey) ← create_dids wallet_handle
    write_nym pool_handle wallet_handle (steward_did, trust_anchor_did, trust_anchor_verkey)
    response ← query_nym pool_handle wallet_handle trust_anchor_did
    compare_verkeys trust_anchor_verkey response
    clean_up pool_handle wallet_handle

  unfoldable pub write_nym_and_query : Script F Unit
  unfolding steps
  write_nym_and_query = reporting steps
