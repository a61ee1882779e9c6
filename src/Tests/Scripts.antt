-- ===== src/Tests/Scripts.antt =====
-- A toy libindy for the scripts: its pool is 7 and its wallet 3, its ledger has two transactions, and it
-- accepts what it is sent. `slow` fails to sign, and `known` has the DID already.
use indy_perf.Base.{
  ℕ, ◌+◌, ◌-◌, ◌≡◌, refl, ◌⊎◌, inl, inr, String, Bool, true, false, none, some, List, [], ◌∷◌, ◌++◌,
  arith, leb, Bool-cases, if◌then◌else◌,
}
use indy_perf.Exn.{Result, ok, err, other_code, did_exists, unbound_local}
use indy_perf.Json.{
  null, Json, num, str, obj, nil, field, end, JsonText, dumped, dumps, index, lookup,
}
use indy_perf.Scripts.Calls.{Call, Reply, Answer, answer, failure, held, nothing, Legal}
use indy_perf.Scripts.Program.{Machine, Trace, no_trace, noted, run, of_result}
use indy_perf.Scripts.Program.Runs.{Ended, Reported, IsOther}
use indy_perf.Scripts.Steward.{
  write_nym_and_query, steps, open_pool, open_new_wallet, create_dids, write_nym, query_nym,
  compare_verkeys, clean_up,
}
use indy_perf.Scripts.Steward.Closes.{write_nym_and_query-Legal}
use indy_perf.Scripts.Utils.{ensure_previous_request_applied}
use indy_perf.Scripts.Utils.Applied.{Applied, ensure_previous_request_applied-Applied}
use indy_perf.Scripts.Synctest.{
  sync, pull, connect, open_trustee_wallet, create_did, unless_did_exists, bound, create_pool,
}
use indy_perf.Scripts.Synctest.Unbound.{IsNew, Raises, sync-Unbound}
use indy_perf.Scripts.Synctest.Rows.{HasLedger, rows, pull_all}
use indy_perf.Scripts.Metadata
use indy_perf.Scripts.Metadata.{set_did_metadata}
use indy_perf.Scripts.Metadata.Merged.{IsWritten, set_did_metadata-IsMerged}
use indy_perf.Scripts.CredDef
use indy_perf.Scripts.CredDef.{write_schema_and_cred_def}
use indy_perf.Scripts.CredDef.Blanks.{IsPrimary, write_schema_and_cred_def-IsPrimary}
use indy_perf.Scripts.Load.{Times}
use indy_perf.Scripts.Load.Handles.{Raises as RaisesIndy}
use indy_perf.Scripts.Replies.{has_data, has_pool, queried_verkey}
use indy_perf.Anchor.Terms.{Codecs, loads_value}
use indy_perf.Tests.World.{codecs}
use indy_perf.Tests.Timings.{whole}

-- The reply to a request, which is the number of a transaction.
abbrev transaction : ℕ → Json
transaction i =
    obj (field "result_4" (obj (field "data" (if leb i 2 then str "nym" else null) end)) end)

abbrev reply_to : JsonText → JsonText
reply_to (dumped (num i)) = dumps (transaction i)
reply_to r = dumps (transaction 1)

abbrev toy_reply : (c : Call) → Answer (Reply c)
toy_reply (Call.set_protocol_version n) = answer tt
toy_reply Call.list_pools = answer []
toy_reply (Call.create_pool_ledger_config n c) = answer tt
toy_reply (Call.open_pool_ledger n c) = answer 7
toy_reply (Call.create_wallet c k) = answer tt
toy_reply (Call.open_wallet c k) = answer 3
toy_reply (Call.create_and_store_my_did w d) = answer ("did", "key")
toy_reply (Call.build_nym_request s t k r) = answer (dumps (num 1))
toy_reply (Call.build_get_nym_request s t) = answer (dumps (num 1))
toy_reply (Call.build_get_txn_request d l i) = answer (dumps (num i))
toy_reply (Call.build_get_acceptance_mechanisms_request d) = answer (dumps (num 1))
toy_reply (Call.build_get_txn_author_agreement_request d) = answer (dumps (num 1))
toy_reply (Call.sign_and_submit_request p w d r) = answer (reply_to r)
toy_reply (Call.submit_request p r) = answer (reply_to r)
toy_reply (Call.issuer_create_and_store_credential_def w d s t k c) =
    answer ("id", dumps (obj (field "value" (obj (field "primary" (str "a b") end)) end)))
toy_reply (Call.set_did_metadata w d m) = answer tt
toy_reply (Call.close_wallet w) = answer tt
toy_reply (Call.close_pool_ledger p) = answer tt
toy_reply (Call.delete_wallet c k) = answer tt
toy_reply (Call.delete_pool_ledger_config n) = answer tt

abbrev pub toy : Machine ℕ ℕ
toy = record { perform = λ c w. (toy_reply c, w + 1); now = λ w. (w, w + 1); pause = λ n w. w + n }

abbrev known_reply : (c : Call) → Answer (Reply c)
known_reply (Call.create_and_store_my_did w d) = failure did_exists
known_reply c = toy_reply c

abbrev known : Machine ℕ ℕ
known = record { perform = λ c w. (known_reply c, w + 1); now = λ w. (w, w); pause = λ n w. w + n }

write_nym_and_query-Legal_example :
    let (r, w, t) = run toy (write_nym_and_query codecs "/genesis") 0 no_trace in
    Legal t.events × Ended (λ _ u. (held u.events ≡ nothing) ⊎ Reported u) (λ e u. IsOther e) r t
write_nym_and_query-Legal_example = write_nym_and_query-Legal toy codecs "/genesis" 0

-- The pool is open before the wait.
abbrev opened : Trace
opened = noted (Call.open_pool_ledger "prifob" none) (answer 7) no_trace

abbrev never : Json → Result Bool
never j = ok false

ensure_previous_request_applied-Applied_example :
    let (r, w, t) = run toy (ensure_previous_request_applied 7 (dumps (num 1)) never) 0 opened in
    Legal t.events
    × Ended (λ a u. Applied 7 (dumps (num 1)) never opened.events a u.events) (λ e u. Unit {0}) r t
ensure_previous_request_applied-Applied_example =
    ensure_previous_request_applied-Applied toy 7 (dumps (num 1)) never 0 opened refl (refl, tt)

sync-Unbound_example :
    let (r, w, t) = run known (sync 5 "/genesis") 0 no_trace in
    Legal t.events × Ended IsNew Raises r t
sync-Unbound_example = sync-Unbound known 5 "/genesis" 0

toy_tested : (i : ℕ) → has_data (transaction i) ≡ ok (leb i 2)
unfolding has_data index lookup
toy_tested i = elim (Bool-cases (leb i 2)) [ inl e ↦ rw e (refl) | inr e ↦ rw e (refl) ]

abbrev toy_ledger : HasLedger toy (λ w. Unit) 7 "did" "DOMAIN" 2
toy_ledger = record {
  request = λ i. dumps (num i);
  reply = λ i. dumps (transaction i);
  value = transaction;
  built = λ w i p. refl;
  built_keeps = λ w i p. tt;
  sent = λ w i p. refl;
  sent_keeps = λ w i p. tt;
  parsed = λ i. refl;
  tested = toy_tested;
}

pull_all_example :
    let (r, w, t) = run toy (pull 7 "did" "DOMAIN" 3 1) 0 no_trace in
    (r ≡ ok (some tt)) × (t.lines ≡ rows "DOMAIN" 1 2 ++ [])
pull_all_example =
    pull_all toy (λ w. Unit) 7 "did" "DOMAIN" 2 3 0 no_trace toy_ledger tt (omega arith)

abbrev metadata_settings : Metadata.Settings
metadata_settings = record {
  wallet_config = dumps (str "wallet");
  wallet_credentials = dumps (str "key");
  wallet_did = "did";
  did_seed = "seed";
  metadata = obj (field "alias" (str "me") end);
}

abbrev hash : String → String
hash s = "00ff"

set_did_metadata-IsMerged_example :
    let (r, w, t) = run toy (set_did_metadata hash metadata_settings) 0 no_trace in
    Legal t.events
    × Ended (λ a u. IsWritten hash metadata_settings a u ⊎ Reported u) (λ e u. IsOther e) r t
set_did_metadata-IsMerged_example = set_did_metadata-IsMerged toy hash metadata_settings 0

abbrev schema_settings : CredDef.Settings
schema_settings = record {
  pool_name = "local_pool";
  wallet_config = dumps (str "wallet");
  wallet_credentials = dumps (str "key");
  author_did = "did";
  seq_no = num 10;
  schema_name = "permit";
  schema_version = "1.0.0";
  schema_attributes = nil;
  cred_def_tag = "tag";
  cred_def_type = "CL";
}

abbrev encode : Json → String
encode j = "{ \"n\": 1 }"

write_schema_and_cred_def-IsPrimary_example :
    let (r, w, t) =
      run toy (write_schema_and_cred_def encode schema_settings "/tmp/primarykey.txt") 0 no_trace in
    Legal t.events
    × Ended
        (λ _ u. IsPrimary encode schema_settings "/tmp/primarykey.txt" u ⊎ Reported u)
        (λ e u. IsOther e)
        r
        t
write_schema_and_cred_def-IsPrimary_example =
    write_schema_and_cred_def-IsPrimary toy encode schema_settings "/tmp/primarykey.txt" 0

abbrev whole_times : Times ℕ
whole_times = record { floats = whole; minus = λ a b. a - b; number = num }

-- The first task goes on twice before the rest.
abbrev schedule : ℕ → List ℕ
schedule n = 0 ∷ 0 ∷ 1 ∷ []

abbrev nym_codecs : Codecs
nym_codecs = record codecs { parse = λ s. dumps (obj (field "verkey" (str "key") end)) }

-- A run to the end.
steward-toy :
    let (r, w, t) = run toy (write_nym_and_query {F = ℕ} nym_codecs "/genesis") 0 no_trace in
    (r ≡ ok tt) × (held t.events ≡ nothing)
unfolding write_nym_and_query steps open_pool open_new_wallet create_dids write_nym query_nym
    compare_verkeys clean_up run of_result queried_verkey index lookup loads_value
steward-toy = (refl, refl)

abbrev failing_reply : (c : Call) → Answer (Reply c)
failing_reply (Call.sign_and_submit_request p w d r) = failure other_code
failing_reply c = toy_reply c

-- A ledger that takes no request.
abbrev failing : Machine ℕ ℕ
failing = record {
  perform = λ c w. (failing_reply c, w + 1);
  now = λ w. (w, w);
  pause = λ n w. w + n;
}

-- The script returns, and the pool and the wallet stay open.
steward-failing :
    let (r, w, t) = run failing (write_nym_and_query {F = ℕ} codecs "/genesis") 0 no_trace in
    (r ≡ ok tt)
    × (held t.events ≡ record { configured = true; pool = some 7; stored = true; wallet = some 3 })
unfolding write_nym_and_query steps open_pool open_new_wallet create_dids write_nym run of_result
steward-failing = (refl, refl)

-- The sync of a wallet that has the DID.
sync-known : (run known (sync {F = ℕ} 5 "/genesis") 0 no_trace).0 ≡ err unbound_local
unfolding sync connect has_pool open_trustee_wallet create_did unless_did_exists bound run of_result
    create_pool
sync-known = refl
