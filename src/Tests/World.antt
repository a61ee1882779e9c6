-- ===== src/Tests/World.antt =====
-- A small world: a ledger whose DOMAIN part has two transactions. The world counts the requests.
use indy_perf.Base.{ℕ, suc, ◌+◌, true, false, none, some, [], ◌∷◌, leb, str_eq, if◌then◌else◌}
use indy_perf.Exn.{ok}
use indy_perf.Json.{Json, null, num, str, obj, end, field, JsonText, dumped, garbage}
use indy_perf.Anchor.Terms.{Codecs}
use indy_perf.Anchor.Handle.State.{Env, State, absent}
use indy_perf.Anchor.Handle.Open.{Boot}
use indy_perf.Tests.Codec.{toy58}

abbrev pub codecs : Codecs
codecs = record { base58 = toy58; repr = λ j. "…"; parse = λ s. garbage s }

-- The transaction with a number, as the ledger gives it.
abbrev pub txn_data : ℕ → Json
txn_data n = obj (
    field "reqSignature" (obj end) (
      field "seqNo" (num n) (
        field "txn" (obj (field "type" (str "2") end))
          (field "txnMetadata" (obj (field "txnId" (str "id") end)) end))))

-- {"result_4": {"data": …}}
abbrev pub reply : Json → Json
reply data' = obj (field "result_4" (obj (field "data" data' end)) end)

-- A request is the number of a transaction.
abbrev pub answer : JsonText → JsonText
answer (dumped (num (suc n))) = dumped (reply (if leb (suc n) 2 then txn_data (suc n) else null))
answer t = dumped (reply null)

abbrev pub env : Env ℕ
env = record {
  submit = λ p t w. (some (answer t), w + 1);
  build_get_txn = λ did ledger n. ok (dumped (if str_eq ledger "DOMAIN" then num n else null));
  build_get_nym = λ did nym. ok (dumped (obj end));
  build_nym = λ did nym verkey alias role. ok (dumped (obj end));
  build_validator_info = λ did. ok (dumped (obj end));
  sign = λ did seed req. ok (str "signature");
  now = λ w. w;
  codecs = codecs;
  fts = λ q. some (λ f. true);
  max_fetch = 50000;
}

abbrev pub boot : Boot ℕ
boot = record {
  env = env;
  agreement = record {
    aml_file = none;
    taa_file = none;
    build_get_aml = λ did. ok (dumped null);
    build_aml = λ did aml version context. ok (dumped (obj end));
    build_get_taa = λ did. ok (dumped null);
    build_taa = λ did text version ts. ok (dumped (obj end));
    sha256 = λ s. s;
    today = λ w. 0;
  };
  keys = record { b64decode = λ s. ok []; verify_key = λ seed. ok seed; base58 = toy58 };
  download = record {
    fetch = λ url. ok "{}";
    splitlines = λ s. s ∷ [];
    parse = λ s. dumped (num 1);
    temp_name = "/tmp/genesis";
  };
  genesis = λ w. record { file = some "genesis"; url = none; verified = true; files = [] };
  put_genesis = λ g w. w;
  set_protocol_version = λ w. (some tt, w);
  list_pools = λ w. (some [], w);
  delete_pool = λ p w. (some tt, w);
  create_pool = λ p f w. (some tt, w);
  open_pool = λ p w. (some 1, w);
  close_pool = λ p w. (some tt, w);
  cache_path = some "cache.db";
  disk = λ w. [];
}

-- `AnchorHandle()` in anonymous mode, before `open`.
abbrev pub fresh : State ℕ
fresh = record {
  anonymous = true;
  cache = none;
  did = none;
  init_error = none;
  pool = none;
  ready = false;
  ledger_lock = absent;
  register_dids = false;
  seed = [];
  sync_lock = absent;
  syncing = false;
  taa_accept = none;
  verkey = none;
  world = 0;
}
