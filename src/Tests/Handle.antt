-- ===== src/Tests/Handle.antt =====
-- An anchor that is idle, one that is not open, one whose ledger refuses, and one with a bad configuration.
use indy_perf.Base.{ℕ, ◌≡◌, refl, true, false, none, some, List, [], ◌∷◌, arith}
use indy_perf.Exn.{key_error}
use indy_perf.Exec.{returned, raised}
use indy_perf.Exec.Runs.{Stops}
use indy_perf.Json.{Json, str, num, null, obj, end, field, JsonText, dumped}
use indy_perf.Anchor.Ident.{int}
use indy_perf.Anchor.LedgerType.{domain, member}
use indy_perf.Anchor.Genesis.{Genesis, resolve_genesis_file}
use indy_perf.Anchor.Genesis.Once.{Verified, resolve_genesis_file-again}
use indy_perf.Anchor.Cache.Schema.{no_rows}
use indy_perf.Anchor.Cache.Connection.{holding}
use indy_perf.Anchor.Handle.State.{State, free}
use indy_perf.Anchor.Handle.Requests.{submit_request}
use indy_perf.Anchor.Handle.Requests.Refusals.{IsAccepted, submit_request-IsAccepted}
use indy_perf.Anchor.Handle.Sync.{sync_ledger_cache}
use indy_perf.Anchor.Handle.Sync.Ends.{Idle, sync_ledger_cache-ends}
use indy_perf.Anchor.Handle.Agreement.{AgreementEnv, register_txn_agreement}
use indy_perf.Anchor.Handle.Agreement.NoText.{register_txn_agreement-no_text}
use indy_perf.Anchor.Handle.Calls.{Call, txn, init, nym, validators, run}
use indy_perf.Anchor.Handle.Calls.Offline.{run-offline}
use indy_perf.Tests.World.{env, boot, fresh}

abbrev idle : State ℕ
idle = record fresh {
  cache = some (record { db = holding no_rows; db_path = ":memory:"; disk = [] });
  ledger_lock = free;
  pool = some 1;
  ready = true;
  sync_lock = free;
}

idle-Idle : Idle idle
idle-Idle = record { ledger_free = refl; sync_free = refl; quiet = refl }

sync_ledger_cache-ends_example :
    Stops (λ done. Idle) Idle (λ _. ⊥) (sync_ledger_cache env 50000 domain true idle)
sync_ledger_cache-ends_example =
    sync_ledger_cache-ends env 50000 (omega arith) (omega arith) domain true idle idle-Idle

abbrev uses : List Call
uses = txn (member domain) (int 1) true ∷ init ∷ nym "V4SG" ∷ validators ∷ []

run-offline_example : let h = run boot 10 uses fresh in (h.ready ≡ false) × (h.world ≡ 0)
run-offline_example = run-offline boot 10 uses fresh refl refl

submit_request-IsAccepted_example :
    Stops
      (λ resp h'. IsAccepted resp)
      (λ h'. Unit)
      (λ h'. ⊥)
      (submit_request env (dumped (num 1)) false false idle)
submit_request-IsAccepted_example = submit_request-IsAccepted env (dumped (num 1)) false false idle

abbrev no_text : AgreementEnv ℕ
no_text = record (boot.agreement) { taa_file = some (dumped (obj (field "version" (str "1") end))) }

register_txn_agreement-no_text_example :
    register_txn_agreement env no_text idle ≡ (raised (key_error "text"), idle)
unfolding indy_perf.Json.lookup indy_perf.Anchor.Handle.Agreement.read_config
register_txn_agreement-no_text_example =
    register_txn_agreement-no_text env no_text idle null "version" (str "1") end refl refl refl

abbrev by_url : Genesis
by_url = record { file = none; url = some "http://ledger/genesis"; verified = false; files = [] }

resolve_genesis_file-again_example :
    Stops
      (λ f g'. resolve_genesis_file boot.download g' ≡ (returned f, g'))
      (Verified false)
      (λ g'. ⊥)
      (resolve_genesis_file boot.download by_url)
resolve_genesis_file-again_example = resolve_genesis_file-again boot.download by_url
