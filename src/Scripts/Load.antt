-- ===== src/Scripts/Load.antt =====
-- test_transactions/test_transactions.py: tasks that write and read NYMs ten times and keep the timings.
-- `minus` is the difference of two times, and `number` what json.dumps makes of a float.
pub mod Measured
pub mod Handles
use Prim.Native.String.{◌++◌ as str_append}
use indy_perf.Base.{ℕ, zero, suc, ◌+◌, ◌-◌, String, none, List, [], ◌∷◌}
use indy_perf.Base.Texts.{show}
use indy_perf.Exn.{ErrorCode, pool_config_exists, wallet_exists, ok}
use indy_perf.Json.{Json, str, arr, nil, cons, obj, field, end, JsonText, dumps}
use indy_perf.Timings.{Floats, Timing, greater, lesser, start}
use indy_perf.Scripts.Calls.{
  Call, create_and_store_my_did, create_pool_ledger_config, create_wallet, open_wallet,
  open_pool_ledger, set_protocol_version, build_nym_request, build_get_nym_request,
  sign_and_submit_request, submit_request, close_wallet, close_pool_ledger, delete_wallet,
  delete_pool_ledger_config,
}
use indy_perf.Scripts.Program.{
  Script, ret, ◌>>=◌, ◌>>◌, call, time, print_log, attempt, on_indy_error, reporting, json,
  write_to, Machine, Trace, run,
}
use indy_perf.Scripts.Tasks.{Ran, then_run, gather}

abbrev pool_name : String
pool_name = "prifob"

abbrev wallet_config : JsonText
wallet_config = dumps (obj (field "id" (str "wallet") end))

abbrev wallet_credentials : JsonText
wallet_credentials = dumps (obj (field "key" (str "wallet_key") end))

abbrev did_json : JsonText
did_json = dumps (obj (field "seed" (str "000000000000000000000000Steward1") end))

abbrev unless_pool_config_exists : {F : Type 0} → ErrorCode → Script F Unit
unless_pool_config_exists pool_config_exists = ret tt
unless_pool_config_exists other = ret tt

abbrev unless_wallet_exists : {F : Type 0} → ErrorCode → Script F Unit
unless_wallet_exists wallet_exists = ret tt
unless_wallet_exists other = ret tt

-- The floats that the test needs.
pub record Times (F : Type 0) : Type 0 where
  pub floats : Floats F
  pub minus : F → F → F
  pub number : F → Json

module _ {F : Type 0} (f : Times F) where
  -- result['avg'] += x, and the same of the greatest and the least
  unfoldable pub added : Timing F → F → Timing F
  unfolding greater lesser
  added t x = record {
    longest = greater f.floats x t.longest;
    shortest = lesser f.floats x t.shortest;
    avg = f.floats.plus t.avg x;
  }

  -- The time that the await of a call takes.
  unfoldable pub timed : Call → Script F F
  timed c = do begin ← time; call c; finished ← time; ret (f.minus finished begin)

  unfoldable pub timed_write : ℕ → ℕ → String → Script F F
  unfolding timed
  timed_write wallet_handle pool_handle steward_did = do
    (trust_anchor_did, trust_anchor_verkey) ←
        call (create_and_store_my_did wallet_handle (dumps (obj end)))
    request ←
        call (build_nym_request steward_did trust_anchor_did trust_anchor_verkey "TRUST_ANCHOR")
    timed (sign_and_submit_request pool_handle wallet_handle steward_did request)

  unfoldable pub timed_read : ℕ → ℕ → String → Script F F
  unfolding timed
  timed_read wallet_handle pool_handle steward_did = do
    (client_did, client_verkey) ← call (create_and_store_my_did wallet_handle (dumps (obj end)))
    request ← call (build_get_nym_request client_did steward_did)
    timed (submit_request pool_handle request)

  -- The rounds that are left of for i in range(0, 10).
  unfoldable pub rounds : ℕ → ℕ → ℕ → String → Timing F → Timing F → Script F (Timing F × Timing F)
  unfolding added timed_write timed_read
  rounds zero wallet_handle pool_handle steward_did w_result r_result = ret (w_result, r_result)
  rounds (suc n) wallet_handle pool_handle steward_did w_result r_result = do
    write ← timed_write wallet_handle pool_handle steward_did
    read ← timed_read wallet_handle pool_handle steward_did
    print_log (str_append (show (10 - suc n)) ",") ""
    rounds n wallet_handle pool_handle steward_did (added w_result write) (added r_result read)

  -- result['avg'] / 10.0
  unfoldable pub mean : Timing F → Timing F
  mean t = record t { avg = f.floats.over t.avg 10 }

  unfoldable pub timing_json : Timing F → Json
  timing_json t = obj (
      field "max" (f.number t.longest)
        (field "min" (f.number t.shortest) (field "avg" (f.number t.avg) end)))

  unfoldable pub results : Timing F → Timing F → JsonText
  unfolding mean timing_json
  results w_result r_result =
      dumps (arr (cons (timing_json (mean w_result)) (cons (timing_json (mean r_result)) nil)))

  abbrev pub result_file : String → ℕ → String
  result_file thread i = str_append thread (str_append "_" (str_append (show i) "_result.txt"))

  unfoldable pub measure : String → ℕ → ℕ → ℕ → Script F Unit
  unfolding rounds results
  measure thread i wallet_handle pool_handle = do
    (steward_did, steward_verkey) ← call (
        create_and_store_my_did wallet_handle
          (dumps (obj (field "seed" (str "000000000000000000000000Steward1") end))))
    (w_result, r_result) ←
        rounds 10 wallet_handle pool_handle steward_did (start f.floats) (start f.floats)
    write_to (result_file thread i) (json (results w_result r_result))

  -- One task.
  unfoldable pub write_nym_and_query_verkey : String → ℕ → ℕ → ℕ → Script F Unit
  unfolding measure
  write_nym_and_query_verkey thread i wallet_handle pool_handle =
      print_log "\nTest started\n" "" >> reporting (measure thread i wallet_handle pool_handle)

  -- for i in range(n): tasks.append(...), from the task `i`
  unfoldable pub tasks : String → ℕ → ℕ → ℕ → ℕ → List (Script F Unit)
  unfolding write_nym_and_query_verkey
  tasks thread zero i wallet_handle pool_handle = []
  tasks thread (suc n) i wallet_handle pool_handle =
      write_nym_and_query_verkey thread i wallet_handle pool_handle
      ∷ tasks thread n (i + 1) wallet_handle pool_handle

module _ {F : Type 0} where
  abbrev open_handles : Script F (ℕ × ℕ)
  open_handles = do
    pool_handle ← call (open_pool_ledger pool_name none)
    attempt (on_indy_error unless_wallet_exists)
        (call (create_wallet wallet_config wallet_credentials))
    wallet_handle ← call (open_wallet wallet_config wallet_credentials)
    ret (wallet_handle, pool_handle)

  -- `main` up to its first tasks.
  unfoldable pub set_up : String → Script F (ℕ × ℕ)
  set_up genesis_file_path = do
    call (set_protocol_version 2)
    attempt (on_indy_error unless_pool_config_exists) (
        call (
          create_pool_ledger_config pool_name
            (dumps (obj (field "genesis_txn" (str genesis_file_path) end)))))
    open_handles

  -- `main` after its last tasks.
  unfoldable pub tear_down : ℕ → ℕ → Script F Unit
  tear_down wallet_handle pool_handle = do
    call (close_wallet wallet_handle)
    call (close_pool_ledger pool_handle)
    call (delete_wallet wallet_config wallet_credentials)
    call (delete_pool_ledger_config pool_name)

-- The rounds of tasks: their names and how many tasks each has.
abbrev pub batches : List (String × ℕ)
batches = ("1", 1) ∷ ("50", 50) ∷ ("100", 100) ∷ ("150", 150) ∷ ("200", 200) ∷ ("250", 250) ∷ []

module _ {W F : Type 0} (f : Times F) (m : Machine W F) where
  -- Each batch is gathered before the next; `schedules` has the order of the awaits of each.
  unfoldable pub run_batches : (ℕ → List ℕ) → List (String × ℕ) → ℕ → ℕ → W → Trace → Ran W Unit
  unfolding gather tasks
  run_batches schedules [] wallet_handle pool_handle w t = (ok tt, w, t)
  run_batches schedules ((thread, n) ∷ l) wallet_handle pool_handle w t =
      then_run (λ _. run_batches schedules l wallet_handle pool_handle)
        (gather m (schedules n) (tasks f thread n 0 wallet_handle pool_handle) w t)

  unfoldable pub main : (ℕ → List ℕ) → String → W → Trace → Ran W Unit
  unfolding run run_batches set_up tear_down
  main schedules genesis_file_path w t =
      then_run
        (λ (wallet_handle, pool_handle). λ w' t'.
          then_run (λ _. run m (tear_down wallet_handle pool_handle))
            (run_batches schedules batches wallet_handle pool_handle w' t'))
        (run m (set_up genesis_file_path) w t)
