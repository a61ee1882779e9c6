-- ===== src/Scripts/Utils.antt =====
-- add_steward/utils.py, which test_transactions/utils.py repeats: the genesis file of a pool, and the wait for
-- a request to be applied. `read` is the read of the genesis file of the samples, none where there is no
-- such file; directories are not modelled.
pub mod Applied
use Prim.Native.String.{◌++◌ as str_append}
use indy_perf.Base.{ℕ, zero, suc, String, Bool, false, Option, none, some, if◌then◌else◌}
use indy_perf.Exn.{Result, ok, err, type_error, file_not_found, or_raise}
use indy_perf.Json.{Json, JsonText, loads, dumps}
use indy_perf.Scripts.Calls.{submit_request}
use indy_perf.Scripts.Program.{Script, ret, sleep, ◌>>=◌, ◌>>◌, call, of_result, text, write_to}

-- except TypeError: pass
unfoldable pub without_type_error : Result Bool → Result Bool
without_type_error (err type_error) = ok false
without_type_error r = r

module _ {F : Type 0} where
  unfoldable pub pool_genesis_txn_data : (ℕ → Option String) → Script F String
  pool_genesis_txn_data read = of_result (or_raise (read 1000000000) file_not_found)

  unfoldable pub save_pool_genesis_txn_file : (ℕ → Option String) → String → Script F Unit
  unfolding pool_genesis_txn_data
  save_pool_genesis_txn_file read path = do
    content ← pool_genesis_txn_data read
    write_to path (text content)

  -- `temp` is gettempdir().
  unfoldable pub get_pool_genesis_txn_path : (ℕ → Option String) → String → String → Script F String
  unfolding save_pool_genesis_txn_file
  get_pool_genesis_txn_path read temp pool_name = do
    let path = str_append temp (str_append "/indy/" (str_append pool_name ".txn"))
    save_pool_genesis_txn_file read path
    ret path

  module _ (pool_handle : ℕ) (checker_request : JsonText) (checker : Json → Result Bool) where
    -- The rounds that are left.
    unfoldable pub tries : ℕ → Script F (Option JsonText)
    unfolding without_type_error
    tries zero = ret none
    tries (suc n) =
        let again = sleep 5 (tries n) in
        do
          response_json ← call (submit_request pool_handle checker_request)
          response ← of_result (loads response_json)
          applied ← of_result (without_type_error (checker response))
          if applied then ret (some (dumps response)) else again

    unfoldable pub ensure_previous_request_applied : Script F (Option JsonText)
    unfolding tries
    ensure_previous_request_applied = tries 3
