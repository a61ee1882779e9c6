-- ===== src/Scripts/Storage.antt =====
-- What cred_def.py and set_did_metadata.py have in common: the wallet that they read from the environment,
-- and their start with the plugin of the wallet storage. Both texts of the scripts are the same here.
use Prim.Native.String.{◌++◌ as str_append}
use indy_perf.Base.{zero, String}
use indy_perf.Base.Integers.{ℤ, pos, show_int}
use indy_perf.Environ.{Environ, or_default}
use indy_perf.Exn.{name_error, Result, ok, ◌>>=◌}
use indy_perf.Json.{str, obj, field, end, JsonText, loads, dumps}
use indy_perf.Scripts.Program.{Script, say, throw, printed}

pub record WalletTexts : Type 0 where
  pub config : JsonText
  pub credentials : JsonText

-- `parse` is the text of a variable as a JSON text.
unfoldable pub wallet_texts : (String → JsonText) → Environ → Result WalletTexts
wallet_texts parse env = do
  storage_config ← loads (parse (or_default (env "storageConfig") "{\"url\":\"localhost:5435\"}"))
  storage_credentials ← loads (
      parse (
        or_default (env "storageCredentials")
          "{\"account\":\"DB_USER\",\"password\":\"DB_PASSWORD\",\"admin_account\":\"postgres\",\"admin_password\":\"mysecretpassword\"}"))
  ok (record {
    config = dumps (
        obj (
          field "id" (str (or_default (env "walletName") "local_wallet")) (
            field "storage_type" (str (or_default (env "storageType") "postgres_storage"))
              (field "storage_config" storage_config end))));
    credentials = dumps (
        obj (
          field "key" (str (or_default (env "walletKey") "key"))
            (field "storage_credentials" storage_credentials end)));
  })

-- `if __name__ == '__main__'`, with what the plugin's postgresstorage_init returns. Where that is not 0, the
-- name `parser`, which no module defines, is an error.
unfoldable pub started : {F : Type 0} → ℤ → Script F Unit → Script F Unit
started (pos zero) main = say (printed "Loading postgres") (say (printed "0") main)
started result main = say (printed "Loading postgres") (
    say (printed (str_append "Error unable to load wallet storage " (show_int result)))
      (throw name_error))
