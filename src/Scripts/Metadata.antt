-- ===== src/Scripts/Metadata.antt =====
-- von-network/cli-scripts/set_did_metadata.py. `sha256` gives
-- the hash of a text in hexadecimal digits.
pub mod Merged
use Prim.Native.String.{◌++◌ as str_append}
use indy_perf.Base.{String, true, if◌then◌else◌}
use indy_perf.Exn as Exn
use indy_perf.Base.Integers.{ℤ}
use indy_perf.Environ.{Environ, or_default}
use indy_perf.Scripts.Storage.{wallet_texts, started}
use indy_perf.Exn.{Result, ok, err, type_error}
use indy_perf.Json.{Json, bool, str, obj, Fields, end, truthy, dict_set, JsonText, loads, dumps}
use indy_perf.Scripts.Calls.{open_wallet, set_did_metadata as set_metadata}
use indy_perf.Scripts.Program.{
  Script, ◌>>=◌, ◌>>◌, call, of_result, print_log, say, printed_json, ret, reporting,
}

-- What the script reads before it starts.
pub record Settings : Type 0 where
  pub wallet_config : JsonText
  pub wallet_credentials : JsonText
  pub wallet_did : String
  pub did_seed : String
  pub metadata : Json

unfoldable pub settings : (String → JsonText) → Environ → Result Settings
settings parse env = Exn.◌>>=◌ (wallet_texts parse env) (λ w.
    Exn.◌>>=◌ (loads (parse (or_default (env "didMetadata") "{}"))) (λ metadata. ok (record {
      wallet_config = w.config;
      wallet_credentials = w.credentials;
      wallet_did = or_default (env "walletDid") "VePGZfzvcgmT3GTdYgpDiT";
      did_seed = or_default (env "didSeed") "0000000000000000000000000MyAgent";
      metadata = metadata;
    })))

-- {**(metadata or {})}: only a dict is unpacked.
unfoldable pub unpacked : Json → Result Fields
unpacked (obj f) = ok f
unpacked j = if truthy j then err type_error else ok end

unfoldable pub did_metadata : Fields → String → Json
did_metadata f seed_hash =
    obj (dict_set "seed_hash" (str seed_hash) (dict_set "public" (bool true) f))

module _ {F : Type 0} (sha256 : String → String) (s : Settings) where
  unfoldable pub steps : Script F Unit
  unfolding did_metadata
  steps = do
    print_log "\nOpening wallet ...\n" ""
    say (printed_json "" s.wallet_config) (ret tt)
    say (printed_json "" s.wallet_credentials) (ret tt)
    wallet_handle ← call (open_wallet s.wallet_config s.wallet_credentials)
    print_log "\nGenerating seed hash ..." ""
    fields ← of_result (unpacked s.metadata)
    print_log "\nWriting metadata for DID ..." ""
    print_log (str_append "DID: " s.wallet_did) ""
    say (printed_json "Metadata: " (dumps (did_metadata fields (sha256 s.did_seed)))) (ret tt)
    call (set_metadata wallet_handle s.wallet_did (dumps (did_metadata fields (sha256 s.did_seed))))

  unfoldable pub set_did_metadata : Script F Unit
  set_did_metadata = reporting steps

-- The script: `result` is what the plugin of the wallet storage returns.
unfoldable pub script :
    {F : Type 0} (sha256 : String → String) (parse : String → JsonText) (env : Environ) (result : ℤ)
    → Script F Unit
script sha256 parse env result = do
  s ← of_result (settings parse env)
  started result (set_did_metadata sha256 s)
