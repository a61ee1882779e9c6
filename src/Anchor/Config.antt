-- ===== src/Anchor/Config.antt =====
-- The constants that anchor.py reads from the environment, and the handle that is made of them.
use indy_perf.Base.{String, Bool, false, not, ◌&&◌, Option, none, some, List, str_eq, if◌then◌else◌}
use indy_perf.Base.Texts.{is_empty}
use indy_perf.Base.Integers.{ℤ}
use indy_perf.Environ.{Environ, or_default, or_else_empty, int_text, lower}
use indy_perf.Exn.{Result, ok, ◌>>=◌}
use indy_perf.Anchor.LedgerType.{same_codes}
use indy_perf.Anchor.Seeds.{Seed, Keys, seed_as_bytes}
use indy_perf.Anchor.Genesis.{Genesis, is_set}
use indy_perf.Anchor.Handle.State.{State, Lock}

-- bool(v and v != "0" and v.lower() != "false")
unfoldable pub flag : Option String → Bool
unfolding lower same_codes
flag none = false
flag (some v) = not (is_empty v) && not (str_eq v "0") && not (same_codes (lower v) (lower "false"))

pub record Config : Type 0 where
  pub max_fetch : ℤ
  pub resync_time : ℤ
  pub genesis_file : String
  pub genesis_url : Option String
  pub anonymous : Bool
  pub ledger_seed : Option String
  pub register_new_dids : Bool
  pub aml_config : String
  pub taa_config : String

-- `if not LEDGER_SEED and not ANONYMOUS`
unfoldable pub seed_or_trustee : Option String → Bool → Option String
seed_or_trustee seed anonymous =
    if not (is_set seed) && not anonymous then some "000000000000000000000000Trustee1" else seed

abbrev pub constants : Environ → ℤ → ℤ → Config
constants env max_fetch resync_time = record {
  max_fetch = max_fetch;
  resync_time = resync_time;
  genesis_file =
      or_else_empty (env "GENESIS_FILE") "/home/indy/ledger/sandbox/pool_transactions_genesis";
  genesis_url = env "GENESIS_URL";
  anonymous = flag (env "ANONYMOUS");
  ledger_seed = seed_or_trustee (env "LEDGER_SEED") (flag (env "ANONYMOUS"));
  register_new_dids = flag (env "REGISTER_NEW_DIDS");
  aml_config = or_default (env "AML_CONFIG_FILE") "/home/indy/config/aml.json";
  taa_config = or_default (env "TAA_CONFIG_FILE") "/home/indy/config/taa.json";
}

-- A number that does not parse ends the load of the module.
unfoldable pub config : Environ → Result Config
config env = do
  max_fetch ← int_text (or_default (env "MAX_FETCH") "50000")
  resync_time ← int_text (or_default (env "RESYNC_TIME") "120")
  ok (constants env max_fetch resync_time)

-- The globals of the genesis file, with the files that are there.
abbrev pub genesis_of : Config → List (String × String) → Genesis
genesis_of c files = record {
  file = some c.genesis_file;
  url = c.genesis_url;
  verified = false;
  files = files;
}

seed_value : Option String → Seed
seed_value none = Seed.no_seed
seed_value (some s) = Seed.text s

-- AnchorHandle()
unfoldable pub anchor_handle : {W : Type 0} → Keys → Config → W → Result (State W)
unfolding seed_value
anchor_handle keys c w = do
  seed ← seed_as_bytes keys (seed_value c.ledger_seed)
  ok (record {
    anonymous = c.anonymous;
    cache = none;
    did = none;
    init_error = none;
    pool = none;
    ready = false;
    ledger_lock = Lock.absent;
    register_dids = c.register_new_dids && not c.anonymous;
    seed = seed;
    sync_lock = Lock.absent;
    syncing = false;
    taa_accept = none;
    verkey = none;
    world = w;
  })
