-- ===== src/Tests/Server.antt =====
-- The routes at the small world.
use indy_perf.Base.{
  ℕ, ◌+◌, ◌-◌, ◌/◌, ◌≤◌, ◌↔◌, ◌≡◌, refl, true, false, ◌⊎◌, none, some, [], ◌∷◌, length, arith,
}
use indy_perf.Exn.{ok}
use indy_perf.Exec.{returned}
use indy_perf.Anchor.Handle.Fetch.{get_txn_range}
use indy_perf.Anchor.LedgerType.{domain, text, member}
use indy_perf.Anchor.Seeds as Seeds
use indy_perf.Anchor.Seeds.{codes, ascii, seed_as_bytes}
use indy_perf.Anchor.Handle.State.{State}
use indy_perf.Anchor.Handle.Requests.{public_config}
use indy_perf.Anchor.Handle.Calls.{open_anchor, init, run}
use indy_perf.Server.Responses.{not_ready_response, json_response, status_body, status, ledger_seq}
use indy_perf.Server.StatusText.{status_text}
use indy_perf.Server.Register.{Body, padded, seed_text, check_seed, register}
use indy_perf.Server.Register.Padding.{filled, check_seed-plain}
use indy_perf.Server.Pages.{first_of, last_of}
use indy_perf.Server.Pages.Windows.{on_one_page}
use indy_perf.Exec.Runs.{Stops}
use indy_perf.Anchor.Genesis.{Genesis, is_set, file_exists, resolve_genesis_file}
use indy_perf.Server.Site.Served.{Downloaded, Found, genesis-served}
use indy_perf.Server.Text.{Formats, ledger_text}
use indy_perf.Server.Text.Raises.{text_outcome, ledger_text_outcome}
use indy_perf.Server.Unready.{routes-unready}
use indy_perf.Tests.World.{env, boot, fresh}

abbrev formats : Formats
formats = record { strftime = λ t. ok "2020-01-01 00:00:00"; indented = λ j. "{}" }

abbrev body : Body
body = record { seed = some "my_seed"; did = none; verkey = none; alias = none; role = none }

routes-unready_example :
    (ledger_seq env "domain" "1" fresh ≡ (returned not_ready_response, fresh))
    × (ledger_text env formats 10 "domain" fresh ≡ (returned not_ready_response, fresh))
    × (register env boot.keys (some body) fresh ≡ (returned not_ready_response, fresh))
    × (status_text env (λ j. "{}") fresh ≡ (returned not_ready_response, fresh))
    × (status env (some "1") fresh
        ≡ (returned (json_response 200 (status_body (public_config fresh) none)), fresh))
unfolding indy_perf.Anchor.LedgerType.for_value
routes-unready_example =
    routes-unready env boot.keys formats 10 domain (λ j. "{}") "domain" "1" (some body) (some "1")
      fresh refl refl

check_seed-plain_example :
    (check_seed boot.keys "my_seed" ≡ ok (seed_text (padded "my_seed")))
    × (length (filled "my_seed") ≡ 32)
    × (seed_as_bytes boot.keys (Seeds.text (padded "my_seed")) ≡ ascii (filled "my_seed"))
unfolding codes indy_perf.Server.Register.ends_with_equals
check_seed-plain_example = check_seed-plain boot.keys "my_seed" refl (omega arith)

-- The anchor after its first sync.
abbrev synced : State ℕ
synced = run boot 10 (open_anchor ∷ init ∷ []) fresh

ledger_text_outcome_example :
    ledger_text env formats 10 "domain" synced
    ≡ text_outcome synced.ready synced (get_txn_range env 10 (text "domain") none none synced)
ledger_text_outcome_example = ledger_text_outcome env formats 10 "domain" synced

on_one_page_example : ((first_of 2 100 ≤ 101) × (101 ≤ last_of 2 100)) ↔ (2 ≡ (101 - 1) / 100 + 1)
on_one_page_example = on_one_page 101 2 100 (omega arith) (omega arith) (omega arith)

-- The anchor's file is there, and a URL is given.
abbrev by_url : Genesis
by_url = record {
  file = some "genesis";
  url = some "https://example.com/genesis";
  verified = false;
  files = ("genesis", "{}\r\n") ∷ [];
}

genesis-served_example :
    Stops
      (λ f g'. Downloaded boot.download by_url g' ⊎ Found by_url g')
      (λ g'. (is_set by_url.url ≡ true) ⊎ (file_exists by_url ≡ false))
      (λ g'. ⊥)
      (resolve_genesis_file boot.download by_url)
genesis-served_example = genesis-served boot.download by_url refl
