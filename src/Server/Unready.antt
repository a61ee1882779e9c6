-- ===== src/Server/Unready.antt =====
-- The routes before the anchor is open, and after it is closed.
use indy_perf.Base.{ℕ, ◌≡◌, refl, String, false, Option, none}
use indy_perf.Exn.{ok}
use indy_perf.Exec.{returned, ◌>>=◌}
use indy_perf.Anchor.LedgerType.{LedgerType, text, for_value}
use indy_perf.Anchor.Seeds.{Keys}
use indy_perf.Anchor.Handle.State.{Env, State}
use indy_perf.Anchor.Handle.Requests.{public_config}
use indy_perf.Anchor.Handle.Fetch.{get_txn}
use indy_perf.Server.Responses.{
  not_ready_response, json_response, status_body, status, ledger_seq, on_not_ready,
}
use indy_perf.Json.{Json}
use indy_perf.Anchor.Handle.Validators.{validator_info}
use indy_perf.Server.StatusText.{status_text}
use indy_perf.Server.Register.{Body, register}
use indy_perf.Server.Text.{Formats, ledger_text}

-- While the anchor is not ready, the routes of a ledger that exists, `status_text`, and `register` with any
-- body, answer 503 and change nothing; `status` still answers 200 with the configuration, and asks no
-- validator.
pub routes-unready :
    {W : Type 0} (env : Env W) (k : Keys) (f : Formats) (fuel : ℕ) (t : LedgerType)
    (yaml : Json → String) (ledger ident : String) (body : Option Body) (validators : Option String)
    (h : State W)
    → h.ready ≡ false
    → for_value (text ledger) ≡ ok t
    → (ledger_seq env ledger ident h ≡ (returned not_ready_response, h))
      × (ledger_text env f fuel ledger h ≡ (returned not_ready_response, h))
      × (register env k body h ≡ (returned not_ready_response, h))
      × (status_text env yaml h ≡ (returned not_ready_response, h))
      × (status env validators h
          ≡ (returned (json_response 200 (status_body (public_config h) none)), h))
unfolding status_text validator_info ledger_seq ledger_text register status get_txn on_not_ready
    ◌>>=◌ public_config
routes-unready env k f fuel t yaml ledger ident body validators h e v =
    (rw (v, e) refl, rw e refl, rw e refl, rw e refl, rw e refl)
