-- ===== src/Server/Text/Raises.antt =====
-- What `ledger_text` answers.
use indy_perf.Base.{ℕ, ◌≡◌, refl, String, Bool, true, false, none, List, [], ◌∷◌, if◌then◌else◌}
use indy_perf.Base.Texts.{join}
use indy_perf.Exn.{value_error}
use indy_perf.Exec.{Outcome, returned, raised, waiting, resume, lift, pure, ◌>>=◌}
use indy_perf.Anchor.LedgerType.{text}
use indy_perf.Anchor.Cache.Schema.{TxnInfo}
use indy_perf.Anchor.Handle.State.{Env, State}
use indy_perf.Anchor.Handle.Fetch.{get_txn_range}
use indy_perf.Server.Responses.{Response, text_response, not_ready_response}
use indy_perf.Server.Text.{Formats, ledger_text, written, columns, taken_apart}

-- What becomes of the range of the ledger: an empty one is an empty text, and any transaction a ValueError.
abbrev pub after_range :
    {W : Type 0} → Outcome (List TxnInfo) × State W → Outcome Response × State W
after_range (returned [], h) = (returned (text_response 200 ""), h)
after_range (returned (i ∷ rows), h) = (raised value_error, h)
after_range (raised e, h) = (raised e, h)
after_range (waiting, h) = (waiting, h)

abbrev pub text_outcome :
    {W : Type 0} → Bool → State W → Outcome (List TxnInfo) × State W → Outcome Response × State W
text_outcome false h r = (returned not_ready_response, h)
text_outcome true h r = after_range r

module _ {W : Type 0} (env : Env W) (f : Formats) where
  texts_of :
      (r : Outcome (List TxnInfo) × State W)
      → resume
          (λ rows. lift (written env.codecs f true rows) >>= λ texts.
            pure (text_response 200 (join "" texts)))
          r
        ≡ after_range r
  unfolding written taken_apart columns join ◌>>=◌
  texts_of (returned [], h) = refl
  texts_of (returned (i ∷ rows), h) = refl
  texts_of (raised e, h) = refl
  texts_of (waiting, h) = refl

  by_ready :
      (fuel : ℕ) (ledger : String) (h : State W) (ready : Bool)
      → (if ready
            then (get_txn_range env fuel (text ledger) none none >>= λ rows.
                lift (written env.codecs f true rows) >>= λ texts.
                pure (text_response 200 (join "" texts)))
            else pure not_ready_response)
          h
        ≡ text_outcome ready h (get_txn_range env fuel (text ledger) none none h)
  unfolding ◌>>=◌
  by_ready fuel ledger h true = texts_of (get_txn_range env fuel (text ledger) none none h)
  by_ready fuel ledger h false = refl

  -- Whatever the anchor, its state and the fuel: ledger_text never writes a transaction. Not ready, it answers
  -- so and changes nothing. Ready, it ends as get_txn_range of the whole ledger ends: an exception or a wait
  -- stays one, an empty range is an empty text, and any other range is a ValueError, since a row has four
  -- columns and the loop takes it apart into three.
  pub ledger_text_outcome :
      (fuel : ℕ) (ledger : String) (h : State W)
      → ledger_text env f fuel ledger h
        ≡ text_outcome h.ready h (get_txn_range env fuel (text ledger) none none h)
  unfolding ledger_text ◌>>=◌
  ledger_text_outcome fuel ledger h = by_ready fuel ledger h h.ready
