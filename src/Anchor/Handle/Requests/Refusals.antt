-- ===== src/Anchor/Handle/Requests/Refusals.antt =====
-- Which requests `submit_request` sends, and which replies it returns.
use indy_perf.Base.{◌≡◌, ◌≢◌, refl, ap, inl, inr, Bool-cases, Bool}
use indy_perf.Exn.{Exn, Result, ok, err, ◌>>=◌}
use indy_perf.Exec.{lift, gets}
use indy_perf.Exec.Runs.{Stops, Triple, Runs-bind, Runs-lift, Keeps-lift, Keeps-gets}
use indy_perf.Anchor.Handle.Holds.{Within-send}
use indy_perf.Json.{Json, str, get, index, JsonText, loads}
use indy_perf.Anchor.Handle.State.{Env, State}
use indy_perf.Anchor.Handle.Signing.{is_refusal, refusal, accepted}
use indy_perf.Anchor.Handle.Requests.{send, prepared, submit_request}

-- The reply's "op" is there to read, or missing, and does not refuse.
pub record IsAccepted (resp : Json) : Type 0 where
  pub op : Json
  pub reads : get resp "op" (str "") ≡ ok op
  pub no_nack : op ≢ str "REQNACK"
  pub no_reject : op ≢ str "REJECT"

not_ok : (x : Exn) (a : Json) → err x ≢ ok a
not_ok x a e = cc

reason_raises : (r : Result Json) (a : Json) (f : Json → Exn) → (r >>= λ j. err (f j)) ≢ ok a
reason_raises (ok j) a f e = cc
reason_raises (err x) a f e = cc

module _ {W : Type 0} (env : Env W) where
  refusal-err : (resp a : Json) → refusal env resp ≢ ok a
  unfolding refusal
  refusal-err resp a = reason_raises (index resp "reason") a _

  ok_inj : (a b : Json) → ok a ≡ ok b → a ≡ b
  ok_inj a b e = cc

  op_accepted :
      (resp a op : Json) → get resp "op" (str "") ≡ ok op → accepted env resp ≡ ok a → IsAccepted a
  unfolding accepted
  op_accepted resp a op e h = elim (Bool-cases (is_refusal op)) [
    | inl bad ↦ absurd (refusal-err resp a (rw (e, bad) at h))
    | inr good ↦ record {
      op = op;
      reads = rw (← ok_inj resp a (rw (e, good) at h)) e;
      no_nack = λ q. cc (good, ap is_refusal q);
      no_reject = λ q. cc (good, ap is_refusal q);
    }
  ]

  accepted-IsAccepted :
      (resp a : Json) (r : Result Json)
      → get resp "op" (str "") ≡ r
      → accepted env resp ≡ ok a
      → IsAccepted a
  unfolding accepted
  accepted-IsAccepted resp a (ok op) e h = op_accepted resp a op e h
  accepted-IsAccepted resp a (err x) e h = absurd (not_ok x a (rw e at h))

  Runs-submit_request :
      (req : JsonText) (signed apply_taa : Bool)
      → Triple
          (λ h. Unit {0})
          (submit_request env req signed apply_taa)
          (λ resp h. IsAccepted resp)
          (λ h. Unit)
          (λ h. ⊥)
  unfolding submit_request
  Runs-submit_request req signed apply_taa =
      Runs-bind (gets (prepared env req signed apply_taa)) _ (Keeps-gets _) (λ r.
        Runs-bind (lift r) _ (Keeps-lift r) (λ req'.
          Runs-bind (send env req') _ (Within-send _ (λ h w p. tt) env req') (λ rv_json.
            Runs-bind (lift (loads rv_json)) _ (Keeps-lift _) (λ resp.
              Runs-lift (accepted env resp)
                (λ a h e p. accepted-IsAccepted resp a (get resp "op" (str "")) refl e)
                (λ h p. tt)))))

  -- `submit_request` comes back: it raises, or returns a reply whose "op" is neither REQNACK nor REJECT.
  pub submit_request-IsAccepted :
      (req : JsonText) (signed apply_taa : Bool) (h : State W)
      → Stops
          (λ resp h'. IsAccepted resp)
          (λ h'. Unit)
          (λ h'. ⊥)
          (submit_request env req signed apply_taa h)
  submit_request-IsAccepted req signed apply_taa h =
      (Runs-submit_request req signed apply_taa).at h tt
