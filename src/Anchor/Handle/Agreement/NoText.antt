-- ===== src/Anchor/Handle/Agreement/NoText.antt =====
-- A configured author agreement that has no text.
use indy_perf.Base.{◌≡◌, refl, String, none}
use indy_perf.Exn.{ok, err, key_error}
use indy_perf.Exec.{raised, ◌>>=◌}
use indy_perf.Json.{Json, obj, Fields, field, lookup, index}
use indy_perf.Anchor.Handle.State.{Env, State}
use indy_perf.Anchor.Handle.Agreement.{AgreementEnv, read_config, log_taa, register_txn_agreement}

index-missing : (f : Fields) (k : String) → lookup k f ≡ none → index (obj f) k ≡ err (key_error k)
unfolding index
index-missing f k e = rw (index, e) refl

log_taa-missing :
    (k : String) (v : Json) (f : Fields)
    → lookup "text" (field k v f) ≡ none
    → log_taa (obj (field k v f)) ≡ err (key_error "text")
unfolding log_taa
log_taa-missing k v f e = rw (index-missing (field k v f) "text" e) refl

-- Where the AML configuration can be read, and the TAA configuration is a dict that is not empty and has
-- no "text": the registration raises a KeyError, not the AnchorException of an invalid configuration,
-- and sends nothing.
pub register_txn_agreement-no_text :
    {W : Type 0} (env : Env W) (a : AgreementEnv W) (h : State W) (aml : Json) (k : String)
    (v : Json) (f : Fields)
    → read_config a.aml_file ≡ ok aml
    → read_config a.taa_file ≡ ok (obj (field k v f))
    → lookup "text" (field k v f) ≡ none
    → register_txn_agreement env a h ≡ (raised (key_error "text"), h)
unfolding register_txn_agreement ◌>>=◌
register_txn_agreement-no_text env a h aml k v f x y e = rw (x, y, log_taa-missing k v f e) refl
