-- ===== src/Anchor/Handle/Agreement/Keeps.antt =====
-- Registering the agreements keeps what a request and the acceptance keep.
use indy_perf.Base.{String, Bool, Option, some}
use indy_perf.Exn.{Result}
use indy_perf.Exec.{lift, gets}
use indy_perf.Exec.Runs.{Within, Runs-modify, Keeps-lift, Keeps-bind, Keeps-gets, keeps_rules}
use indy_perf.Json.{Json, JsonText}
use indy_perf.Anchor.Handle.State.{Env, State}
use indy_perf.Anchor.Handle.Holds.{Within-submit_request}
use indy_perf.Anchor.Handle.Requests.{submit_request}
use indy_perf.Anchor.Handle.Agreement.{
  AgreementEnv, published, is_outdated, and_field, publish_aml, aml_methods, plaintext_of,
  publish_taa, taa_plaintext, accept, register_txn_agreement,
}

module _ {W : Type 0} {P : State W → Type 0} (D : State W → Type 0)
    (stable : (h : State W) (w : W) → P h → P (record h { world = w }))
    (accepting : (h : State W) (j : Json) → P h → P (record h { taa_accept = some j }))
    (env : Env W) (a : AgreementEnv W) where
  Keeps-submit_request :
      (req : JsonText) (signed apply_taa : Bool)
      → Within P D (submit_request env req signed apply_taa)
  Keeps-submit_request = Within-submit_request D stable env

  Keeps-published : (build : Option String → Result JsonText) → Within P D (published env a build)
  unfolding published
  Keeps-published build = search (keeps_rules, Keeps-submit_request) depth 8

  Keeps-is_outdated : (found config : Json) → Within P D (is_outdated env a found config)
  unfolding is_outdated
  Keeps-is_outdated found config = search keeps_rules depth 8

  Keeps-publish_aml : (config : Json) → Within P D (publish_aml env a config)
  unfolding publish_aml
  Keeps-publish_aml config = search (keeps_rules, Keeps-submit_request) depth 10

  Keeps-and_field : (found : Json) (k : String) → Within P D (and_field env a found k)
  unfolding and_field
  Keeps-and_field found k = search keeps_rules

  Keeps-aml_methods : (config : Json) → Within P D (aml_methods env a config)
  unfolding aml_methods
  Keeps-aml_methods config =
      search (keeps_rules, Keeps-published, Keeps-and_field, Keeps-is_outdated, Keeps-publish_aml)
        depth 8

  Keeps-plaintext_of : (j : Json) → Within P D (plaintext_of env a j)
  unfolding plaintext_of
  Keeps-plaintext_of j = search keeps_rules depth 8

  Keeps-publish_taa : (config : Json) → Within P D (publish_taa env a config)
  unfolding publish_taa
  Keeps-publish_taa config = search (keeps_rules, Keeps-submit_request, Keeps-plaintext_of) depth 10

  Keeps-taa_plaintext : (config : Json) → Within P D (taa_plaintext env a config)
  unfolding taa_plaintext
  Keeps-taa_plaintext config =
      search
        (keeps_rules, Keeps-published, Keeps-plaintext_of, Keeps-is_outdated, Keeps-publish_taa)
        depth 8

  Keeps-accept : (methods plaintext : Json) → Within P D (accept env a methods plaintext)
  unfolding accept
  Keeps-accept methods plaintext = Keeps-bind (gets (λ h. a.today h.world)) _ (Keeps-gets _) λ t.
      Keeps-bind (lift _) _ (Keeps-lift _) λ text.
        Keeps-bind (lift _) _ (Keeps-lift _) λ mechanism. Runs-modify _ (λ h p. accepting h _ p)

  pub Keeps-register_txn_agreement : Within P D (register_txn_agreement env a)
  unfolding register_txn_agreement
  Keeps-register_txn_agreement =
      search (keeps_rules, Keeps-aml_methods, Keeps-taa_plaintext, Keeps-accept) depth 12
