-- ===== src/Server/StatusText.antt =====
-- `status_text`: the reports of the validators as plain text.
use indy_perf.Base.{String, List, [], ◌∷◌}
use indy_perf.Base.Texts.{join}
use indy_perf.Exn.{Exn, Result, ok, err, not_ready, type_error, ◌>>=◌}
use indy_perf.Exec
use indy_perf.Exec.{Exec}
use indy_perf.Json.{Json, str, index}
use indy_perf.Anchor.Handle.State.{Env, State}
use indy_perf.Anchor.Handle.Validators.{validator_info}
use indy_perf.Server.Responses.{Response, text_response, not_ready_response}

-- The reports, or the answer that ends the request.
pub data Asked : Type 0 where
  reported : List Json → Asked
  refused : Response → Asked

-- except NotReadyException
on_error : {W : Type 0} → Exn → Exec (State W) Asked
on_error not_ready = Exec.pure (refused not_ready_response)
on_error e = Exec.raise e

-- The name of a node, which is joined with the other lines.
name_text : Json → Result String
name_text (str s) = ok s
name_text _ = err type_error

-- The lines of the nodes: the name, the report as YAML, and empty lines behind both.
unfoldable pub node_lines : (Json → String) → List Json → Result (List String)
unfolding name_text
node_lines yaml [] = ok []
node_lines yaml (node ∷ nodes) = do
  info ← index node "Node_info"
  name ← index info "Name"
  id ← name_text name
  rest ← node_lines yaml nodes
  ok (id ∷ "" ∷ yaml node ∷ "" ∷ rest)

module _ {W : Type 0} (env : Env W) (yaml : Json → String) where
  text_of : Asked → Exec (State W) Response
  unfolding node_lines
  text_of (refused r) = Exec.pure r
  text_of (reported l) =
      Exec.◌>>=◌ (Exec.lift (node_lines yaml l))
        λ lines. Exec.pure (text_response 200 (join "\n" lines))

  unfoldable pub status_text : Exec (State W) Response
  unfolding validator_info on_error text_of
  status_text =
      Exec.◌>>=◌
        (Exec.catch (Exec.◌>>=◌ (validator_info env) (λ l. Exec.pure (reported l))) on_error)
        text_of
