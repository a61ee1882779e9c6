-- ===== src/Anchor/Handle/Validators.antt =====
-- `validator_info`: the reports of the validator nodes, in the order of their names.
use Prim.Native.Nat.{Ordering}
use Prim.Native.String.{compare}
use indy_perf.Base.{String, Bool, true, false, List, [], ◌∷◌, ◌++◌, if◌then◌else◌}
use indy_perf.Exn.{Result, ok, err, type_error, attribute_error, ◌>>=◌}
use indy_perf.Exec
use indy_perf.Exec.{Exec}
use indy_perf.Json.{Json, null, str, obj, keys, index, get, contains, loads}
use indy_perf.Anchor.Handle.State.{Env, State}
use indy_perf.Anchor.Handle.Signing.{set_item}
use indy_perf.Anchor.Handle.Requests.{submit_request, require_did}

str_le : String → String → Bool
str_le a b = elim (compare a b) [ Ordering.gt ↦ false | _ ↦ true ]

insert_name : String → List String → List String
insert_name s [] = s ∷ []
insert_name s (t ∷ l) = let rest = insert_name s l in if str_le s t then s ∷ t ∷ l else t ∷ rest

-- node_aliases.sort()
unfoldable pub sort_names : List String → List String
unfolding insert_name str_le
sort_names [] = []
sort_names (s ∷ l) = insert_name s (sort_names l)

aliases : Json → Result (List String)
aliases (obj f) = ok (keys f)
aliases _ = err attribute_error

-- data["Node_info"]["Name"] = node
named : String → Json → Result Json
unfolding set_item
named node data' = do
  node_info ← index data' "Node_info"
  node_info' ← set_item node_info "Name" (str node)
  set_item data' "Node_info" node_info'

module _ {W : Type 0} (env : Env W) where
  nested : Json → Result Json
  nested (str s) = loads (env.codecs.parse s)
  nested _ = err type_error

  report : String → Json → Result (List Json)
  unfolding named
  report node reply = do
    present ← contains reply "result_4"
    if present
        then (do
          result ← index reply "result_4"
          data' ← get result "data" null
          data'' ← named node data'
          ok (data'' ∷ []))
        else ok []

  unfoldable pub reports : Json → List String → Result (List Json)
  unfolding nested report
  reports node_data [] = ok []
  reports node_data (node ∷ nodes) = do
    raw ← index node_data node
    reply ← nested raw
    this ← report node reply
    rest ← reports node_data nodes
    ok (this ++ rest)

  unfoldable pub collect : Json → Result (List Json)
  unfolding aliases sort_names reports
  collect node_data = do names ← aliases node_data; reports node_data (sort_names names)

  unfoldable pub validator_info : Exec (State W) (List Json)
  unfolding submit_request collect
  validator_info = Exec.◌>>=◌ (require_did env) λ _.
      Exec.◌>>=◌ (Exec.gets (λ h. env.build_validator_info h.did)) λ r.
        Exec.◌>>=◌ (Exec.lift r) λ req_json.
          Exec.◌>>=◌ (submit_request env req_json true false)
            λ node_data. Exec.lift (collect node_data)
