-- ===== src/Server/Responses.antt =====
-- The answers of the web server, and the routes that ask the anchor once: `status` and `ledger_seq`.
use indy_perf.Base.{
  ℕ, String, Bool, true, false, not, ◌&&◌, Option, none, some, List, [], ◌∷◌, if◌then◌else◌,
}
use indy_perf.Base.Texts.{is_empty}
use indy_perf.Exn.{Exn, not_ready}
use indy_perf.Exec.{Exec, pure, raise, lift, gets, catch, ◌>>=◌}
use indy_perf.Json.{Json, null, bool, arr, str, obj, Items, nil, cons, end, field, loads}
use indy_perf.Anchor.Ident
use indy_perf.Anchor.LedgerType
use indy_perf.Anchor.Cache.Schema.{TxnInfo}
use indy_perf.Anchor.Handle.State.{Env, State}
use indy_perf.Anchor.Handle.Requests.{PublicConfig, public_config}
use indy_perf.Anchor.Handle.Fetch.{get_txn}
use indy_perf.Anchor.Handle.Validators.{validator_info}

-- With its status: a JSON body, a text, or no body.
pub data Response : Type 0 where
  json_response : ℕ → Json → Response
  text_response : ℕ → String → Response
  no_body : ℕ → Response

-- not_ready()
abbrev pub not_ready_response : Response
not_ready_response = json_response 503 (obj (field "detail" (str "Not ready") end))

-- except NotReadyException: return not_ready()
unfoldable pub on_not_ready : {W : Type 0} → Exn → Exec (State W) Response
on_not_ready not_ready = pure not_ready_response
on_not_ready e = raise e

unfoldable pub items : List Json → Items
items [] = nil
items (j ∷ l) = cons j (items l)

text_or_null : Option String → Json
text_or_null none = null
text_or_null (some s) = str s

-- `public_config` as a dict, and the report of the validators where it is asked for.
unfoldable pub status_body : PublicConfig → Option Json → Json
unfolding text_or_null
status_body c none = obj (
    field "anonymous" (bool c.anonymous) (
      field "init_error" (text_or_null c.init_error) (
        field "register_new_dids" (bool c.register_new_dids)
          (field "ready" (bool c.ready) (field "syncing" (bool c.syncing) end)))))
status_body c (some v) = obj (
    field "anonymous" (bool c.anonymous) (
      field "init_error" (text_or_null c.init_error) (
        field "register_new_dids" (bool c.register_new_dids) (
          field "ready" (bool c.ready)
            (field "syncing" (bool c.syncing) (field "validators" v end))))))

-- bool(request.query.get("validators"))
abbrev asked : Option String → Bool
asked none = false
asked (some s) = not (is_empty s)

module _ {W : Type 0} (env : Env W) where
  -- The exceptions of `validator_info`: not ready ends the request, any other is a null.
  unfoldable pub on_validators : PublicConfig → Exn → Exec (State W) Response
  unfolding status_body
  on_validators c not_ready = pure not_ready_response
  on_validators c e = pure (json_response 200 (status_body c (some null)))

  -- `validators` is the query parameter.
  unfoldable pub status : Option String → Exec (State W) Response
  unfolding public_config validator_info on_validators items status_body
  status validators = do
    c ← gets public_config
    if c.ready && not c.anonymous && asked validators
        then catch
            (do
              l ← validator_info env
              pure (json_response 200 (status_body c (some (arr (items l))))))
            (on_validators c)
        else pure (json_response 200 (status_body c none))

  found_txn : Option TxnInfo → Exec (State W) Response
  found_txn none = pure (no_body 404)
  found_txn (some i) = do j ← lift (loads i.value); pure (json_response 200 j)

  -- The texts of the path: the ledger, and the number or the ID of the transaction.
  unfoldable pub ledger_seq : String → String → Exec (State W) Response
  unfolding get_txn found_txn on_not_ready
  ledger_seq ledger ident =
      catch
        (do
          data' ← get_txn env (LedgerType.text ledger) (Ident.text ident) true false
          found_txn data')
        on_not_ready
