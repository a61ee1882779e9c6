-- ===== src/Server/Text.antt =====
-- `ledger_text`: the transactions of a ledger as plain text.
pub mod Raises
use Prim.Native.String.{◌++◌}
use indy_perf.Base.{◌++◌ as lists}
use indy_perf.Base.{
  ℕ, String, Bool, true, false, ◌||◌, none, some, List, [], ◌∷◌, str_eq, if◌then◌else◌,
}
use indy_perf.Base.Texts.{join, show}
use indy_perf.Exn.{Result, ok, err, type_error, value_error, ◌>>=◌}
use indy_perf.Exec
use indy_perf.Exec.{Exec}
use indy_perf.Json.{Json, null, str, index, get, JsonText, loads}
use indy_perf.Anchor.Ident.{Ident, int, text}
use indy_perf.Anchor.LedgerType
use indy_perf.Anchor.Terms.{Codecs, py_str}
use indy_perf.Anchor.Terms.Roles.{indy_txn_types, indy_role_types, name_of}
use indy_perf.Anchor.Cache.Schema.{Time, TxnInfo}
use indy_perf.Anchor.Handle.State.{Env, State}
use indy_perf.Anchor.Handle.Fetch.{get_txn_range}
use indy_perf.Server.Responses.{Response, text_response, not_ready_response}

-- How values are printed: the local time of a timestamp, and JSON with indents.
pub record Formats : Type 0 where
  pub strftime : Json → Result String
  pub indented : Json → String

concat : List (List String) → List String
concat [] = []
concat (l ∷ ls) = lists l (concat ls)

-- TYPES.get(k, k), for a text k; another value cannot be joined to a text later.
unfoldable pub name_or_self : Json → List (String × String) → Result String
unfolding name_of
name_or_self (str s) l = elim (name_of s l) [ none ↦ ok s | some n ↦ ok n ]
name_or_self _ l = err type_error

-- label + j
labelled : String → Json → Result String
labelled label (str s) = ok (label ++ s)
labelled label _ = err type_error

-- `if j is not None: text.append(…)`
unless_none : Json → (Json → Result String) → Result (List String)
unless_none null f = ok []
unless_none j f = do s ← f j; ok (s ∷ [])

-- The lines of a NYM.
unfoldable pub nym_lines : String → Json → Result (List String)
unfolding labelled unless_none name_or_self concat
nym_lines type_name data' =
    if str_eq type_name "NYM"
    then (do
      dest ← index data' "dest"
      dest_line ← labelled "DEST: " dest
      role ← get data' "role" null
      role_lines ← unless_none role (λ r. do n ← name_or_self r indy_role_types; ok ("ROLE: " ++ n))
      verkey ← get data' "verkey" null
      verkey_lines ← unless_none verkey (labelled "VERKEY: ")
      ok (dest_line ∷ concat (role_lines ∷ verkey_lines ∷ [])))
    else ok []

-- The columns of a row, as the SELECT of get_txn_range has them.
pub data Column : Type 0 where
  number : Ident → Column
  id : Json → Column
  time : Time → Column
  value : JsonText → Column

unfoldable pub columns : TxnInfo → List Column
columns i = number i.ident ∷ id i.txnid ∷ time i.added ∷ value i.value ∷ []

-- `seq_no, added, row = ...` of a sequence: a ValueError unless it has three items.
unfoldable pub taken_apart : {A : Type 0} → List A → Result (A × A × A)
taken_apart (a ∷ b ∷ c ∷ []) = ok (a, b, c)
taken_apart _ = err value_error

-- json.loads(row): a value that is no text raises a TypeError.
unfoldable pub json_of : Codecs → Column → Result Json
json_of c (value t) = loads t
json_of c (id (str s)) = loads (c.parse s)
json_of c _ = err type_error

-- str(seq_no), of a number; the first column is one.
seqno_text : Column → String
seqno_text (number (int n)) = show n
seqno_text (number (text s)) = s
seqno_text _ = ""

module _ (c : Codecs) (f : Formats) where
  -- The lines of the data of a schema, and the data that the lines after it read.
  unfoldable pub data_lines : String → Json → Result (List String × Json)
  data_lines type_name data' =
      if str_eq type_name "SCHEMA" || str_eq type_name "CLAIM_DEF" || str_eq type_name "NODE"
      then (do d ← get data' "data" null; ok ("DATA:" ∷ f.indented d ∷ [], d))
      else ok ([], data')

  -- The lines of a transaction, in order.
  unfoldable pub txn_lines : Column → Json → Result (List String)
  unfolding name_or_self nym_lines data_lines seqno_text labelled unless_none concat
  txn_lines seq_no row = do
    txn ← index row "txn"
    data' ← index txn "data"
    metadata ← index txn "metadata"
    txn_type ← index txn "type"
    type_name ← name_or_self txn_type indy_txn_types
    ident ← get metadata "from" null
    from_line ← unless_none ident (labelled "FROM: ")
    nym ← nym_lines type_name data'
    txn_time ← get txn "txnTime" null
    time_line ← unless_none txn_time (λ t. do s ← f.strftime t; ok ("TIME: " ++ s))
    req_id ← get metadata "reqId" null
    req_line ← unless_none req_id (λ j. ok ("REQ ID: " ++ py_str c j))
    ref_no ← get data' "ref" null
    ref_line ← unless_none ref_no (λ j. ok ("REF: " ++ py_str c j))
    txn_metadata ← index row "txnMetadata"
    txn_id ← get txn_metadata "txnId" null
    id_line ← unless_none txn_id (labelled "TXN ID: ")
    (shown, data'') ← data_lines type_name data'
    sig ← get data'' "signature" null
    sig_line ← unless_none sig (labelled "SIGNATURE: ")
    sig_type ← get data'' "signature_type" null
    sig_type_line ← unless_none sig_type (labelled "SIGNATURE TYPE: ")
    let head : String = "[" ++ seqno_text seq_no ++ "]  TYPE: " ++ type_name
    ok (
        concat (
          (head ∷ [])
          ∷ from_line
          ∷ nym
          ∷ time_line
          ∷ req_line
          ∷ ref_line
          ∷ id_line
          ∷ shown
          ∷ sig_line
          ∷ sig_type_line
          ∷ ("" ∷ [])
          ∷ []))

  -- What is written for the rows, with an empty line between two.
  unfoldable pub written : Bool → List TxnInfo → Result (List String)
  unfolding columns taken_apart json_of txn_lines
  written first [] = ok []
  written first (i ∷ rows) = do
    (seq_no, added, row) ← taken_apart (columns i)
    j ← json_of c row
    lines ← txn_lines seq_no j
    rest ← written false rows
    ok (join "\n" (if first then lines else "" ∷ lines) ∷ rest)

module _ {W : Type 0} (env : Env W) (f : Formats) where
  -- The whole text; where writing raises, the response has begun and breaks off.
  unfoldable pub ledger_text : ℕ → String → Exec (State W) Response
  unfolding get_txn_range written
  ledger_text fuel ledger = Exec.◌>>=◌ (Exec.gets (λ h. h.ready)) λ ready.
      if ready
      then (Exec.◌>>=◌ (get_txn_range env fuel (LedgerType.text ledger) none none) λ rows.
          Exec.◌>>=◌ (Exec.lift (written env.codecs f true rows))
            λ texts. Exec.pure (text_response 200 (join "" texts)))
      else Exec.pure not_ready_response
