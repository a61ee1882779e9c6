-- ===== src/Anchor/Genesis.antt =====
-- The genesis file: `resolve_genesis_file` and the globals that it sets.
pub mod Once
use indy_perf.Base.{
  String, Bool, true, false, not, ◌&&◌, Option, none, some, List, [], ◌∷◌, str_eq, if◌then◌else◌,
}
use indy_perf.Base.Texts.{is_empty}
use indy_perf.Exn.{Result, ok, err, anchor}
use indy_perf.Exec.{Exec, pure, raise, lift, gets, modify, ◌>>=◌, ◌>>◌}
use indy_perf.Json.{Json, truthy, JsonText, loads}

-- GENESIS_FILE, GENESIS_URL, GENESIS_VERIFIED, and the files that were written.
pub record Genesis : Type 0 where
  pub file : Option String
  pub url : Option String
  pub verified : Bool
  pub files : List (String × String)

-- aiohttp, the temporary file and the lines of a text.
pub record Download : Type 0 where
  -- the text at a URL; an exception where the request fails
  pub fetch : String → Result String
  pub splitlines : String → List String
  pub parse : String → JsonText
  pub temp_name : String

unfoldable pub exists : String → List (String × String) → Bool
exists p [] = false
exists p ((q, t) ∷ files) = if str_eq q p then true else exists p files

abbrev pub is_set : Option String → Bool
is_set none = false
is_set (some s) = not (is_empty s)

-- A file is there whose name is set.
unfoldable pub file_exists : Genesis → Bool
unfolding exists
file_exists g = elim g.file [ none ↦ false | some p ↦ not (is_empty p) && exists p g.files ]

invalid : Result Json
invalid = err (anchor "Genesis transaction file is not valid JSON")

-- `not lines or not json.loads(lines[0])`
checked : Download → List String → Result Json
unfolding invalid
checked d [] = invalid
checked d (l ∷ ls) = elim (loads (d.parse l)) [
  | err e ↦ err e
  | ok j ↦ if truthy j then ok j else invalid
]

unfoldable pub fetch_genesis_txn : Download → String → String → Exec Genesis Unit
unfolding checked
fetch_genesis_txn d url target = do
  text ← lift (d.fetch url)
  lift (checked d (d.splitlines text))
  modify (λ g. record g { files = (target, text) ∷ g.files })

unfoldable pub or_no_url : Option String → String
or_no_url none = ""
or_no_url (some u) = u

-- The file is looked for, or downloaded, once.
unfoldable pub find_genesis : Download → Exec Genesis Unit
unfolding file_exists fetch_genesis_txn or_no_url
find_genesis d = do
  by_url ← gets (λ g. is_set g.url)
  present ← gets file_exists
  if by_url
      then (do
        modify (λ g. record g { file = some d.temp_name; files = (d.temp_name, "") ∷ g.files })
        url ← gets (λ g. or_no_url g.url)
        fetch_genesis_txn d url d.temp_name)
      else if present
      then pure tt
      else raise (anchor "No genesis file or URL defined")

unfoldable pub resolve_genesis_file : Download → Exec Genesis (Option String)
unfolding find_genesis
resolve_genesis_file d = do
  verified ← gets (λ g. g.verified)
  if verified
      then gets (λ g. g.file)
      else (do find_genesis d; modify (λ g. record g { verified = true }); gets (λ g. g.file))

abbrev pub get_genesis_file : Genesis → Option String
get_genesis_file g = g.file
