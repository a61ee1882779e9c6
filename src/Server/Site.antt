-- ===== src/Server/Site.antt =====
-- server.py: what the pages are filled with, and the route of the genesis file.
pub mod Served
use Prim.Native.Char.{code}
use Prim.Native.String.{◌++◌ as str_append}
use indy_perf.Base.{
  String, Bool, true, false, Option, none, some, List, [], ◌∷◌, ◌==◌, ◌&&◌, str_eq, if◌then◌else◌,
}
use indy_perf.Base.Texts.{is_empty}
use indy_perf.Base.Integers.{ℤ}
use indy_perf.Environ.{Environ, or_default, int_text}
use indy_perf.Exn.{Result, ok, err, file_not_found, type_error, ◌>>=◌}
use indy_perf.Anchor.Genesis.{Genesis, get_genesis_file}
use indy_perf.Anchor.Handle.State.{State}
use indy_perf.Server.Responses.{Response, text_response}

-- The globals that are read when the module is loaded.
pub record Site : Type 0 where
  pub ledger_instance_name : String
  pub web_analytics_script : String
  pub info_site_url : Option String
  pub info_site_text : Option String

-- os.getenv(name) or os.getenv(other)
abbrev or_second : Option String → Option String → Option String
or_second none t = t
or_second (some s) t = if is_empty s then t else some s

unfoldable pub site : Environ → Site
site env = record {
  ledger_instance_name = or_default (env "LEDGER_INSTANCE_NAME") "Ledger Browser";
  web_analytics_script = or_default (env "WEB_ANALYTICS_SCRIPT") "";
  info_site_url = env "INFO_SITE_URL";
  info_site_text = or_second (env "INFO_SITE_TEXT") (env "INFO_SITE_URL");
}

-- What the log says of web analytics: the text that is tested is a literal, not the variable.
unfoldable pub web_analytics : Site → String
web_analytics s = if is_empty "WEB_ANALYTICS_SCRIPT" then "ENABLED" else "DISABLED"

-- What ledger.html is filled with.
unfoldable pub browse : Site → Site
browse s = s

-- What index.html is filled with; REGISTER_NEW_DIDS is the anchor's.
pub record IndexPage : Type 0 where
  pub register_new_dids : Bool
  pub site : Site

unfoldable pub index : {W : Type 0} → Site → State W → IndexPage
index s h = record { register_new_dids = h.register_dids; site = s }

-- The text that a file opened with "r" gives: \r\n and \r are \n. The flag says that the last character was
-- a \r.
unfoldable pub lines_read : Bool → String → String
lines_read after_cr String.[] = ""
lines_read after_cr (String.◌∷◌ c s) =
    let plain = lines_read false s in
    let ended = lines_read true s in
    if code c == 13
    then str_append "\n" ended
    else if after_cr && code c == 10
    then plain
    else String.◌∷◌ c plain

-- open(path, "r").read()
unfoldable pub read_text : String → List (String × String) → Result String
unfolding lines_read
read_text path [] = err file_not_found
read_text path ((q, t) ∷ files) =
    if str_eq q path then ok (lines_read false t) else read_text path files

-- GET /genesis. open(None) raises a TypeError.
unfoldable pub genesis : Genesis → Result Response
unfolding read_text
genesis g = elim (get_genesis_file g) [
  | none ↦ err type_error
  | some path ↦ do text ← read_text path g.files; ok (text_response 200 text)
]

-- The port of the web server.
unfoldable pub port : Environ → Result ℤ
port env = int_text (or_default (env "PORT") "8000")
