-- ===== src/FileServer.antt =====
-- server.py: the file server of a node, which gives the genesis files of the pool and of the domain ledger.
use indy_perf.Base.{ℕ, zero, suc, String, List}
use indy_perf.Exn.{Result, ok, ◌>>=◌}
use indy_perf.Server.Responses.{Response, text_response}
use indy_perf.Server.Site.{read_text}

-- The first n characters of s.
unfoldable pub first_chars : ℕ → String → String
first_chars zero s = ""
first_chars (suc n) String.[] = ""
first_chars (suc n) (String.◌∷◌ c s) = String.◌∷◌ c (first_chars n s)

-- open(path, 'r').read(int(1E9)), as a text response
unfoldable pub served : String → List (String × String) → Result Response
unfolding first_chars
served path files = do
  text ← read_text path files
  ok (text_response 200 (first_chars 1000000000 text))

-- GET /init
unfoldable pub get_genesis : List (String × String) → Result Response
get_genesis files = served "/var/lib/indy/prifob/pool_transactions_genesis" files

-- GET /domain
unfoldable pub get_domain : List (String × String) → Result Response
get_domain files = served "/var/lib/indy/prifob/domain_transactions_genesis" files
