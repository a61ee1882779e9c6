-- ===== src/Scripts/Replies.antt =====
-- What the scripts take out of a reply of the ledger.
use indy_perf.Base.{String, Bool, false, ◌||◌, List, [], ◌∷◌}
use indy_perf.Exn.{Result, ok, ◌>>=◌}
use indy_perf.Json.{Json, index, truthy}
use indy_perf.Anchor.Terms.{Codecs, loads_value, is_text}

-- json.loads(response['result_4']['data'])['verkey']
unfoldable pub queried_verkey : Codecs → Json → Result Json
queried_verkey codecs response = do
  result ← index response "result_4"
  found ← index result "data"
  nym ← loads_value codecs found
  index nym "verkey"

-- bool(rv["result_4"]["data"])
unfoldable pub has_data : Json → Result Bool
has_data rv = do result ← index rv "result_4"; found ← index result "data"; ok (truthy found)

-- name in {cfg["pool"] for cfg in pools}
unfoldable pub has_pool : String → List Json → Result Bool
has_pool name [] = ok false
has_pool name (cfg ∷ pools) = do
  pool ← index cfg "pool"
  rest ← has_pool name pools
  ok (is_text pool name || rest)
