-- ===== src/Json/Wire.antt =====
-- JSON texts. A text that `json.dumps` wrote is represented by the value that was written, whatever
-- the separators, the indentation and the order of keys; any other text is one that does not parse.
use indy_perf.Base.{String}
use indy_perf.Json.Values.{Json}
use indy_perf.Exn.{Result, ok, err, decode_error}

pub data JsonText : Type 0 where
  dumped : Json → JsonText
  garbage : String → JsonText

-- json.dumps
abbrev pub dumps : Json → JsonText
dumps = dumped

-- json.loads
abbrev pub loads : JsonText → Result Json
loads (dumped j) = ok j
loads (garbage s) = err decode_error
