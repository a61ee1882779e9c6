-- ===== src/Json.antt =====
-- The values of `json.loads`: Python's dicts, lists, texts, numbers, booleans and None. A dict is
-- its list of entries in insertion order, each key once. Numbers are the natural ones.
mod Values
mod Equality
mod Wire
pub use Values.{Json, null, bool, num, str, arr, obj, Items, nil, cons, Fields, end, field}
unfoldable pub use Values.{truthy, lookup, dict_set, keys, index, get, contains, texts}
unfoldable pub use Equality.{json_eq}
pub use Wire.{JsonText, dumped, garbage}
unfoldable pub use Wire.{loads, dumps}
