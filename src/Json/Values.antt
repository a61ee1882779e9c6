-- ===== src/Json/Values.antt =====
-- The dynamic operations that the program makes on a parsed value, with what they raise.
use indy_perf.Base.{
  ℕ, zero, suc, String, Bool, true, false, not, Option, none, some, List, [], ◌∷◌, if◌then◌else◌,
  str_eq,
}
use indy_perf.Base.Texts.{is_empty, explode}
use indy_perf.Exn.{Result, ok, err, key_error, type_error, attribute_error, ◌>>=◌}

mutual
  pub data Json : Type 0 where
    null : Json
    bool : Bool → Json
    num : ℕ → Json
    str : String → Json
    arr : Items → Json
    obj : Fields → Json

  pub data Items : Type 0 where
    nil : Items
    cons : Json → Items → Items

  pub data Fields : Type 0 where
    end : Fields
    field : String → Json → Fields → Fields

-- bool(j)
abbrev pub truthy : Json → Bool
truthy null = false
truthy (bool b) = b
truthy (num zero) = false
truthy (num (suc n)) = true
truthy (str s) = not (is_empty s)
truthy (arr nil) = false
truthy (arr (cons j l)) = true
truthy (obj end) = false
truthy (obj (field k j f)) = true

unfoldable pub lookup : String → Fields → Option Json
lookup k end = none
lookup k (field j v f) = if str_eq j k then some v else lookup k f

-- f[k] = v: in place if the key is there, at the end if it is new.
unfoldable pub dict_set : String → Json → Fields → Fields
dict_set k v end = field k v end
dict_set k v (field j w f) =
    let rest = dict_set k v f in if str_eq j k then field j v f else field j w rest

-- list(f.keys())
unfoldable pub keys : Fields → List String
keys end = []
keys (field k v f) = k ∷ keys f

found_or : Option Json → Json → Json
found_or none d = d
found_or (some v) d = v

-- j[k] for a text k: only a dict takes one.
unfoldable pub index : Json → String → Result Json
index (obj f) k = elim (lookup k f) [ none ↦ err (key_error k) | some v ↦ ok v ]
index _ k = err type_error

-- j.get(k, d): only a dict has the method.
unfoldable pub get : Json → String → Json → Result Json
unfolding found_or
get (obj f) k d = ok (found_or (lookup k f) d)
get _ k d = err attribute_error

is_found : Option Json → Bool
is_found none = false
is_found (some v) = true

holds : String → Items → Bool
holds k nil = false
holds k (cons (str s) l) = if str_eq s k then true else holds k l
holds k (cons _ l) = holds k l

-- k in j, for a dict or a list. The program asks it of dicts; of a text it is not modelled.
unfoldable pub contains : Json → String → Result Bool
unfolding is_found holds
contains (obj f) k = ok (is_found (lookup k f))
contains (arr l) k = ok (holds k l)
contains _ k = err type_error

item_texts : Items → Result (List String)
item_texts nil = ok []
item_texts (cons (str s) l) = do rest ← item_texts l; ok (s ∷ rest)
item_texts (cons _ l) = err type_error

-- The texts that `sep.join(j)` joins: the items of a list, the keys of a dict, the characters of a text.
unfoldable pub texts : Json → Result (List String)
unfolding item_texts
texts (arr l) = item_texts l
texts (obj f) = ok (keys f)
texts (str s) = ok (explode s)
texts _ = err type_error
