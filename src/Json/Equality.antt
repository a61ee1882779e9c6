-- ===== src/Json/Equality.antt =====
-- Python's `==` on parsed values: dicts are compared without regard to the order of their entries.
use indy_perf.Base.{ℕ, suc, Bool, true, false, ◌&&◌, none, some, ◌==◌, str_eq}
use indy_perf.Json.Values.{
  Json, null, bool, num, str, arr, obj, Items, nil, cons, Fields, end, field, lookup,
}

-- True is 1 and False is 0.
bool_num : Bool → ℕ
bool_num true = 1
bool_num false = 0

-- len(f)
size : Fields → ℕ
size end = 0
size (field k v f) = suc (size f)

mutual
  unfolding bool_num size lookup

  json_eq_rec : Json → Json → Bool
  json_eq_rec null null = true
  json_eq_rec (bool a) (bool b) = bool_num a == bool_num b
  json_eq_rec (bool a) (num n) = bool_num a == n
  json_eq_rec (num n) (bool b) = n == bool_num b
  json_eq_rec (num m) (num n) = m == n
  json_eq_rec (str s) (str t) = str_eq s t
  json_eq_rec (arr l) (arr m) = items_eq l m
  json_eq_rec (obj f) (obj g) = size f == size g && fields_eq f g
  json_eq_rec _ _ = false

  items_eq : Items → Items → Bool
  items_eq nil nil = true
  items_eq (cons j l) (cons k m) = json_eq_rec j k && items_eq l m
  items_eq _ _ = false

  fields_eq : Fields → Fields → Bool
  fields_eq end g = true
  fields_eq (field k v f) g =
      elim (lookup k g) [ none ↦ false | some w ↦ json_eq_rec v w ] && fields_eq f g

-- a == b
unfoldable pub json_eq : Json → Json → Bool
unfolding json_eq_rec
json_eq a b = json_eq_rec a b
