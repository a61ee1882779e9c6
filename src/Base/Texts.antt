-- ===== src/Base/Texts.antt =====
-- Python's `str` where the program looks inside one: digits, slices, joins and decimal numbers.
use Prim.Native.Nat.{ℕ, zero, suc, ◌+◌, ◌-◌, ◌*◌, ◌/◌, ◌%◌}
use Prim.Native.Char.{code}
use Prim.Native.String.{String, ◌++◌}
use mathlib.Core.Bool.{Bool, true, false, ◌&&◌}
use mathlib.Core.List.{List, [], ◌∷◌}
use mathlib.Core.Option.{Option, none, some}
use indy_perf.Base.Tests.{leb, ltb, ◌==◌, if◌then◌else◌}

-- s[0] and s[1:], if s is not empty.
unfoldable pub uncons : String → Option (String × String)
uncons String.[] = none
uncons (String.◌∷◌ c s) = some (String.◌∷◌ c String.[], s)

-- The characters of s, each as a text.
unfoldable pub explode : String → List String
explode String.[] = []
explode (String.◌∷◌ c s) = String.◌∷◌ c String.[] ∷ explode s

-- s is falsy: it is the empty text.
abbrev pub is_empty : String → Bool
is_empty String.[] = true
is_empty (String.◌∷◌ c s) = false

digits_only : String → Bool
digits_only String.[] = true
digits_only (String.◌∷◌ c s) = leb b'0' (code c) && leb (code c) b'9' && digits_only s

-- s.isdigit(), on ASCII texts.
unfoldable pub is_digit : String → Bool
unfolding digits_only
is_digit s = if is_empty s then false else digits_only s

int_from : ℕ → String → ℕ
int_from acc String.[] = acc
int_from acc (String.◌∷◌ c s) = int_from (acc * 10 + (code c - b'0')) s

-- int(s), on a text of ASCII digits.
unfoldable pub int_of : String → ℕ
unfolding int_from
int_of s = int_from 0 s

-- sep.join(l)
unfoldable pub join : String → List String → String
join sep [] = ""
join sep (s ∷ []) = s
join sep (s ∷ t ∷ l) = s ++ sep ++ join sep (t ∷ l)

put_first : Prim.Native.Char.Char → List String → List String
put_first c [] = String.◌∷◌ c String.[] ∷ []
put_first c (s ∷ l) = String.◌∷◌ c s ∷ l

-- s.split(sep), for a separator of one character, given by its code.
unfoldable pub split : ℕ → String → List String
unfolding put_first
split sep String.[] = "" ∷ []
split sep (String.◌∷◌ c s) =
    let rest = split sep s in if code c == sep then "" ∷ rest else put_first c rest

digit : ℕ → String
digit zero = "0"
digit (suc zero) = "1"
digit (suc (suc zero)) = "2"
digit (suc (suc (suc zero))) = "3"
digit (suc (suc (suc (suc zero)))) = "4"
digit (suc (suc (suc (suc (suc zero))))) = "5"
digit (suc (suc (suc (suc (suc (suc zero)))))) = "6"
digit (suc (suc (suc (suc (suc (suc (suc zero))))))) = "7"
digit (suc (suc (suc (suc (suc (suc (suc (suc zero)))))))) = "8"
digit _ = "9"

decimal : ℕ → ℕ → String
decimal zero n = ""
decimal (suc f) n =
    let rest = decimal f (n / 10) in if ltb n 10 then digit n else rest ++ digit (n % 10)

-- str(n); a number has no more digits than its value and one.
unfoldable pub show : ℕ → String
unfolding decimal digit
show n = decimal (suc n) n
