-- ===== src/Environ.antt =====
-- What the modules read from the environment when they are loaded: os.getenv with a default, numbers, flags.
use Prim.Native.Char.{code}
use indy_perf.Base.{
  ℕ, zero, suc, ◌+◌, ◌-◌, ◌*◌, String, Bool, true, false, ◌&&◌, ◌||◌, Option, none, some, List, [],
  ◌∷◌, leb, ◌==◌, if◌then◌else◌,
}
use indy_perf.Base.Texts.{is_empty}
use indy_perf.Base.Integers.{ℤ, pos, negsuc}
use indy_perf.Exn.{Result, ok, err, value_error}

abbrev pub Environ : Type 0
Environ = String → Option String

-- os.getenv(name, default)
abbrev pub or_default : Option String → String → String
or_default none d = d
or_default (some s) d = s

-- os.getenv(name) or default
abbrev pub or_else_empty : Option String → String → String
or_else_empty none d = d
or_else_empty (some s) d = if is_empty s then d else s

-- A blank of ASCII, as int() skips it: tab to carriage return, the four separators and the space.
is_space : ℕ → Bool
is_space c = leb 9 c && leb c 13 || leb 28 c && leb c 32

-- s.strip() is empty.
is_blank : String → Bool
unfolding is_space
is_blank String.[] = true
is_blank (String.◌∷◌ c s) = is_space (code c) && is_blank s

digit_of : ℕ → Option ℕ
digit_of c = if leb b'0' c && leb c b'9' then some (c - b'0') else none

-- What is left of a number with the value `acc` so far: digits, with an underscore between two of them, and
-- blanks at the end. The flag says whether a digit was the last character.
digits : Bool → ℕ → String → Option ℕ
unfolding digit_of is_space is_blank
digits seen acc String.[] = if seen then some acc else none
digits seen acc (String.◌∷◌ c s) = elim (digit_of (code c)) [
  | some d ↦ digits true (acc * 10 + d) s
  | none ↦
      (let after_mark = digits false acc s in
        if seen && code c == b'_'
        then after_mark
        else if seen && is_blank (String.◌∷◌ c s)
        then some acc
        else none)
]

-- -n
negated : ℕ → ℤ
negated zero = pos 0
negated (suc n) = negsuc n

number : (ℕ → ℤ) → Option ℕ → Result ℤ
number sign none = err value_error
number sign (some n) = ok (sign n)

-- int(s), of an ASCII text: blanks, a sign, digits, blanks.
unfoldable pub int_text : String → Result ℤ
unfolding digits negated number is_space
int_text String.[] = err value_error
int_text (String.◌∷◌ c s) =
    let rest = int_text s in
    if is_space (code c)
    then rest
    else if code c == b'-'
    then number negated (digits false 0 s)
    else if code c == b'+'
    then number pos (digits false 0 s)
    else number pos (digits false 0 (String.◌∷◌ c s))

-- The code points of s.lower(), for ASCII letters.
unfoldable pub lower : String → List ℕ
lower String.[] = []
lower (String.◌∷◌ c s) =
    (if leb b'A' (code c) && leb (code c) b'Z' then code c + 32 else code c) ∷ lower s
