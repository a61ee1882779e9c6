-- ===== src/Anchor/LedgerType.antt =====
-- `LedgerType`, the enumeration of the ledgers, and `for_value`.
pub mod Laws
use Prim.Native.Char.{code}
use indy_perf.Base.{
  ℕ, zero, suc, ◌-◌, String, Bool, true, false, ◌&&◌, ◌||◌, List, [], ◌∷◌, ◌==◌, leb, str_eq,
  if◌then◌else◌,
}
use indy_perf.Base.Texts.{int_of}
use indy_perf.Exn.{Result, ok, err, key_error, value_error}

pub data LedgerType : Type 0 where
  pool domain config : LedgerType

-- The member's value, which is also its key in the cache.
abbrev pub value : LedgerType → ℕ
value pool = 0
value domain = 1
value config = 2

abbrev pub name : LedgerType → String
name pool = "POOL"
name domain = "DOMAIN"
name config = "CONFIG"

-- What a caller may pass for a ledger.
pub data LedgerValue : Type 0 where
  member : LedgerType → LedgerValue
  number : ℕ → LedgerValue
  text : String → LedgerValue

-- LedgerType(n)
unfoldable pub of_number : ℕ → Result LedgerType
of_number zero = ok pool
of_number (suc zero) = ok domain
of_number (suc (suc zero)) = ok config
of_number _ = err value_error

-- The code points of s.upper(), for ASCII letters.
unfoldable pub upper : String → List ℕ
upper String.[] = []
upper (String.◌∷◌ c s) =
    (if leb b'a' (code c) && leb (code c) b'z' then code c - 32 else code c) ∷ upper s

unfoldable pub same_codes : List ℕ → List ℕ → Bool
same_codes [] [] = true
same_codes (m ∷ l) (n ∷ k) = m == n && same_codes l k
same_codes _ _ = false

-- LedgerType[s.upper()]
unfoldable pub of_name : String → List ℕ → Result LedgerType
unfolding upper same_codes
of_name s u =
    if same_codes u (upper "POOL")
    then ok pool
    else if same_codes u (upper "DOMAIN")
    then ok domain
    else if same_codes u (upper "CONFIG")
    then ok config
    else err (key_error s)

-- value in "012": the empty text and the digits in a row are in it too.
abbrev pub in_012 : String → Bool
in_012 s =
    str_eq s ""
    || str_eq s "0"
    || str_eq s "1"
    || str_eq s "2"
    || str_eq s "01"
    || str_eq s "12"
    || str_eq s "012"

-- int(s) of such a text
unfoldable pub int_of_012 : String → Result ℕ
unfolding int_of
int_of_012 s = if str_eq s "" then err value_error else ok (int_of s)

of_result : Result ℕ → Result LedgerType
of_result (ok n) = of_number n
of_result (err e) = err e

unfoldable pub for_value : LedgerValue → Result LedgerType
unfolding of_number of_name int_of_012 of_result
for_value (member t) = ok t
for_value (number n) = of_number n
for_value (text s) = if in_012 s then of_result (int_of_012 s) else of_name s (upper s)
