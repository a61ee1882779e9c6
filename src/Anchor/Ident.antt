-- ===== src/Anchor/Ident.antt =====
-- How a transaction is named in a call: by an int or by a text, which may be a number or an ID.
use indy_perf.Base.{ℕ, zero, suc, String, Bool, true, false, not}
use indy_perf.Base.Texts.{is_empty, is_digit, int_of}

pub data Ident : Type 0 where
  int : ℕ → Ident
  text : String → Ident

-- `is_int`: an int, or a text of digits.
unfoldable pub is_int : Ident → Bool
unfolding is_digit
is_int (int n) = true
is_int (text s) = is_digit s

-- bool(ident)
abbrev pub given : Ident → Bool
given (int zero) = false
given (int (suc n)) = true
given (text s) = not (is_empty s)

-- int(ident), for an ident that `is_int` accepts. SQLite stores a text of digits in an integer column
-- as this number too.
unfoldable pub seqno_of : Ident → ℕ
unfolding int_of
seqno_of (int n) = n
seqno_of (text s) = int_of s
