-- ===== src/Anchor/Terms/Verkeys.antt =====
-- The short and the full form of a verkey, in the branch of `txn_extract_terms` on a NYM.
pub mod Forms
use Prim.Native.String.{◌++◌ as str_append}
use indy_perf.Base.{
  ℕ, String, Bool, false, Option, none, some, List, ◌++◌, take, drop, str_eq, if◌then◌else◌,
}
use indy_perf.Base.Texts.{uncons}
use indy_perf.Exn.{Result, ok, err, index_error, key_error, type_error, is_value_error, ◌>>=◌}
use indy_perf.Json.{Json, null, str, arr, obj, nil, cons}
use indy_perf.Anchor.LedgerType.{same_codes}

-- The package base58. `decode` raises what it raises, a ValueError on a text that is not base 58.
pub record Base58 : Type 0 where
  pub decode : Json → Result (List ℕ)
  pub encode : List ℕ → String

-- j == "~"
is_tilde : Json → Bool
is_tilde (str s) = str_eq s "~"
is_tilde _ = false

first_of_text : Option (String × String) → Result (Bool × Json)
first_of_text none = err index_error
first_of_text (some (c, s)) = ok (str_eq c "~", str s)

-- verkey[0] == "~", and verkey[1:]
unfoldable pub split_first : Json → Result (Bool × Json)
unfolding is_tilde first_of_text uncons
split_first (str s) = first_of_text (uncons s)
split_first (arr nil) = err index_error
split_first (arr (cons j l)) = ok (is_tilde j, arr l)
split_first (obj f) = err (key_error "0")
split_first _ = err type_error

-- except ValueError: what the variables hold then
unfoldable pub on_value_error : Json × Json → Result (Json × Json) → Result (Json × Json)
on_value_error p (ok q) = ok q
on_value_error p (err e) = if is_value_error e then ok p else err e

-- A verkey that begins with "~" is the rest of the key behind the DID. It is the short form before
-- its bytes are read.
unfoldable pub abbreviated : Base58 → List ℕ → Json → Json → Result (Json × Json)
unfolding on_value_error
abbreviated b did verkey rest =
    on_value_error (verkey, verkey)
      (do suffix ← b.decode rest; ok (verkey, str (b.encode (did ++ suffix))))

unfoldable pub full : Base58 → List ℕ → Json → Result (Json × Json)
unfolding same_codes
full b did verkey = do
  long ← b.decode verkey
  if same_codes (take 16 long) did
      then ok (str (str_append "~" (b.encode (drop 16 long))), verkey)
      else ok (null, verkey)

-- The short and the full form, after the `try`.
unfoldable pub nym_verkeys : Base58 → Json → Json → Result (Json × Json)
unfolding split_first on_value_error abbreviated full
nym_verkeys b dest verkey =
    on_value_error (null, verkey)
      (do
        did ← b.decode dest
        (tilde, rest) ← split_first verkey
        if tilde then abbreviated b did verkey rest else full b did verkey)
