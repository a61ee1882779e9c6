-- ===== src/Anchor/LedgerType/Laws.antt =====
-- What `for_value` accepts.
use indy_perf.Base.{
  ℕ, ◌≡◌, refl, ap, String, true, false, inl, inr, List, [], ◌∷◌, arith, eq_iff, str_eq, Bool-cases,
}
use indy_perf.Exn.{ok}
use indy_perf.Anchor.LedgerType.{
  LedgerType, pool, domain, config, name, text, for_value, upper, in_012, of_name, same_codes,
}

pub same_codes_self : (u : List ℕ) → same_codes u u ≡ true
unfolding same_codes
same_codes_self [] = refl
same_codes_self (c ∷ u) = ground (arith, same_codes_self u)

-- A text is none of those that have other code points in upper case.
differs :
    (s t : String) (u : List ℕ) → upper s ≡ u → same_codes u (upper t) ≡ false → str_eq s t ≡ false
differs s t u e h = elim (Bool-cases (str_eq s t)) [
  | inl same ↦ cc (same_codes_self (upper t), e, h, ap upper ((eq_iff s t).0 same))
  | inr other ↦ other
]

-- None of the texts of digits that `for_value` takes for a number has the letters `u`.
none_of_012 :
    (s : String) (u : List ℕ)
    → upper s ≡ u
    → same_codes u (upper "") ≡ false
    → same_codes u (upper "0") ≡ false
    → same_codes u (upper "1") ≡ false
    → same_codes u (upper "2") ≡ false
    → same_codes u (upper "01") ≡ false
    → same_codes u (upper "12") ≡ false
    → same_codes u (upper "012") ≡ false
    → in_012 s ≡ false
none_of_012 s u e a b c d f g h = rw (
  differs s "" u e a,
  differs s "0" u e b,
  differs s "1" u e c,
  differs s "2" u e d,
  differs s "01" u e f,
  differs s "12" u e g,
  differs s "012" u e h,
)

name_not_number : (t : LedgerType) (s : String) → upper s ≡ upper (name t) → in_012 s ≡ false
unfolding same_codes upper
name_not_number pool s e = none_of_012 s _ e refl refl refl refl refl refl refl
name_not_number domain s e = none_of_012 s _ e refl refl refl refl refl refl refl
name_not_number config s e = none_of_012 s _ e refl refl refl refl refl refl refl

of_name-upper : (t : LedgerType) (s : String) → of_name s (upper (name t)) ≡ ok t
unfolding of_name
of_name-upper pool s = refl
of_name-upper domain s = refl
of_name-upper config s = refl

-- A text that is a member's name, in capitals, small letters or both, stands for that member.
pub for_value-upper :
    (t : LedgerType) (s : String) → upper s ≡ upper (name t) → for_value (text s) ≡ ok t
unfolding for_value
for_value-upper t s e = rw (name_not_number t s e, e) (of_name-upper t s)
