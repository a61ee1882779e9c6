-- ===== src/Server/Register/Padding.antt =====
-- The seed that `register` makes of a text.
use Prim.Native.String.{◌++◌ as str_append}
use Prim.Native.String.append
use indy_perf.Base.{
  ℕ, zero, suc, ◌-◌, ◌≤◌, ◌≡◌, refl, ap, ◌∙◌, String, true, false, List, ◌++◌, length,
  length-append, replicate, leb, arith,
}
use indy_perf.Exn.{ok}
use indy_perf.Anchor.Seeds.{Keys, text, codes, ascii, seed_as_bytes}
use indy_perf.Server.Register.{ends_with_equals, zeroes, padded, seed_text, check_seed}

codes-append : (s t : String) → codes (str_append s t) ≡ codes s ++ codes t
unfolding codes
codes-append String.[] t = rw (append.nil t) refl
codes-append (String.◌∷◌ c s) t = rw (append.cons c s t, codes-append s t) refl

codes-zeroes : (n : ℕ) → codes (zeroes n) ≡ replicate n b'0'
unfolding codes zeroes
codes-zeroes zero = refl
codes-zeroes (suc n) = rw (codes-zeroes n) refl

length-replicate : (n x : ℕ) → length (replicate n x) ≡ n
length-replicate zero x = refl
length-replicate (suc n) x = ap suc (length-replicate n x)

leb-true : (n : ℕ) → n ≤ 32 → leb n 32 ≡ true
leb-true n h = ground arith

-- The code points of the padded seed.
abbrev pub filled : String → List ℕ
filled s = codes s ++ replicate (32 - length (codes s)) b'0'

codes-padded : (s : String) → codes (padded s) ≡ filled s
unfolding padded
codes-padded s =
    rw (codes-append s (zeroes (32 - length (codes s))), codes-zeroes (32 - length (codes s))) refl

length-filled : (s : String) → length (codes s) ≤ 32 → length (filled s) ≡ 32
length-filled s h = omega (
  arith,
  length-append (codes s) (replicate (32 - length (codes s)) b'0'),
  length-replicate (32 - length (codes s)) b'0',
)

seed_as_bytes-32 :
    (k : Keys) (s : String) → length (codes s) ≡ 32 → seed_as_bytes k (text s) ≡ ascii (codes s)
unfolding seed_as_bytes
seed_as_bytes-32 k String.[] h = refl
seed_as_bytes-32 k (String.◌∷◌ c s) h = rw h refl

-- A seed of at most 32 characters that does not end with "=" goes on, padded with zeroes, and stands for
-- 32 bytes, its own and the zeroes behind them, if its characters are ASCII.
pub check_seed-plain :
    (k : Keys) (s : String)
    → ends_with_equals (codes s) ≡ false
    → length (codes s) ≤ 32
    → (check_seed k s ≡ ok (seed_text (padded s)))
      × (length (filled s) ≡ 32)
      × (seed_as_bytes k (text (padded s)) ≡ ascii (filled s))
unfolding check_seed
check_seed-plain k s e h = (
  rw (e, leb-true (length (codes s)) h) refl,
  length-filled s h,
  seed_as_bytes-32 k (padded s) (rw (codes-padded s) (length-filled s h))
      ∙ ap ascii (codes-padded s),
)
