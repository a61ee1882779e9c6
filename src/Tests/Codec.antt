-- ===== src/Tests/Codec.antt =====
-- A toy alphabet of two letters that meets what is assumed of base58: a byte is a row of "1" with a "2"
-- behind it.
use indy_perf.Base.{
  ℕ, zero, suc, ◌+◌, ◌<◌, ◌≡◌, refl, ap, String, false, List, [], ◌∷◌, length, arith, ◌==◌,
  if◌then◌else◌,
}
use Prim.Native.Char.{code}
use indy_perf.Exn.{Result, ok, err, value_error, attribute_error, ◌>>=◌}
use indy_perf.Json.{Json, str}
use indy_perf.Anchor.Terms.Verkeys.{Base58, split_first}
use indy_perf.Anchor.Terms.Verkeys.Forms.{IsBase58}

unfoldable pub write_byte : ℕ → String → String
write_byte zero s = String.◌∷◌ "2" s
write_byte (suc n) s = String.◌∷◌ "1" (write_byte n s)

unfoldable pub write : List ℕ → String
write [] = ""
write (n ∷ l) = write_byte n (write l)

-- The end of the text, after `n` letters "1".
unfoldable pub read_end : ℕ → Result (List ℕ)
read_end zero = ok []
read_end (suc n) = err value_error

unfoldable pub read : ℕ → String → Result (List ℕ)
read n String.[] = read_end n
read n (String.◌∷◌ c s) = if code c == b'1' then read (suc n) s else (do l ← read 0 s; ok (n ∷ l))

unfoldable pub decode : Json → Result (List ℕ)
decode (str s) = read 0 s
decode _ = err attribute_error

abbrev pub toy58 : Base58
toy58 = record { decode = decode; encode = write }

read-write_byte :
    (m n : ℕ) (s : String) → read m (write_byte n s) ≡ (do l ← read 0 s; ok ((m + n) ∷ l))
unfolding read write_byte
read-write_byte m zero s = ground arith
read-write_byte m (suc n) s = ground (arith, read-write_byte (suc m) n s)

read-write : (l : List ℕ) → read 0 (write l) ≡ ok l
unfolding read write read_end
read-write [] = refl
read-write (n ∷ l) =
    rw (read-write_byte 0 n (write l), read-write l) (ap (λ (k : ℕ). ok (k ∷ l)) (omega arith))

first_letter :
    (n : ℕ) (l : List ℕ)
    → (s : String) × (split_first (str (write_byte n (write l))) ≡ ok (false, str s))
unfolding write_byte split_first
first_letter zero l = (write l, refl)
first_letter (suc n) l = (write_byte n (write l), refl)

no_tilde :
    (l : List ℕ) → 0 < length l → (s : String) × (split_first (str (write l)) ≡ ok (false, str s))
unfolding write
no_tilde [] h = absurd (omega arith)
no_tilde (n ∷ l) h = first_letter n l

pub toy58-IsBase58 : IsBase58 toy58
unfolding decode
toy58-IsBase58 = record { decode-encode = λ l b. read-write l; no_tilde = λ l b. no_tilde l }
