-- ===== src/Anchor/Terms/Verkeys/Forms.antt =====
-- The two ways to write a verkey are indexed alike.
use Prim.Native.String.{◌++◌ as str_append}
use Prim.Native.String.append
use indy_perf.Base.{
  ℕ, ◌≡◌, refl, ap, String, Bool, ltb, ◌&&◌, true, false, List, [], ◌∷◌, ◌++◌, take, drop, length,
  length-append, ◌<◌, arith,
}
use indy_perf.Exn.{ok}
use indy_perf.Json.{Json, str}
use indy_perf.Anchor.LedgerType.Laws.{same_codes_self}
use indy_perf.Anchor.Terms.Verkeys.{Base58, split_first, full, nym_verkeys}

-- Each number is a byte.
abbrev pub all_bytes : List ℕ → Bool
all_bytes [] = true
all_bytes (n ∷ l) = ltb n 256 && all_bytes l

all_bytes-append :
    (l m : List ℕ) → all_bytes l ≡ true → all_bytes m ≡ true → all_bytes (l ++ m) ≡ true
all_bytes-append [] m p q = q
all_bytes-append (n ∷ l) m p q = ground (arith, all_bytes-append l m)

-- base58 reads back the bytes that it wrote, and "~" is no letter of its alphabet.
pub record IsBase58 (b : Base58) : Type 0 where
  pub decode-encode : (l : List ℕ) → all_bytes l ≡ true → b.decode (str (b.encode l)) ≡ ok l
  pub no_tilde :
      (l : List ℕ)
      → all_bytes l ≡ true
      → 0 < length l
      → (s : String) × (split_first (str (b.encode l)) ≡ ok (false, str s))

take-append : (l m : List ℕ) → take (length l) (l ++ m) ≡ l
take-append [] m = refl
take-append (x ∷ l) m = ap (◌∷◌ x) (take-append l m)

drop-append : (l m : List ℕ) → drop (length l) (l ++ m) ≡ m
drop-append [] m = refl
drop-append (x ∷ l) m = drop-append l m

split_tilde : (s : String) → split_first (str (str_append "~" s)) ≡ ok (true, str s)
unfolding split_first
split_tilde s = rw (append.cons _ "" s, append.nil s) refl

module _ (b : Base58) (w : IsBase58 b) (dest : Json) (did suffix : List ℕ)
    (did_bytes : all_bytes did ≡ true) (suffix_bytes : all_bytes suffix ≡ true) where
  from_short :
      b.decode dest ≡ ok did
      → nym_verkeys b dest (str (str_append "~" (b.encode suffix)))
        ≡ ok (str (str_append "~" (b.encode suffix)), str (b.encode (did ++ suffix)))
  unfolding nym_verkeys
  from_short hd = rw (hd, split_tilde (b.encode suffix), w.decode-encode suffix suffix_bytes) refl

  full-encode :
      length did ≡ 16
      → full b did (str (b.encode (did ++ suffix)))
        ≡ ok (str (str_append "~" (b.encode suffix)), str (b.encode (did ++ suffix)))
  unfolding full
  full-encode n =
      rw
        (
          w.decode-encode (did ++ suffix) (all_bytes-append did suffix did_bytes suffix_bytes),
          ← n,
          take-append did suffix,
          drop-append did suffix,
          same_codes_self did,
        )
        refl

  from_long :
      b.decode dest ≡ ok did
      → length did ≡ 16
      → (s : String) × (split_first (str (b.encode (did ++ suffix))) ≡ ok (false, str s))
      → nym_verkeys b dest (str (b.encode (did ++ suffix)))
        ≡ ok (str (str_append "~" (b.encode suffix)), str (b.encode (did ++ suffix)))
  unfolding nym_verkeys
  from_long hd n (s, e) = rw (hd, e, full-encode n) refl

  -- For a DID of 16 bytes, a NYM that gives its verkey as "~" and the bytes behind the DID, and one that
  -- gives all bytes, are indexed under the same short and the same full form.
  pub verkey_forms :
      b.decode dest ≡ ok did
      → length did ≡ 16
      → let short = str (str_append "~" (b.encode suffix)) in
        let long = str (b.encode (did ++ suffix)) in
        (nym_verkeys b dest short ≡ ok (short, long)) × (nym_verkeys b dest long ≡ ok (short, long))
  verkey_forms hd n = (
    from_short hd,
    from_long hd n (
        w.no_tilde (did ++ suffix) (all_bytes-append did suffix did_bytes suffix_bytes)
          (omega (arith, length-append did suffix))),
  )
