-- ===== src/Anchor/Seeds/Indexed.antt =====
-- How a NYM is indexed that has the DID and the verkey of a seed.
use Prim.Native.String.{◌++◌ as str_append}
use indy_perf.Base.{
  ℕ, zero, suc, true, ◌≡◌, refl, ap, List, [], ◌∷◌, ◌++◌, take, drop, length, length-take, arith,
}
use indy_perf.Exn.{ok}
use indy_perf.Json.{str}
use indy_perf.Anchor.Seeds.{Keys, Seed, seed_as_bytes, seed_to_did}
use indy_perf.Anchor.Terms.Verkeys.{nym_verkeys}
use indy_perf.Anchor.Terms.Verkeys.Forms.{IsBase58, all_bytes, verkey_forms}

take-drop : (n : ℕ) (l : List ℕ) → take n l ++ drop n l ≡ l
take-drop zero l = refl
take-drop (suc n) [] = refl
take-drop (suc n) (x ∷ l) = ap (◌∷◌ x) (take-drop n l)

all_bytes-take :
    (n : ℕ) (l : List ℕ)
    → all_bytes l ≡ true
    → (all_bytes (take n l) ≡ true) × (all_bytes (drop n l) ≡ true)
all_bytes-take zero l e = (refl, e)
all_bytes-take (suc n) [] e = (refl, refl)
all_bytes-take (suc n) (x ∷ l) e = ground (arith, all_bytes-take n l)

module _ (k : Keys) (w : IsBase58 k.base58) (s : Seed) (seed vk : List ℕ) where
  -- Where the key of a seed has 32 bytes, the seed's DID is their first half in base 58; and a NYM with the
  -- DID and the verkey is indexed under the whole verkey and, as short form, "~" and the second half.
  pub seed_to_did-indexed :
      seed_as_bytes k s ≡ ok seed
      → k.verify_key seed ≡ ok vk
      → all_bytes vk ≡ true
      → length vk ≡ 32
      → let did = k.base58.encode (take 16 vk) in
        let verkey = k.base58.encode vk in
        (seed_to_did k s ≡ ok (did, verkey))
        × (nym_verkeys k.base58 (str did) (str verkey)
            ≡ ok (str (str_append "~" (k.base58.encode (drop 16 vk))), str verkey))
  unfolding seed_to_did
  seed_to_did-indexed e v bytes n =
      let (first, second) = all_bytes-take 16 vk bytes in
      let halves : take 16 vk ++ drop 16 vk ≡ vk = take-drop 16 vk in
      (
        rw (e, v) refl,
        rw halves at
            (verkey_forms k.base58 w (str (k.base58.encode (take 16 vk))) (take 16 vk) (drop 16 vk)
              first second (w.decode-encode (take 16 vk) first)
              (omega (arith, length-take 16 vk, n))).1,
      )
