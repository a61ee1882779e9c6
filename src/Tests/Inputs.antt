-- ===== src/Tests/Inputs.antt =====
-- The values that reach the anchor from outside, at concrete ones.
use indy_perf.Base.{ℕ, ◌≡◌, refl, List, [], ◌∷◌, ◌++◌, take, drop}
use indy_perf.Exn.{ok}
use indy_perf.Json.{str}
use indy_perf.Anchor.LedgerType.{domain, text, for_value, upper}
use indy_perf.Anchor.LedgerType.Laws.{for_value-upper}
use indy_perf.Anchor.Terms.Verkeys.{nym_verkeys}
use indy_perf.Anchor.Terms.Verkeys.Forms.{verkey_forms}
use indy_perf.Anchor.Seeds.{bytes, seed_to_did}
use indy_perf.Anchor.Seeds.Indexed.{seed_to_did-indexed}
use indy_perf.Tests.World.{boot}
use indy_perf.Tests.Codec.{toy58, toy58-IsBase58}
use Prim.Native.String.{◌++◌ as str_append}

for_value-upper_example : for_value (text "Domain") ≡ ok domain
unfolding upper
for_value-upper_example = for_value-upper domain "Domain" refl

abbrev did : List ℕ
did = 1 ∷ 0 ∷ 2 ∷ 0 ∷ 1 ∷ 1 ∷ 0 ∷ 3 ∷ 0 ∷ 0 ∷ 2 ∷ 1 ∷ 0 ∷ 0 ∷ 1 ∷ 2 ∷ []

abbrev suffix : List ℕ
suffix = 3 ∷ 1 ∷ 4 ∷ []

verkey_forms_example :
    let short = str (str_append "~" (toy58.encode suffix)) in
    let long = str (toy58.encode (did ++ suffix)) in
    (nym_verkeys toy58 (str (toy58.encode did)) short ≡ ok (short, long))
    × (nym_verkeys toy58 (str (toy58.encode did)) long ≡ ok (short, long))
verkey_forms_example =
    verkey_forms toy58 toy58-IsBase58 (str (toy58.encode did)) did suffix refl refl
      (toy58-IsBase58.decode-encode did refl) refl

abbrev seed : List ℕ
seed = did ++ did

seed_to_did-indexed_example :
    let own = toy58.encode (take 16 seed) in
    let verkey = toy58.encode seed in
    (seed_to_did boot.keys (bytes seed) ≡ ok (own, verkey))
    × (nym_verkeys toy58 (str own) (str verkey)
        ≡ ok (str (str_append "~" (toy58.encode (drop 16 seed))), str verkey))
unfolding indy_perf.Anchor.Seeds.seed_as_bytes
seed_to_did-indexed_example =
    seed_to_did-indexed boot.keys toy58-IsBase58 (bytes seed) seed seed refl refl refl refl
