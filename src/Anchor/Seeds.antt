-- ===== src/Anchor/Seeds.antt =====
-- Seeds: `seed_as_bytes` and `AnchorHandle.seed_to_did`.
pub mod Indexed
use Prim.Native.Char.{code}
use indy_perf.Base.{
  ℕ, String, Bool, true, ◌&&◌, List, [], ◌∷◌, length, take, ltb, ◌==◌, if◌then◌else◌,
}
use indy_perf.Exn.{Result, ok, err, value_error, ◌>>=◌}
use indy_perf.Anchor.Terms.Verkeys.{Base58}

-- What is given as a seed: nothing, bytes, or a text.
pub data Seed : Type 0 where
  no_seed : Seed
  bytes : List ℕ → Seed
  text : String → Seed

unfoldable pub codes : String → List ℕ
codes String.[] = []
codes (String.◌∷◌ c s) = code c ∷ codes s

all_ascii : List ℕ → Bool
all_ascii [] = true
all_ascii (c ∷ l) = ltb c 128 && all_ascii l

-- s.encode("ascii"); a UnicodeEncodeError is a ValueError.
unfoldable pub ascii : List ℕ → Result (List ℕ)
unfolding all_ascii
ascii l = if all_ascii l then ok l else err value_error

-- The code outside the repository: base64.b64decode, PyNaCl's SigningKey(seed).verify_key, base58.
pub record Keys : Type 0 where
  pub b64decode : String → Result (List ℕ)
  pub verify_key : List ℕ → Result (List ℕ)
  pub base58 : Base58

-- A text of 32 characters is the seed itself, any other is base64. An empty text, or none, is no seed.
unfoldable pub seed_as_bytes : Keys → Seed → Result (List ℕ)
unfolding ascii codes
seed_as_bytes k no_seed = ok []
seed_as_bytes k (bytes b) = ok b
seed_as_bytes k (text String.[]) = ok []
seed_as_bytes k (text (String.◌∷◌ c s)) =
    if length (codes (String.◌∷◌ c s)) == 32
    then ascii (codes (String.◌∷◌ c s))
    else k.b64decode (String.◌∷◌ c s)

-- The DID is the first half of the verkey.
unfoldable pub seed_to_did : Keys → Seed → Result (String × String)
unfolding seed_as_bytes
seed_to_did k s = do
  seed ← seed_as_bytes k s
  vk ← k.verify_key seed
  ok (k.base58.encode (take 16 vk), k.base58.encode vk)
