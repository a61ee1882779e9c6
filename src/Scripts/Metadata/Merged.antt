-- ===== src/Scripts/Metadata/Merged.antt =====
-- The metadata that `set_did_metadata` writes.
use indy_perf.Base.{
  ℕ, ◌≡◌, ◌≢◌, refl, ◌⊎◌, String, true, some, List, ◌∷◌, arith, str_eq, eq_iff, if◌then◌else◌,
}
use indy_perf.Exn.{Exn, ok}
use indy_perf.Json.{Json, bool, str, obj, Fields, end, field, lookup, dict_set, dumps}
use indy_perf.Scripts.Calls.{Event, answered, held, Legal, set_did_metadata as set_metadata}
use indy_perf.Scripts.Program.{Machine, Trace, no_trace, run}
use indy_perf.Scripts.Program.Runs.{
  Safely, Safely-ask, Safely-throw, Safely-ret, Safely-say, Safely-of_result_eq, Safely-reporting,
  Reported, IsOther, Ended, run-Safely,
}
use indy_perf.Scripts.Metadata.{Settings, unpacked, steps, set_did_metadata}

lookup-dict_set :
    (k j : String) (v : Json) (f : Fields)
    → lookup j (dict_set k v f) ≡ (if str_eq k j then some v else lookup j f)
unfolding lookup dict_set
lookup-dict_set k j v end = refl
lookup-dict_set k j v (field i w f) =
    ground (arith, eq_iff k j, eq_iff i k, eq_iff i j, lookup-dict_set k j v f)

module _ (sha256 : String → String) (s : Settings) where
  -- `g` is `f` with the two entries of the script.
  pub record IsMerged (f g : Fields) : Type 0 where
    pub is_public : lookup "public" g ≡ some (bool true)
    pub hash : lookup "seed_hash" g ≡ some (str (sha256 s.did_seed))
    pub others : (k : String) → k ≢ "public" → k ≢ "seed_hash" → lookup k g ≡ lookup k f

  dict_set-IsMerged :
      (f : Fields)
      → IsMerged f
          (dict_set "seed_hash" (str (sha256 s.did_seed)) (dict_set "public" (bool true) f))
  dict_set-IsMerged f = record {
    is_public = rw lookup-dict_set (rw lookup-dict_set refl);
    hash = rw lookup-dict_set refl;
    others = λ k a b.
        rw lookup-dict_set
          (rw lookup-dict_set (ground (arith, eq_iff "seed_hash" k, eq_iff "public" k)));
  }

  -- The wallet is open at the end, and the last call wrote the entries of the metadata, the rest kept.
  abbrev pub IsWritten : Unit {0} → Trace → Type 0
  IsWritten _ t =
      (wallet : ℕ) × (f : Fields) × (g : Fields) × (rest : List Event) × (t.events
        ≡ answered (set_metadata wallet s.wallet_did (dumps (obj g))) tt ∷ rest)
      × (unpacked s.metadata ≡ ok f)
      × IsMerged f g
      × ((held t.events).wallet ≡ some wallet)

  abbrev Any : Exn → Trace → Type 0
  Any e t = Unit

  steps-Safely : (F : Type 0) → Safely {F = F} IsWritten Any (steps sha256 s) no_trace
  unfolding steps
  steps-Safely F = Safely-say _ _ _ (
      Safely-say _ _ _ (
        Safely-say _ _ _ (
          Safely-ask _ _ _ refl
            (λ wallet. Safely-say _ _ _ (
              Safely-of_result_eq (unpacked s.metadata) _ _
                (λ f e. Safely-say _ _ _ (
                  Safely-say _ _ _ (
                    Safely-say _ _ _ (
                      Safely-ask _ _ _ refl
                        (λ r. Safely-ret _ _ (wallet, f, _, _, refl, e, dict_set-IsMerged f, refl))
                        (λ e. Safely-throw _ _ tt)))))
                (λ e. tt)))
            (λ e. Safely-throw _ _ tt))))

-- Whatever libindy answers: where `set_did_metadata` returns, its last line reports an IndyError, or its last
-- call gave the DID the metadata of the environment, with `public` true and the hash of the seed under
-- `seed_hash`; every other key has the value that it had. The wallet that it opened stays open then.
pub set_did_metadata-IsMerged :
    {W F : Type 0} (m : Machine W F) (sha256 : String → String) (s : Settings) (w : W)
    → let (r, w', t) = run m (set_did_metadata sha256 s) w no_trace in
      Legal t.events × Ended (λ a u. IsWritten sha256 s a u ⊎ Reported u) (λ e u. IsOther e) r t
unfolding set_did_metadata
set_did_metadata-IsMerged {F} m sha256 s w =
    run-Safely _ _ m _ w no_trace
      (Safely-reporting (steps sha256 s) no_trace (steps-Safely sha256 s F)) tt
