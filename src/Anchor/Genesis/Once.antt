-- ===== src/Anchor/Genesis/Once.antt =====
-- The genesis file is found once.
use indy_perf.Base.{◌≡◌, refl, ◌∙◌, String, Bool, true, false, Option}
use indy_perf.Exec.{Outcome, returned, raised, waiting, gets, modify, ◌>>=◌}
use indy_perf.Exec.Runs.{
  Stops, Triple, Prompt, Runs-bind, Runs-gets, Runs-if, Runs-modify, Keeps-if, Keeps-lift,
  Keeps-gets, Keeps-pure, Keeps-raise,
}
use indy_perf.Anchor.Genesis.{
  Genesis, Download, fetch_genesis_txn, find_genesis, resolve_genesis_file,
}

-- GENESIS_VERIFIED
pub record Verified (b : Bool) (g : Genesis) : Type 0 where
  pub flag : g.verified ≡ b

-- It is set, and this is the file.
pub record Resolved (f : Option String) (g : Genesis) : Type 0 where
  pub flag : g.verified ≡ true
  pub same : f ≡ g.file

module _ (d : Download) where
  Prompt-files :
      {b : Bool} (f : Genesis → Genesis)
      → ((g : Genesis) → (f g).verified ≡ g.verified)
      → Prompt (Verified b) (modify f)
  Prompt-files f e = Runs-modify f (λ g p. record { flag = rw (e g) p.flag })

  Prompt-fetch : (url target : String) → Prompt (Verified false) (fetch_genesis_txn d url target)
  unfolding fetch_genesis_txn
  Prompt-fetch url target =
      Runs-bind _ _ (Keeps-lift _)
        (λ text. Runs-bind _ _ (Keeps-lift _) (λ j. Prompt-files _ (λ g. refl)))

  Prompt-find_genesis : Prompt (Verified false) (find_genesis d)
  unfolding find_genesis
  Prompt-find_genesis = Runs-bind _ _ (Keeps-gets _) (λ by_url.
      Runs-bind _ _ (Keeps-gets _) (λ present.
        Keeps-if by_url _ _
          (Runs-bind _ _ (Prompt-files _ (λ g. refl))
            (λ u. Runs-bind _ _ (Keeps-gets _) (λ url. Prompt-fetch url d.temp_name)))
          (Keeps-if present _ _ (Keeps-pure tt) (Keeps-raise _))))

  pub Runs-resolve :
      Triple (λ g. Unit {0}) (resolve_genesis_file d) Resolved (Verified false) (λ g. ⊥)
  unfolding resolve_genesis_file
  Runs-resolve =
      Runs-bind (gets (λ g. g.verified)) _
        (Runs-gets {Q = Verified} _ (λ g p. record { flag = refl }))
        (λ verified.
          Runs-if verified _ _
            (λ on. Runs-gets _ (λ g p. record { flag = p.flag ∙ on; same = refl }))
            (λ off.
              Runs-bind {R = λ u. Verified false} (find_genesis d) _ (rw off Prompt-find_genesis)
                (λ u.
                  Runs-bind {R = λ v. Verified true} _ _
                    (Runs-modify _ (λ g p. record { flag = refl }))
                    (λ v. Runs-gets _ (λ g p. record { flag = p.flag; same = refl })))))

  Resolved-again :
      (x : Outcome (Option String) × Genesis)
      → Stops Resolved (Verified false) (λ g. ⊥) x
      → Stops (λ f g. resolve_genesis_file d g ≡ (returned f, g)) (Verified false) (λ g. ⊥) x
  unfolding resolve_genesis_file ◌>>=◌
  Resolved-again (returned f, g) p = rw (p.flag, p.same) refl
  Resolved-again (raised e, g) p = p
  Resolved-again (waiting, g) p = p

  -- Whatever the environment names and the download gives: after a resolve that returns, every further
  -- one returns the same file and changes nothing; after one that raises, the file is not said to be
  -- verified, so that the next resolve looks for it again.
  pub resolve_genesis_file-again :
      (g : Genesis)
      → Stops
          (λ f g'. resolve_genesis_file d g' ≡ (returned f, g'))
          (Verified false)
          (λ g'. ⊥)
          (resolve_genesis_file d g)
  resolve_genesis_file-again g = Resolved-again (resolve_genesis_file d g) (Runs-resolve.at g tt)
