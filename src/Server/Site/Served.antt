-- ===== src/Server/Site/Served.antt =====
-- What the genesis route serves after the file was found.
use indy_perf.Base.{
  ◌≡◌, refl, String, true, false, ◌⊎◌, inl, inr, Option, none, some, List, [], ◌∷◌, Bool-cases,
  str_eq, eq_iff, arith,
}
use indy_perf.Exn.{ok}
use indy_perf.Exec.{gets, ◌>>=◌}
use indy_perf.Exec.Runs.{
  Stops, Triple, Runs-bind, Runs-gets, Runs-if, Runs-modify, Runs-lift, Runs-raise, Runs-pure,
}
use indy_perf.Anchor.Genesis.{
  Genesis, Download, exists, is_set, file_exists, fetch_genesis_txn, find_genesis, or_no_url,
  resolve_genesis_file,
}
use indy_perf.Server.Responses.{text_response}
use indy_perf.Server.Site.{lines_read, read_text, genesis}

-- There was a URL, and its text is what is served.
pub record Downloaded (d : Download) (g g' : Genesis) : Type 0 where
  pub url : String
  pub text : String
  pub named : g.url ≡ some url
  pub fetched : d.fetch url ≡ ok text
  pub served : genesis g' ≡ ok (text_response 200 (lines_read false text))

-- There was none, and what the file had before is served.
pub record Found (g g' : Genesis) : Type 0 where
  pub text : String
  pub no_url : is_set g.url ≡ false
  pub before : genesis g ≡ ok (text_response 200 text)
  pub served : genesis g' ≡ ok (text_response 200 text)

read_text-exists :
    (p : String) (files : List (String × String))
    → exists p files ≡ true
    → (t : String) × (read_text p files ≡ ok t)
unfolding read_text exists
read_text-exists p [] e = absurd cc
read_text-exists p ((q, t) ∷ files) e = elim (Bool-cases (str_eq q p)) [
  | inl s ↦ (lines_read false t, rw s refl)
  | inr n ↦ rw n (read_text-exists p files (rw n at e))
]

no_file : (g : Genesis) → g.file ≡ none → file_exists g ≡ false
unfolding file_exists
no_file g n = rw n refl

served_file :
    (g : Genesis) (file : Option String)
    → g.file ≡ file
    → file_exists g ≡ true
    → (t : String) × (genesis g ≡ ok (text_response 200 t))
unfolding genesis file_exists
served_file g none n e = let f = no_file g n in absurd cc
served_file g (some p) n e =
    let (t, r) = read_text-exists p g.files (ground arith) in (t, rw (n, r) refl)

str_eq_same : (s : String) → str_eq s s ≡ true
str_eq_same s = ground (arith, eq_iff s s)

served_first :
    (g : Genesis) (p t : String) (files : List (String × String))
    → g.file ≡ some p
    → g.files ≡ (p, t) ∷ files
    → genesis g ≡ ok (text_response 200 (lines_read false t))
unfolding genesis read_text
served_first g p t files f l = rw (f, l, str_eq_same p) refl

named_url : (o : Option String) → is_set o ≡ true → o ≡ some (or_no_url o)
unfolding or_no_url
named_url none e = absurd cc
named_url (some u) e = refl

module _ (d : Download) (g : Genesis) where
  -- What an exception leaves to say: there was a URL, or no file.
  abbrev Missing : Genesis → Type 0
  Missing s = (is_set g.url ≡ true) ⊎ (file_exists g ≡ false)

  abbrev Serves : Genesis → Type 0
  Serves s = Downloaded d g s ⊎ Found g s

  -- The download has begun.
  record Begun (p : String) (s : Genesis) : Type 0 where
    by_url : is_set g.url ≡ true
    url_kept : s.url ≡ g.url
    file_set : s.file ≡ some p

  Runs-fetch :
      (url : String)
      → g.url ≡ some url
      → Triple
          (Begun d.temp_name)
          (fetch_genesis_txn d url d.temp_name)
          (λ u. Serves)
          Missing
          (λ s. ⊥)
  unfolding fetch_genesis_txn
  Runs-fetch url e =
      Runs-bind {R = λ t s. Begun d.temp_name s × (d.fetch url ≡ ok t)} _ _
        (Runs-lift _ (λ t s f b. (b, f)) (λ s b. inl b.by_url))
        (λ t.
          Runs-bind {R = λ j s. Begun d.temp_name s × (d.fetch url ≡ ok t)} _ _
            (Runs-lift _ (λ j s f b. b) (λ s b. inl b.0.by_url))
            (λ j. Runs-modify _ (λ s b. inl (record {
              url = url;
              text = t;
              named = e;
              fetched = b.1;
              served = served_first _ d.temp_name t s.files b.0.file_set refl;
            }))))

  Runs-download :
      Triple
        (Begun d.temp_name)
        (gets (λ s. or_no_url s.url) >>= λ url. fetch_genesis_txn d url d.temp_name)
        (λ u. Serves)
        Missing
        (λ s. ⊥)
  Runs-download =
      Runs-bind {R = λ url s. Begun d.temp_name s × (g.url ≡ some url)} _ _
        (Runs-gets _ (λ s b. (b, rw (b.url_kept) (named_url g.url b.by_url))))
        (λ url. record { at = λ s b. (Runs-fetch url b.1).at s b.0 })

  found : (s : Genesis) → s ≡ g → is_set g.url ≡ false → file_exists g ≡ true → Found g s
  found s e n there =
      let (t, b) = served_file g g.file refl there in
      record { text = t; no_url = n; before = b; served = rw e b }

  Serves-verified : (s : Genesis) → Serves s → Serves (record s { verified = true })
  unfolding genesis
  Serves-verified s (inl l) = inl (record {
    url = l.url;
    text = l.text;
    named = l.named;
    fetched = l.fetched;
    served = l.served;
  })
  Serves-verified s (inr r) =
      inr (record { text = r.text; no_url = r.no_url; before = r.before; served = r.served })

  Runs-find_genesis : Triple (λ s. s ≡ g) (find_genesis d) (λ u. Serves) Missing (λ s. ⊥)
  unfolding find_genesis
  Runs-find_genesis =
      Runs-bind {R = λ by_url s. (s ≡ g) × (by_url ≡ is_set g.url)} _ _
        (Runs-gets _ (λ s e. (e, rw e refl)))
        (λ by_url.
          Runs-bind
            {R = λ present s. ((s ≡ g) × (by_url ≡ is_set g.url)) × (present ≡ file_exists g)} _ _
            (Runs-gets _ (λ s e. (e, rw e.0 refl)))
            (λ present.
              Runs-if by_url _ _
                (λ on.
                  Runs-bind {R = λ u. Begun d.temp_name} _ _
                    (Runs-modify _
                      (λ s e. record { by_url = cc; url_kept = rw e.0.0 refl; file_set = refl }))
                    (λ u. Runs-download))
                (λ off.
                  Runs-if present _ _
                    (λ there. Runs-pure tt (λ s e.
                      let there' : (file_exists g ≡ true) = cc in
                      let off' : (is_set g.url ≡ false) = cc in inr (found s e.0.0 off' there')))
                    (λ gone.
                      Runs-raise _
                        (λ s e. let gone' : (file_exists g ≡ false) = cc in inr gone')))))

  Runs-resolve :
      g.verified ≡ false
      → Triple (λ s. s ≡ g) (resolve_genesis_file d) (λ f. Serves) Missing (λ s. ⊥)
  unfolding resolve_genesis_file
  Runs-resolve unverified =
      Runs-bind {R = λ v s. (s ≡ g) × (v ≡ g.verified)} _ _ (Runs-gets _ (λ s e. (e, rw e refl)))
        (λ v.
          Runs-if v _ _ (λ on. Runs-gets _ (λ s e. absurd cc))
            (λ off.
              Runs-bind {R = λ u. Serves} _ _ (record { at = λ s e. Runs-find_genesis.at s e.0 })
                (λ u.
                  Runs-bind {R = λ u. Serves} _ _ (Runs-modify _ Serves-verified)
                    (λ u. Runs-gets _ (λ s e. e)))))

  -- The first resolve of the genesis file never waits. Where it returns, the genesis route answers with the
  -- text that was downloaded from GENESIS_URL, as it is read back, or, without a URL, with what it would have
  -- answered before. It raises only with a URL, or where there is no file.
  pub genesis-served :
      g.verified ≡ false
      → Stops
          (λ f g'. Downloaded d g g' ⊎ Found g g')
          (λ g'. (is_set g.url ≡ true) ⊎ (file_exists g ≡ false))
          (λ g'. ⊥)
          (resolve_genesis_file d g)
  genesis-served unverified = (Runs-resolve unverified).at g refl
