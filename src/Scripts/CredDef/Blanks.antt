-- ===== src/Scripts/CredDef/Blanks.antt =====
-- The file of a credential definition.
use Prim.Native.Char.{code}
use indy_perf.Base.{
  ℕ, ◌≡◌, refl, ap, ◌⊎◌, inl, inr, String, false, Bool-cases, List, [], ◌∷◌, if◌then◌else◌,
}
use indy_perf.Exn.{Exn, ok}
use indy_perf.Json.{Json, index, JsonText, loads, dumps}
use indy_perf.Scripts.Calls.{Legal, Event, answered, issuer_create_and_store_credential_def}
use indy_perf.Scripts.Program.{text, Machine, Trace, no_trace, run}
use indy_perf.Scripts.Program.Runs.{
  Safely, Safely-ask, Safely-throw, Safely-ret, Safely-write, Safely-say, Safely-of_result_eq,
  Safely-reporting, Reported, IsOther, Ended, run-Safely,
}
use indy_perf.Scripts.CredDef.{
  Settings, is_whitespace, without_whitespace, cred_def_config, schema_data, report_definition,
  steps, write_schema_and_cred_def,
}

-- The code points of a text.
abbrev pub codes : String → List ℕ
codes String.[] = []
codes (String.◌∷◌ c s) = code c ∷ codes s

-- Those that are no blanks, in their order.
abbrev pub kept : List ℕ → List ℕ
kept [] = []
kept (c ∷ l) = if is_whitespace c then kept l else c ∷ kept l

abbrev pub NoBlank : List ℕ → Type 0
NoBlank [] = Unit
NoBlank (c ∷ l) = (is_whitespace c ≡ false) × NoBlank l

codes-without_whitespace : (s : String) → codes (without_whitespace s) ≡ kept (codes s)
unfolding without_whitespace
codes-without_whitespace String.[] = refl
codes-without_whitespace (String.◌∷◌ c s) = elim (Bool-cases (is_whitespace (code c))) [
  | inl blank ↦ rw blank (codes-without_whitespace s)
  | inr other ↦ rw other (ap (λ l. code c ∷ l) (codes-without_whitespace s))
]

kept-NoBlank : (l : List ℕ) → NoBlank (kept l)
kept-NoBlank [] = tt
kept-NoBlank (c ∷ l) = elim (Bool-cases (is_whitespace c)) [
  | inl blank ↦ rw blank (kept-NoBlank l)
  | inr other ↦ rw other (other, kept-NoBlank l)
]

module _ (encode : Json → String) (s : Settings) (path : String) where
  -- The last call made a definition of the schema; the one file has the text of its primary key, less the
  -- blanks.
  pub record IsPrimary (t : Trace) : Type 0 where
    pub wallet : ℕ
    pub cred_def_id : String
    pub cred_def_json : JsonText
    pub before : List Event
    pub last_call :
        t.events
        ≡ answered
            (issuer_create_and_store_credential_def wallet s.author_did
              (dumps (schema_data s))
              s.cred_def_tag
              s.cred_def_type
              cred_def_config)
            (cred_def_id, cred_def_json)
          ∷ before
    pub definition : Json
    pub parsed : loads cred_def_json ≡ ok definition
    pub value : Json
    pub valued : index definition "value" ≡ ok value
    pub primary : Json
    pub found : index value "primary" ≡ ok primary
    pub output : String
    pub one_file : t.files ≡ (path, text output) ∷ []
    pub output_codes : codes output ≡ kept (codes (encode primary))
    pub no_blank : NoBlank (codes output)

  abbrev Any : Exn → Trace → Type 0
  Any e t = Unit

  abbrev Written : Unit {0} → Trace → Type 0
  Written _ t = IsPrimary t

  report_definition-Safely :
      (F : Type 0) (wallet : ℕ) (id : String) (cred_def_json : JsonText) (t : Trace)
      (before : List Event)
      → t.files ≡ []
      → t.events
        ≡ answered
            (issuer_create_and_store_credential_def wallet s.author_did
              (dumps (schema_data s))
              s.cred_def_tag
              s.cred_def_type
              cred_def_config)
            (id, cred_def_json)
          ∷ before
      → Safely {F = F} Written Any (report_definition encode s path cred_def_json) t
  unfolding report_definition
  report_definition-Safely F wallet id cred_def_json t before no_files last = Safely-say _ _ _ (
      Safely-of_result_eq (loads cred_def_json) _ _
        (λ d parsed. Safely-say _ _ _ (
          Safely-say _ _ _ (
            Safely-of_result_eq (index d "value") _ _
              (λ v valued.
                Safely-of_result_eq (index v "primary") _ _
                  (λ primary found. Safely-say _ _ _ (
                    Safely-write _ _ _ _ (
                      Safely-ret _ _ (record {
                        wallet = wallet;
                        cred_def_id = id;
                        cred_def_json = cred_def_json;
                        before = before;
                        last_call = last;
                        definition = d;
                        parsed = parsed;
                        value = v;
                        valued = valued;
                        primary = primary;
                        found = found;
                        output = without_whitespace (encode primary);
                        one_file =
                            ap (λ l. (path, text (without_whitespace (encode primary))) ∷ l)
                              no_files;
                        output_codes = codes-without_whitespace (encode primary);
                        no_blank =
                            rw (codes-without_whitespace (encode primary))
                              (kept-NoBlank (codes (encode primary)));
                      }))))
                  (λ e. tt))
              (λ e. tt))))
        (λ e. tt))

  steps-Safely : (F : Type 0) → Safely {F = F} Written Any (steps encode s path) no_trace
  unfolding steps
  steps-Safely F = Safely-say _ _ _ (
      Safely-ask _ _ _ tt
        (λ r.
          Safely-ask _ _ _ refl
            (λ pool. Safely-say _ _ _ (
              Safely-say _ _ _ (
                Safely-say _ _ _ (
                  Safely-ask _ _ _ refl
                    (λ wallet. Safely-say _ _ _ (
                      Safely-say _ _ _ (
                        Safely-say _ _ _ (
                          Safely-say _ _ _ (
                            Safely-ask _ _ _ refl
                              (λ r. report_definition-Safely F wallet r.0 r.1 _ _ refl refl)
                              (λ e. Safely-throw _ _ tt))))))
                    (λ e. Safely-throw _ _ tt)))))
            (λ e. Safely-throw _ _ tt))
        (λ e. Safely-throw _ _ tt))

-- Whatever libindy answers: where `write_schema_and_cred_def` returns, its last line reports an IndyError, or it
-- has written one file. That holds the text of the primary key of the definition that the last call made of
-- the schema, less the blanks, and the rest in order. No handle is used that is not open.
pub write_schema_and_cred_def-IsPrimary :
    {W F : Type 0} (m : Machine W F) (encode : Json → String) (s : Settings) (path : String) (w : W)
    → let (r, w', t) = run m (write_schema_and_cred_def encode s path) w no_trace in
      Legal t.events × Ended (λ _ u. IsPrimary encode s path u ⊎ Reported u) (λ e u. IsOther e) r t
unfolding write_schema_and_cred_def
write_schema_and_cred_def-IsPrimary {F} m encode s path w =
    run-Safely _ _ m _ w no_trace
      (Safely-reporting (steps encode s path) no_trace (steps-Safely encode s path F)) tt
