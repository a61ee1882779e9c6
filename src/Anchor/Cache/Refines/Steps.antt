-- ===== src/Anchor/Cache/Refines/Steps.antt =====
-- Every write of the cache is a step of the book.
use indy_perf.Base.{inl, inr, Bool-cases, ℕ, ◌≡◌, refl, ap, Bool, true, false, Option, none, some}
use indy_perf.Exn.{Result, ok, err}
use indy_perf.Exec.{Exec, lift}
use indy_perf.Exec.Runs.{Triple, Runs-pure, Runs-bind, Runs-lift}
use indy_perf.Json.{Json, Fields, end, field, JsonText}
use indy_perf.Anchor.LedgerType.{LedgerType, value}
use indy_perf.Anchor.Terms.{Codecs, txn_extract_terms}
use indy_perf.Anchor.Cache.{
  insert_if_any, replace_existent, replace_latest, with_unit, size_or, set_latest, set_existent,
  set_tail, add_txn,
}
use indy_perf.Anchor.Cache.Schema.{
  Time, Tables, replace, insert_terms, insert_transaction, fits, bind_number,
}
use indy_perf.Anchor.Cache.Connection.{Cache, query}
use indy_perf.Anchor.Cache.Filled.{insert_terms_tables, inserted_fits}
use indy_perf.Anchor.Cache.Adds.{replaced_latest, replaced_rows, ok_tables}
use indy_perf.Anchor.Cache.Reopened.{Write, adds, sets_latest, sets_existent}
use indy_perf.Anchor.Cache.RoundTrip.{Shows, stored_info}
use indy_perf.Anchor.Cache.Refines.{
  Book, IsView, entered, turned, Step, done, failed, insert-IsView, latest-IsView,
}
use indy_perf.Anchor.Cache.Refines.Statements.{Runs-statement, Runs-update, IsView-rows}

-- The connection is open on tables with this book.
abbrev pub Sees : Book → Cache → Type 0
Sees b = Shows (IsView b)

-- What a write left.
pub record Stepped (w : Write) (b : Book) (r : Bool) (c : Cache) : Type 0 where
  pub after : Book
  pub step : Step w b r after
  pub sees : Sees after c

-- The book, and something that does not change.
abbrev Both : Book → Type 0 → Tables → Type 0
Both b F t = IsView b t × F

Runs-existent :
    (w : Write) (b b' : Book) (lt : LedgerType) (j : Json) (F : Type 0)
    → ((r : Bool) (c : Cache) → Shows (Both b' F) c → Stepped w b r c)
    → Triple
        (Shows (Both b' F))
        (set_existent lt j)
        (λ _. Stepped w b true)
        (Stepped w b false)
        (λ _. ⊥)
unfolding set_existent
Runs-existent w b b' lt j F post =
    Runs-statement (replace_existent lt j)
      (λ t t' a p e. (IsView-rows b' t t' (replaced_rows lt j t t' a e) p.0, p.1)) (post true)
      (post false)

bind_number-fits : (n : ℕ) → fits n ≡ true → bind_number n ≡ ok tt
unfolding bind_number
bind_number-fits n e = rw e refl

set_latest-update :
    (lt : LedgerType) (n : ℕ)
    → fits n ≡ true
    → set_latest lt n ≡ query (λ d. ok (tt, record d { latest = replace (value lt) n d.latest }))
unfolding set_latest replace_latest
set_latest-update lt n e =
    ap
      (λ (r : Result (Unit {0})). query (λ (d : Tables). elim r [
        | err x ↦ err x
        | ok u ↦ ok (tt, record d { latest = replace (value lt) n d.latest })
      ]))
      (bind_number-fits n e)

module _ (k : Codecs) (b : Book) (lt : LedgerType) (n : ℕ) (id : Json) (added : Time)
    (v : JsonText) where
  abbrev it : Bool → Write
  it latest = adds lt n id added v latest

  abbrev with_txn : Book
  with_txn = entered (value lt) n (stored_info n id added v) b

  abbrev Free : Type 0
  Free = (b.txn (value lt) n ≡ none) × (fits n ≡ true)

  refused : (latest : Bool) (c : Cache) → Sees b c → Stepped (it latest) b false c
  refused latest c s = record { after = b; step = failed refl; sees = s }

  Runs-terms :
      (latest : Bool) (f : Fields)
      → Triple (Sees b) (insert_if_any f) (λ _. Sees b) (Stepped (it latest) b false) (λ _. ⊥)
  unfolding insert_if_any
  Runs-terms latest end = Runs-pure none (λ c s. s)
  Runs-terms latest (field key j f) =
      Runs-bind {R = λ rowid. Sees b} _ _
        (Runs-statement (insert_terms (field key j f))
          (λ t t' a p e.
            IsView-rows b t t' (rw (insert_terms_tables (field key j f) t a t' e) (refl, refl)) p)
          (λ c s. s) (refused latest))
        (λ rowid. Runs-pure (some rowid) (λ c s. s))

  Runs-row :
      (latest : Bool) (ty : Json) (termsid : Option ℕ)
      → Triple
          (Sees b)
          (query (λ d. with_unit (insert_transaction (value lt) n ty id added v termsid d)))
          (λ _. Shows (Both with_txn Free))
          (Stepped (it latest) b false)
          (λ _. ⊥)
  Runs-row latest ty termsid =
      Runs-statement (λ d. with_unit (insert_transaction (value lt) n ty id added v termsid d))
        (λ t t' a p e.
          let done = ok_tables (insert_transaction (value lt) n ty id added v termsid t) e in
          let (view, free) = insert-IsView (value lt) n ty id added v termsid b t t' p done in
          (view, (free, inserted_fits (value lt) n ty id added v termsid t t' done)))
        (λ c s. s) (refused latest)

  entered_step : (r : Bool) (c : Cache) → Shows (Both with_txn Free) c → Stepped (it false) b r c
  entered_step r c s = record {
    after = with_txn;
    step = done s.holds.1.0 r (inl refl);
    sees = record { tables = s.tables; open_db = s.open_db; holds = s.holds.0 };
  }

  turned_step :
      (r : Bool) (c : Cache)
      → Shows (Both (turned (value lt) n with_txn) Free) c
      → Stepped (it true) b r c
  turned_step r c s = record {
    after = turned (value lt) n with_txn;
    step = done s.holds.1.0 r (inl refl);
    sees = record { tables = s.tables; open_db = s.open_db; holds = s.holds.0 };
  }

  Turned : Cache → Type 0
  Turned = Shows (Both (turned (value lt) n with_txn) Free)

  -- The number was bound before, so that it can be set.
  Runs-latest :
      Triple
        (Shows (Both with_txn Free))
        (set_latest lt n)
        (λ _. Turned)
        (Stepped (it true) b false)
        (λ _. ⊥)
  unfolding set_latest Turned
  Runs-latest = elim (Bool-cases (fits n)) [
    | inl e ↦ rw (set_latest-update lt n e) (
        Runs-update (λ d. record d { latest = replace (value lt) n d.latest })
          (λ t p. (latest-IsView (value lt) n with_txn t p.0, p.1)) (λ c s. s))
    | inr e ↦
        Runs-statement (replace_latest lt n)
          (λ t t' a p h. absurd (let yes : (fits n ≡ true) = p.1.1 in cc)) (λ c s. s)
          (λ c s. absurd (let yes : (fits n ≡ true) = s.holds.1.1 in cc))
  ]

  Runs-tail :
      (latest : Bool) (j : Json)
      → Triple
          (Shows (Both with_txn Free))
          (set_tail lt n j latest)
          (λ _. Stepped (it latest) b true)
          (Stepped (it latest) b false)
          (λ _. ⊥)
  unfolding set_tail Turned
  Runs-tail false j = Runs-pure tt (entered_step true)
  Runs-tail true j = Runs-bind {R = λ u. Turned} _ _ Runs-latest (λ u.
      Runs-existent (it true) b (turned (value lt) n with_txn) lt (size_or j n) Free turned_step)

  Runs-add :
      (latest : Bool)
      → Triple
          (Sees b)
          (add_txn k lt n id added v latest)
          (λ _. Stepped (it latest) b true)
          (Stepped (it latest) b false)
          (λ _. ⊥)
  unfolding add_txn
  Runs-add latest =
      Runs-bind {R = λ x. Sees b} (lift (txn_extract_terms k v)) _
        (Runs-lift _ (λ x c e s. s) (refused latest))
        (λ x.
          Runs-bind {R = λ termsid. Sees b} (insert_if_any x.1) _ (Runs-terms latest x.1)
            (λ termsid.
              Runs-bind {R = λ u. Shows (Both with_txn Free)} _ _ (Runs-row latest x.0 termsid)
                (λ u. Runs-tail latest x.2)))

-- The call of a write.
abbrev pub write : Codecs → Write → Exec Cache (Unit {0})
write k (adds lt n id added v latest) = add_txn k lt n id added v latest
write k (sets_latest lt n) = set_latest lt n
write k (sets_existent lt j) = set_existent lt j

-- A number that fits is set, and another may raise.
Runs-sets_latest :
    (b : Book) (lt : LedgerType) (n : ℕ)
    → Triple
        (Sees b)
        (set_latest lt n)
        (λ _. Stepped (sets_latest lt n) b true)
        (Stepped (sets_latest lt n) b false)
        (λ _. ⊥)
unfolding set_latest
Runs-sets_latest b lt n =
    let post : ((c : Cache)
        → Sees (turned (value lt) n b) c
        → Stepped (sets_latest lt n) b true c) =
      λ c s. record { after = turned (value lt) n b; step = done tt true (inr refl); sees = s } in
    elim (Bool-cases (fits n)) [
      | inl e ↦ rw (set_latest-update lt n e) (
          Runs-update (λ d. record d { latest = replace (value lt) n d.latest })
            (λ t p. latest-IsView (value lt) n b t p) post)
      | inr e ↦
          Runs-statement (replace_latest lt n)
            (λ t t' a p h. rw (replaced_latest lt n t t' a h) (latest-IsView (value lt) n b t p))
            post (λ c s. record { after = b; step = failed (rw e refl); sees = s })
    ]

pub Runs-write :
    (k : Codecs) (b : Book) (w : Write)
    → Triple (Sees b) (write k w) (λ _. Stepped w b true) (Stepped w b false) (λ _. ⊥)
unfolding set_latest set_existent
Runs-write k b (adds lt n id added v latest) = Runs-add k b lt n id added v latest
Runs-write k b (sets_latest lt n) = Runs-sets_latest b lt n
Runs-write k b (sets_existent lt j) =
    Runs-statement (replace_existent lt j)
      (λ t t' a p e. IsView-rows b t t' (replaced_rows lt j t t' a e) p)
      (λ c s. record { after = b; step = done tt true (inr refl); sees = s })
      (λ c s. record { after = b; step = failed refl; sees = s })
