-- ===== src/Anchor/Cache/Filled.antt =====
-- The invariant of the tables: every transaction up to the latest of its ledger is there.
use indy_perf.Base.{
  ℕ, ◌+◌, ◌≤◌, ◌≡◌, refl, Bool, true, false, Option, none, some, List, [], ◌∷◌, ◌++◌, arith, ◌==◌,
  if◌then◌else◌,
}
use indy_perf.Exn.{ok}
use indy_perf.Json.{Json, Fields, JsonText}
use indy_perf.Anchor.Cache.Schema.{
  Time, Row, Tables, no_rows, select_by_ledger, replace, find_seqno, insert_terms,
  insert_transaction, fits, new_row,
}

module _ {A : Type 0} where
  -- REPLACE writes the entry of its ledger and no other.
  pub select_by_ledger-replace :
      (k j : ℕ) (a : A) (l : List (ℕ × A))
      → select_by_ledger j (replace k a l) ≡ (if k == j then some a else select_by_ledger j l)
  unfolding select_by_ledger replace
  select_by_ledger-replace k j a [] = ground arith
  select_by_ledger-replace k j a ((i, b) ∷ l) = ground (arith, select_by_ledger-replace k j a l)

-- The latest number of a ledger, 0 if there is none.
abbrev pub or_zero : Option ℕ → ℕ
or_zero none = 0
or_zero (some n) = n

abbrev pub latest_of : ℕ → Tables → ℕ
latest_of l t = or_zero (select_by_ledger l t.latest)

abbrev pub is_some : {A : Type 0} → Option A → Bool
is_some none = false
is_some (some a) = true

abbrev pub Has : ℕ → ℕ → Tables → Type 0
Has l n t = is_some (find_seqno l n t.transactions) ≡ true

pub record IsFilled (t : Tables) : Type 0 where
  pub at : (l n : ℕ) → 1 ≤ n → n ≤ latest_of l t → Has l n t

-- Rows that are added hide none, and are found.
pub find_seqno-append :
    (l n : ℕ) (rows more : List Row)
    → is_some (find_seqno l n rows) ≡ true
    → is_some (find_seqno l n (rows ++ more)) ≡ true
unfolding find_seqno
find_seqno-append l n [] more h = cc
find_seqno-append l n (r ∷ rows) more h = ground (arith, find_seqno-append l n rows more)

pub find_seqno-append_self :
    (r : Row) (rows : List Row) → is_some (find_seqno r.ledger r.seqno (rows ++ r ∷ [])) ≡ true
unfolding find_seqno
find_seqno-append_self r [] = ground arith
find_seqno-append_self r (q ∷ rows) = ground (arith, find_seqno-append_self r rows)

-- What a statement leaves alone: the latest numbers, and the rows that were there.
pub record Extends (t t' : Tables) : Type 0 where
  pub latest : t'.latest ≡ t.latest
  pub rows : (l n : ℕ) → Has l n t → Has l n t'

pub Extends-refl : (t : Tables) → Extends t t
Extends-refl t = record { latest = refl; rows = λ l n h. h }

pub Extends-trans : {t u v : Tables} → Extends t u → Extends u v → Extends t v
Extends-trans a b = record {
  latest = cc (a.latest, b.latest);
  rows = λ l n h. b.rows l n (a.rows l n h);
}

pub insert_terms_tables :
    (f : Fields) (t : Tables) (k : ℕ) (t' : Tables)
    → insert_terms f t ≡ ok (k, t')
    → t' ≡ record t { terms = t.terms ++ f ∷ [] }
unfolding insert_terms
insert_terms_tables f t k t' h = ground arith

pub insert_terms-Extends :
    (f : Fields) (t : Tables) (k : ℕ) (t' : Tables) → insert_terms f t ≡ ok (k, t') → Extends t t'
insert_terms-Extends f t k t' h =
    rw (insert_terms_tables f t k t' h) (record { latest = refl; rows = λ l n p. p })

module _ (l n : ℕ) (ty id : Json) (added : Time) (v : JsonText) (termsid : Option ℕ) (t t' : Tables)
    (done : insert_transaction l n ty id added v termsid t ≡ ok t') where
  pub inserted :
      (t' ≡ record t { transactions = t.transactions ++ new_row l n ty id added v termsid ∷ [] })
      × (find_seqno l n t.transactions ≡ none)
  unfolding insert_transaction
  inserted = ground arith

  -- Its number was bound.
  pub inserted_fits : fits n ≡ true
  unfolding insert_transaction indy_perf.Anchor.Cache.Schema.bind_number
  inserted_fits = ground arith

  pub insert_transaction-Extends : Extends t t'
  insert_transaction-Extends =
      rw inserted.0
        (record { latest = refl; rows = λ j m h. find_seqno-append j m t.transactions _ h })

  -- The transaction that was written is there.
  pub insert_transaction-Has : Has l n t'
  unfolding new_row
  insert_transaction-Has =
      rw inserted.0 (find_seqno-append_self (new_row l n ty id added v termsid) t.transactions)

-- Where nothing but rows is added, no gap appears.
pub Extends-IsFilled : {t u : Tables} → Extends t u → IsFilled t → IsFilled u
Extends-IsFilled {t} {u} x f = record {
  at = λ l n p q. x.rows l n (f.at l n p (rw (← x.latest) q));
}

-- The latest number may go up by one, to a transaction that is there.
pub set_latest-IsFilled :
    (l n : ℕ) (t : Tables)
    → IsFilled t
    → n ≤ latest_of l t + 1
    → Has l n t
    → IsFilled (record t { latest = replace l n t.latest })
set_latest-IsFilled l n t f le h = record {
  at = λ j m p q. ground (arith, select_by_ledger-replace l j n t.latest, f.at j m p);
}

pub no_rows-IsFilled : IsFilled no_rows
unfolding select_by_ledger
no_rows-IsFilled = record { at = λ l n p q. absurd (omega arith) }

pub cleared-IsFilled :
    (t : Tables) → IsFilled (record t { existent = []; latest = []; transactions = [] })
unfolding select_by_ledger
cleared-IsFilled t = record { at = λ l n p q. absurd (omega arith) }
