-- ===== src/Anchor/Cache/Complete.antt =====
-- A range of a cache without a gap has every transaction that is asked for.
use indy_perf.Base.{
  ℕ, suc, ◌+◌, ◌-◌, ◌≤◌, ◌<◌, ◌≡◌, refl, ap, ◌∙◌, map, Bool, true, false, ◌&&◌, ◌||◌, inl, inr,
  Bool-cases, none, some, List, [], ◌∷◌, length, ◌==◌, leb, arith,
}
use indy_perf.Exec.{◌>>=◌}
use indy_perf.Exec.Runs.{Stops}
use indy_perf.Anchor.LedgerType.{LedgerType, value}
use indy_perf.Anchor.Cache.Connection.{
  Cache, holding, select, select_bound, query, on_tables, stored,
}
use indy_perf.Anchor.Cache.Consecutive.{Consecutive, until_gap-Consecutive}
use indy_perf.Anchor.Cache.{until_gap, get_txn_range, get_latest_seqno, rows_between}
use indy_perf.Anchor.Cache.Schema.{
  fits, bind_both, Row, Tables, info, find_seqno, insert_by_seqno, select_range,
}
use indy_perf.Anchor.Cache.Filled.{IsFilled, is_some, latest_of}

-- PRIMARY KEY (ledger, seqno): no two rows have the same key.
abbrev pub IsKeyed : List Row → Type 0
IsKeyed [] = Unit
IsKeyed (r ∷ rows) = (find_seqno r.ledger r.seqno rows ≡ none) × IsKeyed rows

-- The numbers rise, from `n` on.
abbrev pub Rises : ℕ → List Row → Type 0
Rises n [] = Unit
Rises n (r ∷ rows) = (n ≤ r.seqno) × Rises (r.seqno + 1) rows

is_in : ℕ → List Row → Bool
is_in n [] = false
is_in n (r ∷ rows) = r.seqno == n || is_in n rows

is_in-below : (m n : ℕ) (rows : List Row) → Rises n rows → m < n → is_in m rows ≡ false
unfolding is_in
is_in-below m n [] p h = refl
is_in-below m n (r ∷ rows) (q, p) h =
    ground (arith, is_in-below m (r.seqno + 1) rows p (omega arith))

insert_by_seqno-Rises :
    (n : ℕ) (r : Row) (rows : List Row)
    → Rises n rows
    → n ≤ r.seqno
    → is_in r.seqno rows ≡ false
    → Rises n (insert_by_seqno r rows)
unfolding insert_by_seqno is_in
insert_by_seqno-Rises n r [] p h e = (h, tt)
insert_by_seqno-Rises n r (q ∷ rows) (b, p) h e = elim (Bool-cases (leb r.seqno q.seqno)) [
  | inl before ↦ rw before (h, (ground arith, p))
  | inr behind ↦
      rw behind (b, insert_by_seqno-Rises (q.seqno + 1) r rows p (ground arith) (ground arith))
]

is_in-insert_by_seqno :
    (n : ℕ) (r : Row) (rows : List Row)
    → is_in n (insert_by_seqno r rows) ≡ (r.seqno == n || is_in n rows)
unfolding insert_by_seqno is_in
is_in-insert_by_seqno n r [] = refl
is_in-insert_by_seqno n r (q ∷ rows) = ground (arith, is_in-insert_by_seqno n r rows)

-- What a range has: the rows of the ledger between the two numbers.
is_in-select_range :
    (l s e n : ℕ) (rows : List Row)
    → is_in n (select_range l s e rows) ≡ (leb s n && leb n e && is_some (find_seqno l n rows))
unfolding select_range is_in find_seqno
is_in-select_range l s e n [] = ground arith
is_in-select_range l s e n (r ∷ rows) =
    ground
      (arith, is_in-select_range l s e n rows, is_in-insert_by_seqno n r (select_range l s e rows))

not_selected :
    (l s e : ℕ) (r : Row) (rows : List Row)
    → find_seqno r.ledger r.seqno rows ≡ none
    → r.ledger == l && leb s r.seqno && leb r.seqno e ≡ true
    → is_in r.seqno (select_range l s e rows) ≡ false
not_selected l s e r rows fresh within = ground (arith, is_in-select_range l s e r.seqno rows)

nothing_left : (n e : ℕ) → false ≡ leb n e → 0 ≡ e + 1 - n
nothing_left n e h = ground arith

pub select_range-Rises :
    (l s e : ℕ) (rows : List Row) → IsKeyed rows → Rises s (select_range l s e rows)
unfolding select_range
select_range-Rises l s e [] k = tt
select_range-Rises l s e (r ∷ rows) (fresh, k) =
    elim (Bool-cases (r.ledger == l && leb s r.seqno && leb r.seqno e)) [
      | inl within ↦ rw within (
          insert_by_seqno-Rises s r (select_range l s e rows) (select_range-Rises l s e rows k)
            (ground arith) (not_selected l s e r rows fresh within))
      | inr out ↦ rw out (select_range-Rises l s e rows k)
    ]

reaches :
    (e : ℕ) (r : Row) (rows : List Row)
    → is_in r.seqno (r ∷ rows) ≡ leb r.seqno e
    → leb r.seqno e ≡ true
unfolding is_in
reaches e r rows h = ground arith

first_number :
    (n e : ℕ) (r : Row) (rows : List Row)
    → is_in n (r ∷ rows) ≡ leb n e
    → is_in n rows ≡ false
    → leb r.seqno e ≡ true
    → n ≤ r.seqno
    → r.seqno ≡ n
unfolding is_in
first_number n e r rows h f up b = ground arith

later_number :
    (m n e : ℕ) (r : Row) (rows : List Row)
    → r.seqno ≡ n
    → n + 1 ≤ m
    → is_in m (r ∷ rows) ≡ leb m e
    → is_in m rows ≡ leb m e
unfolding is_in
later_number m n e r rows first le h = ground arith

same_number : (n : ℕ) (r : Row) → r.seqno ≡ n → (r.seqno == n) ≡ true
same_number n r first = ground arith

one_more :
    {k : ℕ} (n e : ℕ) (r : Row)
    → r.seqno ≡ n
    → leb r.seqno e ≡ true
    → k ≡ e + 1 - (n + 1)
    → suc k ≡ e + 1 - n
one_more n e r first up rest = ground arith

-- Rows that rise from `n` on and have each number up to `e` have no gap.
until_gap-length :
    (n e : ℕ) (rows : List Row)
    → Rises n rows
    → ((m : ℕ) → n ≤ m → is_in m rows ≡ leb m e)
    → length (until_gap n rows) ≡ e + 1 - n
unfolding until_gap is_in
until_gap-length n e [] p h = nothing_left n e (h n (omega arith))
until_gap-length n e (r ∷ rows) (b, p) h =
    let absent_later : is_in n rows ≡ false = is_in-below n (r.seqno + 1) rows p (omega arith) in
    let up_to_end : leb r.seqno e ≡ true = reaches e r rows (h r.seqno b) in
    let first : r.seqno ≡ n =
      first_number n e r rows (h n (omega arith)) absent_later up_to_end b in
    let rest : length (until_gap (n + 1) rows) ≡ e + 1 - (n + 1) =
      until_gap-length (n + 1) e rows (rw first at p)
        (λ m le. later_number m n e r rows first le (h m (omega arith))) in
    rw (same_number n r first) (one_more n e r first up_to_end rest)

-- A row is there for each number of the range.
all_there :
    (l s e : ℕ) (t : Tables)
    → IsFilled t
    → 1 ≤ s
    → e ≤ latest_of l t
    → (m : ℕ) → s ≤ m
    → is_in m (select_range l s e t.transactions) ≡ leb m e
all_there l s e t f one last m le = elim (Bool-cases (leb m e)) [
  | inl inside ↦
      ground
        (arith, is_in-select_range l s e m t.transactions, f.at l m (omega arith) (ground arith))
  | inr outside ↦ ground (arith, is_in-select_range l s e m t.transactions)
]

range_length :
    (l s e : ℕ) (t : Tables)
    → IsFilled t
    → IsKeyed t.transactions
    → 1 ≤ s
    → e ≤ latest_of l t
    → length (until_gap s (select_range l s e t.transactions)) ≡ e + 1 - s
range_length l s e t f k one last =
    until_gap-length s e (select_range l s e t.transactions)
      (select_range-Rises l s e t.transactions k) (all_there l s e t f one last)

length-map : (rows : List Row) → length (map info rows) ≡ length rows
length-map [] = refl
length-map (r ∷ rows) = ap suc (length-map rows)

Stops-select_bound :
    {A : Type 0} (m n : ℕ) (f : Tables → A) (R : A → Type 0) (c : Cache) (t : Tables)
    → c.db ≡ holding t
    → R (f t)
    → Stops
        (λ a c'. R a)
        (λ c'. (fits m && fits n) ≡ false)
        (λ c'. ⊥)
        (select_bound (bind_both m n) f c)
unfolding select_bound bind_both query on_tables stored
Stops-select_bound m n f R c t open_db r = elim (Bool-cases (fits m && fits n)) [
  | inl e ↦ rw (open_db, e) r
  | inr e ↦ rw (open_db, e) refl
]

-- On an open cache without a gap, whose rows have different keys: a range from `start`, counted from 1, to a
-- number that is not behind the latest returns, one after another, all transactions from `start` to that
-- number, and raises only where one of the two numbers is not below 2 ^ 63.
pub get_txn_range_complete :
    (lt : LedgerType) (s e : ℕ) (c : Cache) (t : Tables)
    → c.db ≡ holding t
    → IsFilled t
    → IsKeyed t.transactions
    → suc e ≤ latest_of (value lt) t
    → Stops
        (λ rows c'. Consecutive (suc s) rows × (length rows ≡ suc e + 1 - suc s))
        (λ c'. (fits (suc s) && fits (suc e)) ≡ false)
        (λ c'. ⊥)
        (get_txn_range lt (some (suc s)) (some (suc e)) c)
unfolding get_txn_range get_latest_seqno rows_between select query on_tables stored ◌>>=◌
get_txn_range_complete lt s e c t open_db f k last =
    let rows = until_gap (suc s) (select_range (value lt) (suc s) (suc e) t.transactions) in
    rw open_db (
      Stops-select_bound (suc s) (suc e)
        (λ d. map info (until_gap (suc s) (select_range (value lt) (suc s) (suc e) d.transactions)))
        (λ rows. Consecutive (suc s) rows × (length rows ≡ suc e + 1 - suc s)) _ t refl
        (
          until_gap-Consecutive (suc s) (select_range (value lt) (suc s) (suc e) t.transactions),
          length-map rows ∙ range_length (value lt) (suc s) (suc e) t f k (omega arith) last,
        ))
