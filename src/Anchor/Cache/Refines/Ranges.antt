-- ===== src/Anchor/Cache/Refines/Ranges.antt =====
-- A range of the cache as a walk over the book.
use indy_perf.Base.{
  ℕ, zero, suc, ◌+◌, ◌-◌, ◌≤◌, ◌<◌, ◌≡◌, refl, sym, ap, ◌∙◌, Bool, true, false, ◌&&◌, inl, inr,
  Bool-cases, Option, none, some, List, [], ◌∷◌, map, ◌==◌, leb, arith, if◌then◌else◌,
}
use indy_perf.Exn.{Result, ok, err, overflow_error}
use indy_perf.Exec.{Outcome, returned, raised, ◌>>=◌}
use indy_perf.Anchor.LedgerType.{LedgerType, value}
use indy_perf.Anchor.Cache.{info_of, until_gap, get_txn_range, get_latest_seqno, rows_between}
use indy_perf.Anchor.Cache.Connection.{
  Cache, holding, select, select_bound, query, on_tables, stored,
}
use indy_perf.Anchor.Cache.Schema.{
  fits, bind_both, Row, TxnInfo, Tables, info, find_seqno, insert_by_seqno, select_range,
}
use indy_perf.Anchor.Cache.Complete.{Rises, select_range-Rises}
use indy_perf.Anchor.Cache.RoundTrip.{Shows}
use indy_perf.Anchor.Cache.Refines.{Book, IsView}

-- At most `k` entries from number `n` on, up to the first that is not there.
unfoldable pub walk : (ℕ → Option TxnInfo) → ℕ → ℕ → List TxnInfo
walk f zero n = []
walk f (suc k) n = let rest = walk f k (n + 1) in elim (f n) [ none ↦ [] | some i ↦ i ∷ rest ]

-- The first row with a number.
row_at : ℕ → List Row → Option TxnInfo
row_at n [] = none
row_at n (r ∷ rows) = if r.seqno == n then some (info r) else row_at n rows

row_at-below : (m n : ℕ) (rows : List Row) → Rises n rows → m < n → row_at m rows ≡ none
unfolding row_at
row_at-below m n [] p h = refl
row_at-below m n (r ∷ rows) (q, p) h =
    ground (arith, row_at-below m (r.seqno + 1) rows p (omega arith))

row_at-insert_by_seqno :
    (n : ℕ) (r : Row) (rows : List Row)
    → row_at n (insert_by_seqno r rows) ≡ (if r.seqno == n then some (info r) else row_at n rows)
unfolding insert_by_seqno row_at
row_at-insert_by_seqno n r [] = refl
row_at-insert_by_seqno n r (q ∷ rows) = ground (arith, row_at-insert_by_seqno n r rows)

-- What a range has at a number.
row_at-select_range :
    (l s e n : ℕ) (rows : List Row)
    → row_at n (select_range l s e rows)
      ≡ (if leb s n && leb n e then info_of (find_seqno l n rows) else none)
unfolding select_range row_at find_seqno info_of
row_at-select_range l s e n [] = ground arith
row_at-select_range l s e n (r ∷ rows) =
    ground (
      arith,
      row_at-select_range l s e n rows,
      row_at-insert_by_seqno n r (select_range l s e rows),
    )

walk-none : (f : ℕ → Option TxnInfo) (k n : ℕ) → f n ≡ none → walk f (suc k) n ≡ []
unfolding walk
walk-none f k n e = rw (walk, e) refl

walk-some :
    (f : ℕ → Option TxnInfo) (k n : ℕ) (i : TxnInfo)
    → f n ≡ some i
    → walk f (suc k) n ≡ i ∷ walk f k (n + 1)
unfolding walk
walk-some f k n i e = rw (walk, e) refl

-- What the rows have at a number that is in the range.
inside : (c : Bool) (x y : Option TxnInfo) → y ≡ (if c then x else none) → c ≡ true → x ≡ y
inside true x y e s = sym e
inside false x y e s = absurd cc

not_over : (k n e : ℕ) → suc k ≡ e + 1 - n → leb n e ≡ true
not_over k n e q = ground arith

over : (n e : ℕ) → 0 ≡ e + 1 - n → leb n e ≡ false
over n e q = ground arith

row_at-here :
    (n : ℕ) (r : Row) (rows : List Row)
    → (r.seqno == n) ≡ true
    → row_at n (r ∷ rows) ≡ some (info r)
unfolding row_at
row_at-here n r rows h = rw h refl

row_at-past :
    (n : ℕ) (r : Row) (rows : List Row)
    → (r.seqno == n) ≡ false
    → row_at n (r ∷ rows) ≡ row_at n rows
unfolding row_at
row_at-past n r rows h = rw h refl

past_it : (m n : ℕ) (r : Row) → (r.seqno == n) ≡ true → n + 1 ≤ m → (r.seqno == m) ≡ false
past_it m n r here le = ground arith

-- Rows that rise and hold `f` up to `e`.
until_gap-walk :
    (f : ℕ → Option TxnInfo) (e k n : ℕ) (rows : List Row)
    → k ≡ e + 1 - n
    → Rises n rows
    → ((m : ℕ) → n ≤ m → row_at m rows ≡ (if leb m e then f m else none))
    → map info (until_gap n rows) ≡ walk f k n
unfolding until_gap walk row_at
until_gap-walk f e zero n [] q p h = refl
until_gap-walk f e (suc k) n [] q p h =
    sym (walk-none f k n (inside (leb n e) (f n) none (h n (omega arith)) (not_over k n e q)))
until_gap-walk f e zero n (r ∷ rows) q (b, p) h = elim (Bool-cases (r.seqno == n)) [
  | inl here ↦
      (let at_n : (row_at n (r ∷ rows) ≡ (if leb n e then f n else none)) = h n (omega arith) in
        let held : (some (info r) ≡ none) =
          sym (row_at-here n r rows here) ∙ at_n ∙ rw (over n e q) refl in
        absurd cc)
  | inr gap ↦ rw gap refl
]
until_gap-walk f e (suc k) n (r ∷ rows) q (b, p) h =
    let found : (f n ≡ row_at n (r ∷ rows)) =
      inside (leb n e) (f n) (row_at n (r ∷ rows)) (h n (omega arith)) (not_over k n e q) in
    elim (Bool-cases (r.seqno == n)) [
      | inl here ↦
          (let first : (r.seqno ≡ n) = ground arith in
            let rest : (map info (until_gap (n + 1) rows) ≡ walk f k (n + 1)) =
              until_gap-walk f e k (n + 1) rows (omega arith) (rw first at p)
                (λ m le. sym (row_at-past m r rows (past_it m n r here le)) ∙ h m (omega arith)) in
            rw here (
              ap (λ l. info r ∷ l) rest
              ∙ sym (walk-some f k n (info r) (found ∙ row_at-here n r rows here))))
      | inr gap ↦ rw gap (
          sym (
            walk-none f k n (
              found
              ∙ row_at-past n r rows gap
              ∙ row_at-below n (r.seqno + 1) rows p (omega arith))))
    ]

in_book :
    (b : Book) (t : Tables)
    → IsView b t
    → (l s e m : ℕ) → suc s ≤ m
    → row_at m (select_range l (suc s) e t.transactions) ≡ (if leb m e then b.txn l m else none)
in_book b t v l s e m le =
    let from : (leb (suc s) m ≡ true) = ground arith in
    row_at-select_range l (suc s) e m t.transactions ∙ rw (from, v.txns l m) refl

-- What a SELECT gives, by whether its parameters were bound.
abbrev pub answer : {A : Type 0} → Result (Unit {0}) → A → Outcome A
answer (ok u) a = returned a
answer (err e) a = raised e

pub answer-if :
    {A : Type 0} (b : Bool) (a : A)
    → answer (if b then ok tt else err overflow_error) a
      ≡ (if b then returned a else raised overflow_error)
answer-if true a = refl
answer-if false a = refl

pub select_bound-answer :
    {A : Type 0} (b : Result (Unit {0})) (f : Tables → A) (c : Cache) (t : Tables)
    → c.db ≡ holding t
    → (select_bound b f c).0 ≡ answer b (f t)
unfolding select_bound query on_tables stored
select_bound-answer (ok u) f c t e = rw e refl
select_bound-answer (err x) f c t e = rw e refl

-- A range between two numbers from 1 on is a walk over the book.
pub get_txn_range-walk :
    (b : Book) (c : Cache)
    → Shows (IsView b) c
    → (lt : LedgerType) (s e : ℕ)
    → (get_txn_range lt (some (suc s)) (some (suc e)) c).0 ≡ (
        if fits (suc s) && fits (suc e)
        then returned (walk (b.txn (value lt)) (suc e + 1 - suc s) (suc s))
        else raised overflow_error)
unfolding get_txn_range get_latest_seqno rows_between bind_both select query on_tables stored ◌>>=◌
get_txn_range-walk b c v lt s e =
    let rows = select_range (value lt) (suc s) (suc e) v.tables.transactions in
    rw v.open_db (
      select_bound-answer (bind_both (suc s) (suc e))
        (λ d. map info (until_gap (suc s) (select_range (value lt) (suc s) (suc e) d.transactions)))
        _ v.tables refl
      ∙ answer-if (fits (suc s) && fits (suc e)) _
      ∙ ap (λ l. if fits (suc s) && fits (suc e) then returned l else raised overflow_error)
          (until_gap-walk (b.txn (value lt)) (suc e) (suc e + 1 - suc s) (suc s) rows refl
            (select_range-Rises (value lt) (suc s) (suc e) v.tables.transactions v.holds.keyed)
            (in_book b v.tables v.holds (value lt) s (suc e))))
