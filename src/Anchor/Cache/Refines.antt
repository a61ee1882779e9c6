-- ===== src/Anchor/Cache/Refines.antt =====
-- The cache as a book that forgets how rows are stored: for each ledger, the transaction at each number, and
-- the latest number. Every write is a step of the book.
pub mod Ranges
pub mod Statements
pub mod Steps
pub mod Reads
use indy_perf.Base.{
  ◌⊎◌, ℕ, ◌∙◌, ◌+◌, ◌≡◌, refl, sym, Bool, true, false, not, ◌&&◌, Option, none, some, List, [], ◌∷◌,
  ◌++◌, ◌==◌, arith, if◌then◌else◌,
}
use indy_perf.Exn.{ok}
use indy_perf.Json.{Json, JsonText}
use indy_perf.Anchor.LedgerType.{value}
use indy_perf.Anchor.Cache.{nonzero, info_of}
use indy_perf.Anchor.Cache.Schema.{
  Time, Row, TxnInfo, Tables, replace, select_by_ledger, find_seqno, insert_transaction, new_row,
  fits,
}
use indy_perf.Anchor.Cache.Filled.{select_by_ledger-replace, inserted}
use indy_perf.Anchor.Cache.Complete.{IsKeyed}
use indy_perf.Anchor.Cache.Reopened.{Write, adds, sets_latest, sets_existent}
use indy_perf.Anchor.Cache.RoundTrip.{stored_info}

pub record Book : Type 0 where
  pub txn : ℕ → ℕ → Option TxnInfo
  pub latest : ℕ → Option ℕ

-- The book of the tables.
pub record IsView (b : Book) (t : Tables) : Type 0 where
  pub txns : (l n : ℕ) → info_of (find_seqno l n t.transactions) ≡ b.txn l n
  pub latest : (l : ℕ) → nonzero (select_by_ledger l t.latest) ≡ b.latest l
  pub keyed : IsKeyed t.transactions

abbrev pub entered : ℕ → ℕ → TxnInfo → Book → Book
entered l n i b = record b { txn = λ j m. if l == j && n == m then some i else b.txn j m }

abbrev pub turned : ℕ → ℕ → Book → Book
turned l n b = record b { latest = λ j. if l == j then nonzero (some n) else b.latest j }

-- What a write does to the book.
abbrev pub performed : Write → Book → Book
performed (adds lt n id added v true) b =
    turned (value lt) n (entered (value lt) n (stored_info n id added v) b)
performed (adds lt n id added v false) b = entered (value lt) n (stored_info n id added v) b
performed (sets_latest lt n) b = turned (value lt) n b
performed (sets_existent lt j) b = b

-- What must hold of the book: a number is taken once.
abbrev pub IsFree : Write → Book → Type 0
IsFree (adds lt n id added v latest) b = b.txn (value lt) n ≡ none
IsFree _ b = Unit

abbrev pub can_fail : Write → Bool
can_fail (sets_latest lt n) = not (fits n)
can_fail _ = true

-- A step of the book for a write that returned, or that raised.
pub data Step (w : Write) (b : Book) : Bool → Book → Type 0 where
  done : IsFree w b → (r : Bool) → (can_fail w ≡ true) ⊎ (r ≡ true) → Step w b r (performed w b)
  failed : can_fail w ≡ true → Step w b false b

find_seqno-append :
    (l n j m : ℕ) (r : Row) (rows : List Row)
    → find_seqno l n rows ≡ none
    → r.ledger ≡ l
    → r.seqno ≡ n
    → find_seqno j m (rows ++ r ∷ []) ≡ (if l == j && n == m then some r else find_seqno j m rows)
unfolding find_seqno
find_seqno-append l n j m r [] e a b = ground arith
find_seqno-append l n j m r (q ∷ rows) e a b = ground (arith, find_seqno-append l n j m r rows)

find_seqno-other :
    (l n : ℕ) (r : Row) (rows : List Row)
    → find_seqno l n rows ≡ none
    → (r.ledger == l && r.seqno == n) ≡ false
    → find_seqno l n (rows ++ r ∷ []) ≡ none
unfolding find_seqno
find_seqno-other l n r [] e a = ground arith
find_seqno-other l n r (q ∷ rows) e a = ground (arith, find_seqno-other l n r rows)

-- A row whose key is not there leaves all keys different.
IsKeyed-append :
    (r : Row) (rows : List Row)
    → IsKeyed rows
    → find_seqno r.ledger r.seqno rows ≡ none
    → IsKeyed (rows ++ r ∷ [])
unfolding find_seqno
IsKeyed-append r [] k e = (refl, tt)
IsKeyed-append r (q ∷ rows) (fresh, k) e = (
  find_seqno-other q.ledger q.seqno r rows fresh (ground arith),
  IsKeyed-append r rows k (ground arith),
)

push_if :
    {A B : Type 0} (f : A → B) (c : Bool) (x y : A)
    → f (if c then x else y) ≡ (if c then f x else f y)
push_if f true x y = refl
push_if f false x y = refl

pub insert-IsView :
    (l n : ℕ) (ty id : Json) (added : Time) (v : JsonText) (termsid : Option ℕ) (b : Book)
    (t t' : Tables)
    → IsView b t
    → insert_transaction l n ty id added v termsid t ≡ ok t'
    → IsView (entered l n (stored_info n id added v) b) t' × (b.txn l n ≡ none)
unfolding new_row info_of
insert-IsView l n ty id added v termsid b t t' p e =
    let (same, fresh) = inserted l n ty id added v termsid t t' e in
    let row = new_row l n ty id added v termsid in
    let other : ((j m : ℕ)
        → info_of (find_seqno j m (t.transactions ++ row ∷ []))
          ≡ (if l == j && n == m then some (stored_info n id added v) else b.txn j m)) =
      λ j m. rw (find_seqno-append l n j m row t.transactions fresh refl refl) (
        push_if info_of (l == j && n == m) (some row) (find_seqno j m t.transactions)
        ∙ rw (p.txns j m) refl) in
    (
      rw same (record {
        txns = other;
        latest = p.latest;
        keyed = IsKeyed-append row t.transactions p.keyed fresh;
      }),
      rw (sym (p.txns l n), fresh) refl,
    )

pub latest-IsView :
    (l n : ℕ) (b : Book) (t : Tables)
    → IsView b t
    → IsView (turned l n b) (record t { latest = replace l n t.latest })
latest-IsView l n b t p = record {
  txns = p.txns;
  latest = λ j.
      rw (select_by_ledger-replace l j n t.latest)
        (push_if nonzero (l == j) (some n) (select_by_ledger j t.latest) ∙ rw (p.latest j) refl);
  keyed = p.keyed;
}
