-- ===== src/Anchor/Cache/Refines/Reads.antt =====
-- What the cache answers after any writes is what the book has.
use indy_perf.Base.{
  ℕ, suc, ◌+◌, ◌-◌, some, ◌≡◌, refl, ap, ◌∙◌, Bool, true, false, ◌&&◌, if◌then◌else◌, List, [], ◌∷◌,
}
use indy_perf.Exec.{Outcome, returned, raised, waiting}
use indy_perf.Exec.Runs.{Stops}
use indy_perf.Anchor.Ident.{int}
use indy_perf.Anchor.LedgerType.{LedgerType, value}
use indy_perf.Anchor.Terms.{Codecs}
use indy_perf.Anchor.Cache.{get_txn, get_txn_range, get_latest_seqno, select_txn, nonzero}
use indy_perf.Exn.{ok, overflow_error}
use indy_perf.Anchor.Cache.Schema.{fits, bind_number, bind_ident, Tables, select_by_ledger}
use indy_perf.Anchor.Cache.Connection.{Cache, stored, query, select}
use indy_perf.Anchor.Cache.Reopened.{Write, adds, sets_latest, sets_existent, write_all}
use indy_perf.Anchor.Cache.Refines.{Book, Step}
use indy_perf.Anchor.Cache.Refines.Ranges.{walk, answer-if, select_bound-answer, get_txn_range-walk}
use indy_perf.Anchor.Cache.Refines.Statements.{on_open}
use indy_perf.Anchor.Cache.Refines.Steps.{Sees, Stepped, write, Runs-write}

-- One write after another, each with whether it returned.
pub data Steps : List Write → List Bool → Book → Book → Type 0 where
  no_more : {b : Book} → Steps [] [] b b
  next :
      {w : Write} {ws : List Write} {r : Bool} {rs : List Bool} {b b' b'' : Book}
      → Step w b r b'
      → Steps ws rs b' b''
      → Steps (w ∷ ws) (r ∷ rs) b b''

abbrev pub has_returned : Outcome (Unit {0}) → Bool
has_returned (returned a) = true
has_returned _ = false

-- Which of the writes returned.
unfoldable pub returns : Codecs → List Write → Cache → List Bool
returns k [] c = []
returns k (w ∷ ws) c = has_returned (write k w c).0 ∷ returns k ws (write k w c).1

-- The cache answers as a book that the steps of the writes lead to.
pub record Agrees (b : Book) (ws : List Write) (rs : List Bool) (c : Cache) : Type 0 where
  pub after : Book
  pub steps : Steps ws rs b after
  pub txns :
      (lt : LedgerType) (n : ℕ)
      → (get_txn lt (int (suc n)) c).0
        ≡ (if fits (suc n) then returned (after.txn (value lt) (suc n)) else raised overflow_error)
  pub latest : (lt : LedgerType) → (get_latest_seqno lt c).0 ≡ returned (after.latest (value lt))
  pub ranges :
      (lt : LedgerType) (s e : ℕ)
      → (get_txn_range lt (some (suc s)) (some (suc e)) c).0 ≡ (
          if fits (suc s) && fits (suc e)
          then returned (walk (after.txn (value lt)) (suc e + 1 - suc s) (suc s))
          else raised overflow_error)

-- A read of an open connection.
selected :
    {A : Type 0} (f : Tables → A) (b : Book) (c : Cache) (s : Sees b c)
    → (select f c).0 ≡ returned (f s.tables)
unfolding select query stored
selected f b c s = ap (λ x. x.0) (on_open (λ t. ok (f t, t)) c.db s.tables c s.open_db)

get_txn-Sees :
    (b : Book) (c : Cache)
    → Sees b c
    → (lt : LedgerType) (n : ℕ)
    → (get_txn lt (int (suc n)) c).0
      ≡ (if fits (suc n) then returned (b.txn (value lt) (suc n)) else raised overflow_error)
unfolding get_txn bind_ident bind_number select_txn
get_txn-Sees b c s lt n =
    select_bound-answer (bind_ident (int (suc n))) (select_txn lt (int (suc n))) c s.tables
      s.open_db
    ∙ answer-if (fits (suc n)) _
    ∙ ap (λ o. if fits (suc n) then returned o else raised overflow_error)
        (s.holds.txns (value lt) (suc n))

get_latest_seqno-Sees :
    (b : Book) (c : Cache)
    → Sees b c
    → (lt : LedgerType) → (get_latest_seqno lt c).0 ≡ returned (b.latest (value lt))
unfolding get_latest_seqno
get_latest_seqno-Sees b c s lt =
    selected (λ t. nonzero (select_by_ledger (value lt) t.latest)) b c s
    ∙ ap returned (s.holds.latest (value lt))

write_all-next :
    (k : Codecs) (w : Write) (ws : List Write) (c : Cache)
    → write_all k (w ∷ ws) c ≡ write_all k ws (write k w c).1
unfolding write_all
write_all-next k (adds lt n id added v latest) ws c = refl
write_all-next k (sets_latest lt n) ws c = refl
write_all-next k (sets_existent lt j) ws c = refl

Stepped-after :
    (w : Write) (b : Book) (x : Outcome (Unit {0}) × Cache)
    → Stops (λ _. Stepped w b true) (Stepped w b false) (λ _. ⊥) x
    → Stepped w b (has_returned x.0) x.1
Stepped-after w b (returned a, c) s = s
Stepped-after w b (raised e, c) s = s
Stepped-after w b (waiting, c) s = absurd s

-- On an open cache with a book: after any writes, each of which may raise, the transaction at any number from 1
-- on, the latest number of any ledger, and the range between any two numbers from 1 on, which ends before the
-- first number that has no transaction, are those of a book that the writes lead to, one step for each; a read
-- by a number that is not below 2 ^ 63, which sqlite3 cannot bind, raises an OverflowError. A write that returned took its step, an add then of a number that was free. One that raised took it as a whole
-- or not at all, and to set a latest number below 2 ^ 63 never raises.
pub write_all-Agrees :
    (k : Codecs) (ws : List Write) (b : Book) (c : Cache)
    → Sees b c
    → Agrees b ws (returns k ws c) (write_all k ws c)
unfolding write_all returns
write_all-Agrees k [] b c s = record {
  after = b;
  steps = no_more;
  txns = get_txn-Sees b c s;
  latest = get_latest_seqno-Sees b c s;
  ranges = get_txn_range-walk b c s;
}
write_all-Agrees k (w ∷ ws) b c s =
    let first = Stepped-after w b (write k w c) ((Runs-write k b w).at c s) in
    let rest = write_all-Agrees k ws first.after (write k w c).1 first.sees in
    rw (write_all-next k w ws c) (record {
      after = rest.after;
      steps = next first.step rest.steps;
      txns = rest.txns;
      latest = rest.latest;
      ranges = rest.ranges;
    })
