-- ===== src/Anchor/Cache/Selects.antt =====
-- The reads of `LedgerCache` under the invariant of the tables.
use indy_perf.Base.{ℕ, zero, suc, String, ◌≡◌, refl, Bool, true, Option, none, some, arith}
use indy_perf.Exn.{Result}
use indy_perf.Exec.{pure}
use indy_perf.Exec.Runs.{Runs, Keeps, Runs-pure, Runs-if, Keeps-pure, keeps_rules}
use indy_perf.Anchor.Ident.{Ident, int, text, is_int, given, seqno_of}
use indy_perf.Anchor.LedgerType.{LedgerType, value}
use indy_perf.Anchor.Cache.{
  nonzero, get_latest_seqno, get_txn, select_txn, info_of, rows_between, get_txn_range,
  get_max_seqno, get_txn_search,
}
use indy_perf.Anchor.Cache.Schema.{Row, TxnInfo, Tables, select_by_ledger, find_seqno, bind_ident}
use indy_perf.Anchor.Cache.Search.{Match}
use indy_perf.Anchor.Cache.Connection.{select, select_bound}
use indy_perf.Anchor.Cache.Filled.{or_zero, latest_of, is_some, Has}
use indy_perf.Anchor.Cache.Sound.{Sound, Sound-weaken, Runs-select, Runs-select_bound}

or_zero-nonzero : (o : Option ℕ) → or_zero (nonzero o) ≡ or_zero o
unfolding nonzero
or_zero-nonzero none = refl
or_zero-nonzero (some zero) = refl
or_zero-nonzero (some (suc n)) = refl

-- A ledger has a transaction that a read of the cache by its number finds.
abbrev pub IsHit : LedgerType → Ident → Option TxnInfo → Tables → Type 0
IsHit lt ident o t = is_int ident ≡ true → is_some o ≡ true → Has (value lt) (seqno_of ident) t

is_some-info_of : (o : Option Row) → is_some (info_of o) ≡ is_some o
unfolding info_of
is_some-info_of none = refl
is_some-info_of (some r) = refl

IsHit-select_txn :
    (lt : LedgerType) (ident : Ident) (t : Tables) → IsHit lt ident (select_txn lt ident t) t
unfolding select_txn seqno_of is_int
IsHit-select_txn lt (int k) t d h =
    ground (arith, is_some-info_of (find_seqno (value lt) k t.transactions))
IsHit-select_txn lt (text k) t d h =
    rw (← is_some-info_of (find_seqno (value lt) (seqno_of (text k)) t.transactions)) (rw d at h)

module _ {P : Tables → Type 0} (lt : LedgerType) where
  pub Runs-get_txn :
      (ident : Ident)
      → Runs (Sound P) (get_txn lt ident) (λ o. Sound (λ t. P t × IsHit lt ident o t)) (Sound P)
  unfolding get_txn
  Runs-get_txn ident =
      Runs-if (given ident) (select_bound (bind_ident ident) (select_txn lt ident)) (pure none)
        (λ on.
          Runs-select_bound (bind_ident ident) (select_txn lt ident)
            (λ t p. (p, IsHit-select_txn lt ident t)))
        (λ off. Runs-pure none (Sound-weaken (λ t p. (p, λ d h. cc))))

  -- The number that is read is the latest, and none stands for 0.
  pub Runs-get_latest_seqno :
      Runs
        (Sound P)
        (get_latest_seqno lt)
        (λ o. Sound (λ t. P t × (or_zero o ≡ latest_of (value lt) t)))
        (Sound P)
  unfolding get_latest_seqno
  Runs-get_latest_seqno =
      Runs-select _ (λ t p. (p, or_zero-nonzero (select_by_ledger (value lt) t.latest)))

-- What only reads the tables keeps any predicate of them.
pub Keeps-select : {A : Type 0} {P : Tables → Type 0} (f : Tables → A) → Keeps (Sound P) (select f)
Keeps-select f = Runs-select f (λ t p. p)

Keeps-select_bound :
    {A : Type 0} {P : Tables → Type 0} (b : Result (Unit {0})) (f : Tables → A)
    → Keeps (Sound P) (select_bound b f)
Keeps-select_bound b f = Runs-select_bound b f (λ t p. p)

module _ {P : Tables → Type 0} (lt : LedgerType) where
  Keeps-rows_between : (start end' : Option ℕ) → Keeps (Sound P) (rows_between lt start end')
  unfolding rows_between
  Keeps-rows_between (some (suc s)) (some (suc e)) = Keeps-select_bound _ _
  Keeps-rows_between _ _ = Keeps-pure _

  pub Keeps-get_txn_range : (start end' : Option ℕ) → Keeps (Sound P) (get_txn_range lt start end')
  unfolding get_txn_range get_latest_seqno
  Keeps-get_txn_range start end' = search (keeps_rules, Keeps-select, Keeps-rows_between)

  pub Keeps-get_max_seqno : Keeps (Sound P) (get_max_seqno lt)
  unfolding get_max_seqno
  Keeps-get_max_seqno = Keeps-select _

  pub Keeps-get_txn_search :
      (m : Match) (q ty : Option String) (limit : Option ℕ) (offset : ℕ) (count : Bool)
      → Keeps (Sound P) (get_txn_search m lt q ty limit offset count)
  unfolding get_txn_search
  Keeps-get_txn_search m q ty limit offset count =
      search (keeps_rules, Keeps-select, Keeps-select_bound)
