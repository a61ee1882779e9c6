-- ===== src/Anchor/Cache/Sound.antt =====
-- The invariant of a connection: what it sees, and each database file, has no gap.
use mathlib.Core.Path.{subst}
use indy_perf.Base.{String, ◌≡◌, refl, List, [], ◌∷◌, str_eq, Bool-cases, inl, inr}
use indy_perf.Exn.{Result, ok, err}
use indy_perf.Exec.{pure, ◌>>=◌}
use indy_perf.Exec.Runs.{Runs, Ends, Keeps, Keeps-if, Keeps-pure}
use indy_perf.Anchor.Cache.Schema.{Tables, no_rows}
use indy_perf.Anchor.Cache.Connection.{
  Db, closed, blank, holding, Cache, stored, on_tables, script_on, created, connected, is_new,
  committed, commit_to, query, select, select_bound, executescript, init_db, close, open_cache,
  reset,
}
use indy_perf.Anchor.Cache.Filled.{IsFilled, no_rows-IsFilled, cleared-IsFilled}

abbrev pub OnDb : (Tables → Type 0) → Db → Type 0
OnDb P closed = Unit
OnDb P blank = Unit
OnDb P (holding t) = P t

abbrev pub OnDisk : List (String × Tables) → Type 0
OnDisk [] = Unit
OnDisk ((p, t) ∷ disk) = IsFilled t × OnDisk disk

-- `P` of the tables that the connection sees, and no gap in a file.
pub record Sound (P : Tables → Type 0) (c : Cache) : Type 0 where
  pub tables : OnDb P c.db
  pub files : OnDisk c.disk

Sound-weaken_db :
    {P Q : Tables → Type 0} (d : Db) → ((t : Tables) → P t → Q t) → OnDb P d → OnDb Q d
Sound-weaken_db closed f h = tt
Sound-weaken_db blank f h = tt
Sound-weaken_db (holding t) f h = f t h

pub Sound-weaken :
    {P Q : Tables → Type 0} (f : (t : Tables) → P t → Q t) (c : Cache) → Sound P c → Sound Q c
Sound-weaken f c s = record { tables = Sound-weaken_db c.db f s.tables; files = s.files }

module _ {A : Type 0} {P : Tables → Type 0} {Q : A → Tables → Type 0}
    (f : Tables → Result (A × Tables))
    (step : (t t' : Tables) (a : A) → P t → f t ≡ ok (a, t') → Q a t') where
  Ends-stored :
      (t : Tables) (r : Result (A × Tables)) (c : Cache)
      → f t ≡ r
      → P t
      → Sound P c
      → Ends (λ a. Sound (Q a)) (Sound P) (stored r c)
  unfolding stored
  Ends-stored t (ok (a, t')) c e p s = record { tables = step t t' a p e; files = s.files }
  Ends-stored t (err x) c e p s = s

  Ends-on_tables :
      (d : Db) (c : Cache)
      → OnDb P d
      → Sound P c
      → Ends (λ a. Sound (Q a)) (Sound P) (on_tables f d c)
  unfolding on_tables
  Ends-on_tables closed c p s = s
  Ends-on_tables blank c p s = s
  Ends-on_tables (holding t) c p s = Ends-stored t (f t) c refl p s

  -- A statement runs on what the connection sees, and leaves the files alone.
  pub Runs-query : Runs (Sound P) (query f) (λ a. Sound (Q a)) (Sound P)
  unfolding query
  Runs-query = record { at = λ c s. Ends-on_tables c.db c s.tables s }

abbrev OfOk : {A : Type 0} → (A → Tables → Type 0) → Result (A × Tables) → Type 0
OfOk Q (ok (a, t)) = Q a t
OfOk Q (err e) = Unit

-- A statement that always succeeds.
pub Runs-update :
    {A : Type 0} {P : Tables → Type 0} {Q : A → Tables → Type 0} (a : A) (g : Tables → Tables)
    → ((t : Tables) → P t → Q a (g t))
    → Runs (Sound P) (query (λ t. ok (a, g t))) (λ b. Sound (Q b)) (Sound P)
Runs-update {Q} a g h = Runs-query (λ t. ok (a, g t)) (λ t t' b p e. subst (OfOk Q) e (h t p))

-- A SELECT changes nothing, and its value is that of the tables.
pub Runs-select :
    {A : Type 0} {P : Tables → Type 0} {Q : A → Tables → Type 0} (f : Tables → A)
    → ((t : Tables) → P t → Q (f t) t)
    → Runs (Sound P) (select f) (λ a. Sound (Q a)) (Sound P)
unfolding select
Runs-select {Q} f h = Runs-query (λ t. ok (f t, t)) (λ t t' a p e. subst (OfOk Q) e (h t p))

pub Runs-select_bound :
    {A : Type 0} {P : Tables → Type 0} {Q : A → Tables → Type 0} (b : Result (Unit {0}))
    (f : Tables → A)
    → ((t : Tables) → P t → Q (f t) t)
    → Runs (Sound P) (select_bound b f) (λ a. Sound (Q a)) (Sound P)
unfolding select_bound
Runs-select_bound {Q} (ok u) f h =
    Runs-query (λ t. ok (f t, t)) (λ t t' a p e. subst (OfOk Q) e (h t p))
Runs-select_bound {Q} (err x) f h = Runs-query (λ t. err x) (λ t t' a p e. absurd cc)

OnDisk-commit_to :
    (p : String) (t : Tables) (disk : List (String × Tables))
    → IsFilled t
    → OnDisk disk
    → OnDisk (commit_to p t disk)
unfolding commit_to
OnDisk-commit_to p t disk f d = elim (Bool-cases (str_eq p ":memory:")) [
  | inl memory ↦ rw memory d
  | inr file ↦ rw file (f, d)
]

Ends-script_on :
    (f : Tables → Tables) (d : Db) (c : Cache)
    → ((t : Tables) → IsFilled (f t))
    → Sound IsFilled c
    → Ends (λ a. Sound IsFilled) (Sound IsFilled) (script_on f d c)
unfolding script_on
Ends-script_on f closed c h s = s
Ends-script_on f blank c h s = s
Ends-script_on f (holding t) c h s = record {
  tables = h t;
  files = OnDisk-commit_to c.db_path (f t) c.disk (h t) s.files;
}

-- `reset` leaves no gap, in the tables and in the file.
pub Keeps-reset : Keeps (Sound IsFilled) reset
unfolding reset executescript
Keeps-reset = record { at = λ c s. Ends-script_on _ c.db c cleared-IsFilled s }

Ends-created :
    (d : Db) (c : Cache)
    → Sound IsFilled c
    → Ends (λ a. Sound IsFilled) (Sound IsFilled) (created d c)
unfolding created
Ends-created closed c s = s
Ends-created (holding t) c s = s
Ends-created blank c s = record {
  tables = no_rows-IsFilled;
  files = OnDisk-commit_to c.db_path no_rows c.disk no_rows-IsFilled s.files;
}

Keeps-init_db : Keeps (Sound IsFilled) init_db
unfolding init_db
Keeps-init_db = record { at = λ c s. Ends-created c.db c s }

-- What is read back from a file has no gap.
OnDb-connected :
    (p : String) (disk : List (String × Tables))
    → OnDisk disk
    → OnDb IsFilled (connected (committed p disk))
unfolding connected committed
OnDb-connected p [] d = tt
OnDb-connected p ((q, t) ∷ disk) d = elim (Bool-cases (str_eq q p)) [
  | inl here ↦ rw here d.0
  | inr there ↦ rw there (OnDb-connected p disk d.1)
]

-- Opening a cache whose files have no gap gives a cache with none.
pub Keeps-open_cache : Keeps (Sound IsFilled) open_cache
unfolding open_cache ◌>>=◌
Keeps-open_cache = record {
  at = λ c s.
      (Keeps-if (is_new (committed c.db_path c.disk)) init_db (pure tt) Keeps-init_db
          (Keeps-pure tt)).at
        (record c { db = connected (committed c.db_path c.disk) })
        (record { tables = OnDb-connected c.db_path c.disk s.files; files = s.files });
}

pub Keeps-close : Keeps (Sound IsFilled) close
unfolding close
Keeps-close = record { at = λ c s. record { tables = tt; files = s.files } }
