-- ===== src/Anchor/Cache/Prompt.antt =====
-- The methods of `LedgerCache` never wait for another task, and which of them leave the files alone.
use indy_perf.Base.{ℕ, ◌≡◌, refl, String, Bool, none, List}
use indy_perf.Exn.{Result, ok, err}
use indy_perf.Exec.{Exec, Outcome, returned, raised, waiting}
use indy_perf.Exec.Runs.{Stops, Prompt, Keeps-pure, keeps_rules}
use indy_perf.Json.{Json, Fields, end, field, JsonText}
use indy_perf.Anchor.Ident.{Ident}
use indy_perf.Anchor.LedgerType.{LedgerType}
use indy_perf.Anchor.Terms.{Codecs}
use indy_perf.Anchor.Cache.{
  get_latest_seqno, get_txn, set_latest, set_existent, insert_if_any, set_tail, add_txn,
}
use indy_perf.Anchor.Cache.Schema.{Time, Tables}
use indy_perf.Anchor.Cache.Connection.{
  Db, closed, blank, holding, Cache, stored, on_tables, query, select, select_bound, script_on,
  executescript, reset,
}

abbrev pub Any : Cache → Type 0
Any c = Unit

-- What the database files hold, and which of them is the cache's.
pub record OnFile (disk : List (String × Tables)) (path : String) (c : Cache) : Type 0 where
  pub files : c.disk ≡ disk
  pub own : c.db_path ≡ path

Stops-Any :
    {A : Type 0} (d : List (String × Tables)) (p : String) (x : Outcome A × Cache)
    → Stops (λ a. OnFile d p) (OnFile d p) (λ _. ⊥) x
    → Stops (λ a. Any) Any (λ _. ⊥) x
Stops-Any d p (returned a, c) q = tt
Stops-Any d p (raised e, c) q = tt
Stops-Any d p (waiting, c) q = q

pub Prompt-Any :
    {A : Type 0} (m : Exec Cache A)
    → ((d : List (String × Tables)) (p : String) → Prompt (OnFile d p) m)
    → Prompt Any m
Prompt-Any m h = record {
  at = λ c p.
      Stops-Any c.disk c.db_path (m c)
        ((h c.disk c.db_path).at c (record { files = refl; own = refl }));
}

Stops-script_on :
    (f : Tables → Tables) (d : Db) (c : Cache) → Stops (λ a. Any) Any (λ _. ⊥) (script_on f d c)
unfolding script_on
Stops-script_on f closed c = tt
Stops-script_on f blank c = tt
Stops-script_on f (holding t) c = tt

pub Prompt-reset : Prompt Any reset
unfolding reset executescript
Prompt-reset = record { at = λ c p. Stops-script_on _ c.db c }

module _ {d : List (String × Tables)} {p : String} where
  Stops-stored :
      {A : Type 0} (x : Result (A × Tables)) (c : Cache)
      → OnFile d p c
      → Stops (λ a. OnFile d p) (OnFile d p) (λ _. ⊥) (stored x c)
  unfolding stored
  Stops-stored (ok (a, t)) c q = record { files = q.files; own = q.own }
  Stops-stored (err e) c q = q

  Stops-on_tables :
      {A : Type 0} (f : Tables → Result (A × Tables)) (b : Db) (c : Cache)
      → OnFile d p c
      → Stops (λ a. OnFile d p) (OnFile d p) (λ _. ⊥) (on_tables f b c)
  unfolding on_tables
  Stops-on_tables f closed c q = q
  Stops-on_tables f blank c q = q
  Stops-on_tables f (holding t) c q = Stops-stored (f t) c q

  Prompt-query : {A : Type 0} (f : Tables → Result (A × Tables)) → Prompt (OnFile d p) (query f)
  unfolding query
  Prompt-query f = record { at = λ c q. Stops-on_tables f c.db c q }

  Prompt-select : {A : Type 0} (f : Tables → A) → Prompt (OnFile d p) (select f)
  unfolding select
  Prompt-select f = search Prompt-query

  pub Prompt-get_latest_seqno : (t : LedgerType) → Prompt (OnFile d p) (get_latest_seqno t)
  unfolding get_latest_seqno
  Prompt-get_latest_seqno t = search Prompt-select

  Prompt-select_bound :
      {A : Type 0} (b : Result (Unit {0})) (f : Tables → A) → Prompt (OnFile d p) (select_bound b f)
  unfolding select_bound
  Prompt-select_bound b f = Prompt-query _

  pub Prompt-get_txn : (t : LedgerType) (ident : Ident) → Prompt (OnFile d p) (get_txn t ident)
  unfolding get_txn
  Prompt-get_txn t ident = search (keeps_rules, Prompt-select_bound)

  pub Prompt-set_latest : (t : LedgerType) (n : ℕ) → Prompt (OnFile d p) (set_latest t n)
  unfolding set_latest
  Prompt-set_latest t n = search Prompt-query

  pub Prompt-set_existent : (t : LedgerType) (j : Json) → Prompt (OnFile d p) (set_existent t j)
  unfolding set_existent
  Prompt-set_existent t j = search Prompt-query

  pub Prompt-insert_if_any : (f : Fields) → Prompt (OnFile d p) (insert_if_any f)
  unfolding insert_if_any
  Prompt-insert_if_any end = Keeps-pure none
  Prompt-insert_if_any (field k v f) = search (keeps_rules, Prompt-query)

  Prompt-set_tail :
      (t : LedgerType) (n : ℕ) (j : Json) (latest : Bool)
      → Prompt (OnFile d p) (set_tail t n j latest)
  unfolding set_tail
  Prompt-set_tail t n j latest = search (keeps_rules, Prompt-set_latest, Prompt-set_existent)

  pub Prompt-add_txn :
      (c : Codecs) (t : LedgerType) (n : ℕ) (id : Json) (added : Time) (v : JsonText)
      (latest : Bool)
      → Prompt (OnFile d p) (add_txn c t n id added v latest)
  unfolding add_txn
  Prompt-add_txn c t n id added v latest =
      search (keeps_rules, Prompt-query, Prompt-insert_if_any, Prompt-set_tail) depth 10
