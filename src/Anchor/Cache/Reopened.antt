-- ===== src/Anchor/Cache/Reopened.antt =====
-- What of the cache is still there after its connection is closed and opened again.
use indy_perf.Base.{ℕ, ◌≡◌, refl, ◌∙◌, String, Bool, false, some, List, [], ◌∷◌, str_eq, eq_iff}
use indy_perf.Exec.{Outcome, returned, raised, waiting, ◌>>=◌}
use indy_perf.Exec.Runs.{Stops}
use indy_perf.Json.{Json, JsonText}
use indy_perf.Anchor.LedgerType.{LedgerType}
use indy_perf.Anchor.Terms.{Codecs}
use indy_perf.Anchor.Cache.{set_latest, set_existent, add_txn}
use indy_perf.Anchor.Cache.Schema.{Time, Tables}
use indy_perf.Anchor.Cache.Connection.{
  holding, Cache, committed, commit_to, connected, is_new, executescript, script_on, close,
  open_cache, reset,
}
use indy_perf.Anchor.Cache.Prompt.{OnFile, Prompt-set_latest, Prompt-set_existent, Prompt-add_txn}

-- A call that writes to the cache other than by a script.
pub data Write : Type 0 where
  adds : LedgerType → ℕ → Json → Time → JsonText → Bool → Write
  sets_latest : LedgerType → ℕ → Write
  sets_existent : LedgerType → Json → Write

-- One write after another; an exception ends its own call only.
unfoldable pub write_all : Codecs → List Write → Cache → Cache
unfolding add_txn set_latest set_existent
write_all k [] c = c
write_all k (adds t n id added v latest ∷ ws) c =
    write_all k ws (add_txn k t n id added v latest c).1
write_all k (sets_latest t n ∷ ws) c = write_all k ws (set_latest t n c).1
write_all k (sets_existent t j ∷ ws) c = write_all k ws (set_existent t j c).1

OnFile-after :
    {A : Type 0} (d : List (String × Tables)) (p : String) (x : Outcome A × Cache)
    → Stops (λ a. OnFile d p) (OnFile d p) (λ _. ⊥) x
    → OnFile d p x.1
OnFile-after d p (returned a, c) q = q
OnFile-after d p (raised e, c) q = q
OnFile-after d p (waiting, c) q = absurd q

write_all-OnFile :
    (k : Codecs) (d : List (String × Tables)) (p : String) (ws : List Write) (c : Cache)
    → OnFile d p c
    → OnFile d p (write_all k ws c)
unfolding write_all
write_all-OnFile k d p [] c q = q
write_all-OnFile k d p (adds t n id added v latest ∷ ws) c q =
    write_all-OnFile k d p ws _
      (OnFile-after d p _ ((Prompt-add_txn k t n id added v latest).at c q))
write_all-OnFile k d p (sets_latest t n ∷ ws) c q =
    write_all-OnFile k d p ws _ (OnFile-after d p _ ((Prompt-set_latest t n).at c q))
write_all-OnFile k d p (sets_existent t j ∷ ws) c q =
    write_all-OnFile k d p ws _ (OnFile-after d p _ ((Prompt-set_existent t j).at c q))

-- An open that finds a file shows what the file has.
open_cache-committed :
    (c : Cache) (t : Tables)
    → committed c.db_path c.disk ≡ some t
    → open_cache c ≡ (returned tt, record c { db = holding t })
unfolding open_cache connected is_new close ◌>>=◌
open_cache-committed c t e = rw e refl

-- Whatever transactions are added to a cache in a file, and whatever latest and existent numbers are set,
-- the next open finds the file as it was before: none of these writes is committed.
pub open_cache-write_all :
    (k : Codecs) (ws : List Write) (c : Cache) (t : Tables)
    → committed c.db_path c.disk ≡ some t
    → open_cache (write_all k ws c) ≡ (returned tt, record c { db = holding t })
open_cache-write_all k ws c t e =
    let q = write_all-OnFile k c.disk c.db_path ws c (record { files = refl; own = refl }) in
    open_cache-committed (write_all k ws c) t (rw (q.files, q.own) e) ∙ rw (q.files, q.own) refl

-- A file has what is written to it.
committed-commit_to :
    (p : String) (t : Tables) (disk : List (String × Tables))
    → str_eq p ":memory:" ≡ false
    → committed p (commit_to p t disk) ≡ some t
unfolding committed commit_to
committed-commit_to p t disk e = rw (e, (eq_iff p p).1 refl) refl

-- A reset of an open cache in a file is committed, with all writes before it: the next open finds no
-- latest and existent numbers and no transactions, and the search terms as they were.
pub open_cache-reset :
    (c : Cache) (t : Tables)
    → c.db ≡ holding t
    → str_eq c.db_path ":memory:" ≡ false
    → let cleared : Tables = record t { existent = []; latest = []; transactions = [] } in
      open_cache (reset c).1
      ≡ (returned tt, record c { db = holding cleared; disk = commit_to c.db_path cleared c.disk })
unfolding reset executescript script_on
open_cache-reset c t e file =
    let cleared : Tables = record t { existent = []; latest = []; transactions = [] } in
    rw e (
      open_cache-committed
        (record c { db = holding cleared; disk = commit_to c.db_path cleared c.disk }) cleared
        (committed-commit_to c.db_path cleared c.disk file))
