-- ===== src/Anchor/Cache/Refines/Statements.antt =====
-- The rules of one statement on an open connection.
use mathlib.Core.Path.{subst}
use indy_perf.Base.{◌≡◌, refl, sym}
use indy_perf.Exn.{Result, ok, err}
use indy_perf.Exec.Runs.{Stops, Triple}
use indy_perf.Anchor.Cache.Schema.{Tables}
use indy_perf.Anchor.Cache.Connection.{Db, holding, Cache, stored, on_tables, query}
use indy_perf.Anchor.Cache.RoundTrip.{Shows}
use indy_perf.Anchor.Cache.Refines.{Book, IsView}

pub on_open :
    {A : Type 0} (f : Tables → Result (A × Tables)) (d : Db) (t : Tables) (c : Cache)
    → d ≡ holding t
    → on_tables f d c ≡ stored (f t) c
unfolding on_tables
on_open f d t c e = rw e refl

Stops-done :
    {A : Type 0} {Q : Tables → Type 0} {R : Cache → Type 0} (E : Cache → Type 0)
    (x : Result (A × Tables)) (c : Cache)
    → ((t' : Tables) (a : A) → x ≡ ok (a, t') → Q t')
    → ((c' : Cache) → Shows Q c' → R c')
    → E c
    → Stops (λ _. R) E (λ _. ⊥) (stored x c)
unfolding stored
Stops-done E (ok (a, t')) c step post e =
    post _ (record { tables = t'; open_db = refl; holds = step t' a refl })
Stops-done E (err x) c step post e = e

-- A statement on an open connection.
pub Runs-statement :
    {A : Type 0} {P Q : Tables → Type 0} {R E : Cache → Type 0} (f : Tables → Result (A × Tables))
    → ((t t' : Tables) (a : A) → P t → f t ≡ ok (a, t') → Q t')
    → ((c : Cache) → Shows Q c → R c)
    → ((c : Cache) → Shows P c → E c)
    → Triple (Shows P) (query f) (λ _. R) E (λ _. ⊥)
unfolding query
Runs-statement {A} {P} {Q} {R} {E} f step post fails = record {
  at = λ c s.
      subst (Stops (λ _. R) E (λ _. ⊥)) (sym (on_open f c.db s.tables c s.open_db))
        (Stops-done E (f s.tables) c (λ t' a e. step s.tables t' a s.holds e) post (fails c s));
}

-- A statement that cannot fail.
pub Runs-update :
    {P Q : Tables → Type 0} {R E : Cache → Type 0} (g : Tables → Tables)
    → ((t : Tables) → P t → Q (g t))
    → ((c : Cache) → Shows Q c → R c)
    → Triple (Shows P) (query (λ d. ok (tt, g d))) (λ _. R) E (λ _. ⊥)
unfolding query stored
Runs-update {P} {Q} {R} {E} g step post = record {
  at = λ c s.
      subst (Stops (λ _. R) E (λ _. ⊥))
        (sym (on_open (λ d. ok (tt, g d)) c.db s.tables c s.open_db))
        (post (record c { db = holding (g s.tables) })
          (record { tables = g s.tables; open_db = refl; holds = step s.tables s.holds }));
}

pub IsView-rows :
    (b : Book) (t t' : Tables)
    → (t'.latest ≡ t.latest) × (t'.transactions ≡ t.transactions)
    → IsView b t
    → IsView b t'
IsView-rows b t t' (e, f) p = record {
  txns = λ l n. rw f (p.txns l n);
  latest = λ l. rw e (p.latest l);
  keyed = rw f p.keyed;
}
