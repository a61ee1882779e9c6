-- ===== src/Anchor/Handle/Holds.antt =====
-- Predicates of the cache, as predicates of an `AnchorHandle`, and what leaves the cache alone.
use indy_perf.Base.{◌≡◌, refl, Bool, Option, none, some}
use indy_perf.Exec.{Exec, Outcome, returned, raised, waiting, modify}
use indy_perf.Exec.Runs.{Stops, Ends, Runs, Within, Keeps, Keeps-finally, keeps_rules}
use indy_perf.Json.{JsonText}
use indy_perf.Anchor.Cache.Connection.{Cache}
use indy_perf.Anchor.Cache.Schema.{Tables}
use indy_perf.Anchor.Cache.Sound.{Sound, Sound-weaken}
use indy_perf.Anchor.Handle.State.{
  Env, State, Lock, absent, free, held, cached, on_cache, under_ledger_lock, with_ledger_lock,
}
use indy_perf.Anchor.Handle.Requests.{sent, send, submit_request, require_ready}

abbrev pub OfCache : (Tables → Type 0) → Option Cache → Type 0
OfCache P none = Unit
OfCache P (some c) = Sound P c

pub record Holds {W : Type 0} (P : Tables → Type 0) (h : State W) : Type 0 where
  pub cache : OfCache P h.cache

OfCache-weaken :
    {P Q : Tables → Type 0} (f : (t : Tables) → P t → Q t) (o : Option Cache)
    → OfCache P o
    → OfCache Q o
OfCache-weaken f none x = tt
OfCache-weaken f (some c) x = Sound-weaken f c x

module _ {W : Type 0} where
  Ends-put :
      {A : Type 0} (E : Tables → Type 0) (Q : A → Tables → Type 0) (h : State W)
      (x : Outcome A × Cache)
      → Ends (λ a. Sound (Q a)) (Sound E) x
      → Ends (λ a. Holds (Q a)) (Holds E) (x.0, record h { cache = some x.1 })
  Ends-put E Q h (returned a, c) y = record { cache = y }
  Ends-put E Q h (raised z, c) y = record { cache = y }
  Ends-put E Q h (waiting, c) y = record { cache = y }

  Ends-cached :
      {A : Type 0} {P E : Tables → Type 0} {Q : A → Tables → Type 0} (m : Exec Cache A)
      → Runs (Sound P) m (λ a. Sound (Q a)) (Sound E)
      → (o : Option Cache) (h : State W) → h.cache ≡ o
      → OfCache P o
      → Ends (λ a. Holds (Q a)) (Holds E) (cached m o h)
  unfolding cached
  Ends-cached m r none h e p = record { cache = rw e tt }
  Ends-cached {E} {Q} m r (some c) h e p = Ends-put E Q h (m c) (r.at c p)

  pub Runs-on_cache :
      {A : Type 0} {P E : Tables → Type 0} {Q : A → Tables → Type 0} (m : Exec Cache A)
      → Runs (Sound P) m (λ a. Sound (Q a)) (Sound E)
      → Runs (Holds {W = W} P) (on_cache m) (λ a. Holds (Q a)) (Holds E)
  unfolding on_cache
  Runs-on_cache m r = record { at = λ h p. Ends-cached m r h.cache h refl p.cache }

  pub Holds-weaken :
      {P Q : Tables → Type 0} (f : (t : Tables) → P t → Q t) (h : State W) → Holds P h → Holds Q h
  Holds-weaken f h p = record { cache = OfCache-weaken f h.cache p.cache }

  pub Keeps-require_ready :
      {P : Tables → Type 0} (env : Env W) → Keeps (Holds P) (require_ready env)
  Keeps-require_ready env = search keeps_rules

-- Requests change only the world.
module _ {W : Type 0} {P : State W → Type 0} (D : State W → Type 0)
    (stable : (h : State W) (w : W) → P h → P (record h { world = w })) (env : Env W) where
  Stops-sent : (h : State W) (x : Option JsonText × W) → P h → Stops (λ a. P) P D (sent env h x)
  unfolding sent
  Stops-sent h (none, w) p = stable h w p
  Stops-sent h (some t, w) p = stable h w p

  pub Within-send : (req : JsonText) → Within P D (send env req)
  unfolding send
  Within-send req = record { at = λ h p. Stops-sent h (env.submit h.pool req h.world) p }

  pub Within-submit_request :
      (req : JsonText) (signed apply_taa : Bool)
      → Within P D (submit_request env req signed apply_taa)
  unfolding submit_request
  Within-submit_request req signed apply_taa = search (keeps_rules, Within-send)

module _ {W : Type 0} {P : Tables → Type 0} (env : Env W) where
  pub Keeps-submit_request :
      (req : JsonText) (signed apply_taa : Bool)
      → Keeps (Holds P) (submit_request env req signed apply_taa)
  Keeps-submit_request = Within-submit_request _ (λ h w p. record { cache = p.cache }) env

  Keeps-ledger_lock_at :
      {A : Type 0} (m : Exec (State W) A) (l : Lock) (h : State W)
      → Keeps (Holds P) m
      → Holds P h
      → Ends (λ a. Holds P) (Holds P) (under_ledger_lock l m h)
  unfolding under_ledger_lock
  Keeps-ledger_lock_at m absent h k p = p
  Keeps-ledger_lock_at m held h k p = p
  Keeps-ledger_lock_at m free h k p =
      (Keeps-finally m _ k (λ s q. record { cache = q.cache })).at _ (record { cache = p.cache })

  pub Keeps-with_ledger_lock :
      {A : Type 0} (m : Exec (State W) A) → Keeps (Holds P) m → Keeps (Holds P) (with_ledger_lock m)
  unfolding with_ledger_lock
  Keeps-with_ledger_lock m k = record { at = λ h p. Keeps-ledger_lock_at m h.ledger_lock h k p }

-- A change of the other fields keeps what holds of the cache.
pub Keeps-modify :
    {W : Type 0} {P : Tables → Type 0} (f : State W → State W)
    → ((h : State W) → (f h).cache ≡ h.cache)
    → Keeps (Holds P) (modify f)
unfolding modify
Keeps-modify f e = record { at = λ h p. record { cache = rw (e h) p.cache } }
