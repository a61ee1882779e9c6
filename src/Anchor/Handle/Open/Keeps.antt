-- ===== src/Anchor/Handle/Open/Keeps.antt =====
-- Opening and closing leave no gap in the cache.
use indy_perf.Base.{String, refl, Option, none, some, List}
use indy_perf.Exn.{Exn}
use indy_perf.Exec.{Exec, Outcome, returned, raised, waiting, pure}
use indy_perf.Exec.Runs.{
  Ends, Keeps, Keeps-pure, Keeps-raise, Keeps-lift, Keeps-gets, Keeps-bind, Keeps-catch, Keeps-if,
  Runs-bind, Runs-modify,
}
use indy_perf.Anchor.Genesis.{Genesis}
use indy_perf.Anchor.Cache.Schema.{Tables}
use indy_perf.Anchor.Cache.Connection.{Cache, init, open_cache, close}
use indy_perf.Anchor.Cache.Filled.{IsFilled}
use indy_perf.Anchor.Cache.Sound.{Sound, OnDisk, Keeps-open_cache, Keeps-close}
use indy_perf.Anchor.Handle.State.{State}
use indy_perf.Anchor.Handle.Holds.{Holds, OfCache, Runs-on_cache, Keeps-modify}
use indy_perf.Anchor.Handle.NoGap.{Filled}
use indy_perf.Anchor.Handle.Agreement.Keeps.{Keeps-register_txn_agreement}
use indy_perf.Anchor.Handle.Open.{
  Boot, pool_name, called, call, genesis_at, genesis_file, open_pool, noting, files_now, new_cache,
  connect, log_in, wrapped, opening, open_handle, closed_pool, close_handle,
}

init-Sound :
    (p : Option String) (disk : List (String × Tables)) → OnDisk disk → Sound IsFilled (init p disk)
unfolding init
init-Sound none disk d = record { tables = tt; files = d }
init-Sound (some p) disk d = record { tables = tt; files = d }

module _ {W : Type 0} (b : Boot W) where
  module _ {P : Tables → Type 0} where
    Ends-called :
        {A : Type 0} (m : String) (h : State W) (x : Option A × W)
        → Holds P h
        → Ends (λ a. Holds P) (Holds P) (called b m h x)
    unfolding called
    Ends-called m h (none, w) p = record { cache = p.cache }
    Ends-called m h (some x, w) p = record { cache = p.cache }

    Keeps-call : {A : Type 0} (m : String) (f : W → Option A × W) → Keeps (Holds P) (call b m f)
    unfolding call
    Keeps-call m f = record { at = λ h p. Ends-called m h (f h.world) p }

    Ends-genesis_at :
        (h : State W) (x : Outcome (Option String) × Genesis)
        → Holds P h
        → Ends (λ a. Holds P) (Holds P) (genesis_at b h x)
    unfolding genesis_at
    Ends-genesis_at h (returned f, g) p = record { cache = p.cache }
    Ends-genesis_at h (raised e, g) p = record { cache = p.cache }
    Ends-genesis_at h (waiting, g) p = record { cache = p.cache }

    Keeps-genesis_file : Keeps (Holds P) (genesis_file b)
    unfolding genesis_file
    Keeps-genesis_file = record { at = λ h p. Ends-genesis_at h _ p }

    Keeps-open_pool : Keeps (Holds P) (open_pool b)
    unfolding open_pool
    Keeps-open_pool = Keeps-bind _ _ (Keeps-modify _ (λ h. refl)) λ _.
        Keeps-bind _ _ (Keeps-call _ b.set_protocol_version) λ _.
          Keeps-bind _ _ (Keeps-call _ b.list_pools) λ names.
            Keeps-bind _ _
              (Keeps-if _ _ (pure tt) (Keeps-call _ (b.delete_pool pool_name)) (Keeps-pure tt))
              λ _. Keeps-bind _ _ Keeps-genesis_file λ file.
                Keeps-bind _ _ (Keeps-call _ (b.create_pool pool_name file)) λ _.
                  Keeps-bind _ _ (Keeps-call _ (b.open_pool pool_name))
                    λ handle. Keeps-modify _ (λ h. refl)

    Keeps-noting :
        (note : String) (m : Exec (State W) Unit)
        → Keeps (Holds P) m
        → Keeps (Holds P) (noting b note m)
    unfolding noting
    Keeps-noting note m k = Keeps-catch m _ k λ e.
        Keeps-bind _ _ (Keeps-if _ _ (pure tt) (Keeps-modify _ (λ h. refl)) (Keeps-pure tt))
          λ _. Keeps-raise e

    Keeps-connect : Keeps (Holds P) (connect b)
    unfolding connect
    Keeps-connect =
        Keeps-bind _ _ (Keeps-gets _)
          λ there. Keeps-if there (pure tt) _ (Keeps-pure tt) (Keeps-noting _ _ Keeps-open_pool)

    Keeps-log_in : Keeps (Holds P) (log_in b)
    unfolding log_in
    Keeps-log_in = Keeps-bind _ _ (Keeps-gets _) λ seed.
        Keeps-bind _ _ (Keeps-lift _) λ (did, verkey).
          Keeps-bind _ _ (Keeps-modify _ (λ h. refl)) λ _. Keeps-noting _ _ (
            Keeps-register_txn_agreement _ (λ h w p. record { cache = p.cache })
              (λ h j p. record { cache = p.cache }) b.env b.agreement)

    Keeps-wrapped : (e : Exn) → Keeps (Holds P) (wrapped b e)
    unfolding wrapped
    Keeps-wrapped e = Keeps-raise _

  module _ (files : (w : W) → OnDisk (b.disk w)) where
    OnDisk-files_now :
        (h : State W) (o : Option Cache)
        → OfCache IsFilled o
        → OnDisk (elim o [ none ↦ b.disk h.world | some c ↦ c.disk ])
    OnDisk-files_now h none p = files h.world
    OnDisk-files_now h (some c) p = p.files

    Keeps-new_cache : Keeps Filled (new_cache b)
    unfolding new_cache files_now
    Keeps-new_cache =
        Runs-bind _ _
          (Runs-modify _ (λ h p. record {
            cache = init-Sound b.cache_path _ (OnDisk-files_now h h.cache p.cache);
          }))
          (λ _. Runs-on_cache open_cache Keeps-open_cache)

    -- A cache that is opened on files without a gap has none, whatever else goes wrong in `open`.
    pub Keeps-open_handle : Keeps Filled (open_handle b)
    unfolding open_handle opening
    Keeps-open_handle =
        Keeps-catch _ _
          (Keeps-bind _ _ Keeps-new_cache λ _. Keeps-bind _ _ Keeps-connect λ _.
            Keeps-bind _ _ (Keeps-gets _) λ anonymous.
              Keeps-bind _ _ (Keeps-if anonymous (pure tt) _ (Keeps-pure tt) Keeps-log_in)
                λ _. Keeps-modify _ (λ h. refl))
          Keeps-wrapped

  Ends-closed_pool :
      (h : State W) (x : Option (Unit {0}) × W)
      → Filled h
      → Ends (λ a. Filled) Filled (closed_pool b h x)
  unfolding closed_pool
  Ends-closed_pool h (none, w) p = record { cache = p.cache }
  Ends-closed_pool h (some u, w) p = record { cache = p.cache }

  pub Keeps-close_handle : Keeps Filled (close_handle b)
  unfolding close_handle
  Keeps-close_handle = Keeps-bind _ _ (Keeps-modify _ (λ h. refl)) λ _.
      Keeps-bind _ _ (Keeps-gets _) λ there.
        Keeps-bind _ _
          (Keeps-if there _ (pure tt)
            (record { at = λ h p. Ends-closed_pool h (b.close_pool h.pool h.world) p })
            (Keeps-pure tt))
          λ _. Runs-on_cache close Keeps-close
