-- ===== src/Anchor/Handle/Open/Outcomes.antt =====
-- How `open` ends.
use indy_perf.Base.{String, ◌≡◌, refl, Bool, true, false, Option, none, some}
use indy_perf.Exn.{anchor}
use indy_perf.Exec.{Exec, Outcome, returned, raised, waiting, pure, handled, catch, modify, raise}
use indy_perf.Exec.Runs.{
  Stops, Triple, Prompt, Runs-bind, Runs-modify, Keeps-pure, Keeps-raise, Keeps-lift, Keeps-gets,
  Keeps-bind, Keeps-catch, Keeps-if,
}
use indy_perf.Anchor.Genesis.{Genesis}
use indy_perf.Anchor.Genesis.Once.{Resolved, Verified, Runs-resolve}
use indy_perf.Anchor.Cache.Connection.{
  Db, closed, blank, holding, Cache, close, open_cache, created, init_db, is_new,
}
use indy_perf.Anchor.Handle.State.{State, free, cached, on_cache}
use indy_perf.Anchor.Handle.Agreement.Keeps.{Keeps-register_txn_agreement}
use indy_perf.Anchor.Handle.Open.{
  Boot, pool_name, called, call, genesis_at, genesis_file, open_pool, noting, new_cache, connect,
  log_in, wrapped, opening, open_handle,
}

-- `_ready`
record ReadyIs {W : Type 0} (r : Bool) (h : State W) : Type 0 where
  pub ready : h.ready ≡ r

-- Ready, with both locks free.
pub record Opened {W : Type 0} (h : State W) : Type 0 where
  pub ready : h.ready ≡ true
  pub ledger_free : h.ledger_lock ≡ free
  pub sync_free : h.sync_lock ≡ free

-- Open, or as ready as before after the one exception.
abbrev pub Ended : {W : Type 0} → State W → Outcome Unit × State W → Type 0
Ended h (returned u, h') = Opened h'
Ended h (raised e, h') = (e ≡ anchor "Initialization error") × (h'.ready ≡ h.ready)
Ended h (waiting, h') = ⊥

Stops-created : (d : Db) (c : Cache) → Stops (λ a c'. Unit {0}) (λ c'. Unit) (λ c'. ⊥) (created d c)
unfolding created
Stops-created closed c = tt
Stops-created (holding t) c = tt
Stops-created blank c = tt

Prompt-init_db : Prompt (λ c. Unit {0}) init_db
unfolding init_db
Prompt-init_db = record { at = λ c p. Stops-created c.db c }

Prompt-close : Prompt (λ c. Unit {0}) close
unfolding close
Prompt-close = record { at = λ c p. tt }

Prompt-open_cache : Prompt (λ c. Unit {0}) open_cache
unfolding open_cache
Prompt-open_cache = Keeps-bind close _ Prompt-close (λ u. Keeps-bind _ _ (Keeps-gets _) (λ file.
    Keeps-bind _ _ (Runs-modify _ (λ c p. tt))
      (λ v. Keeps-if (is_new file) init_db (pure tt) Prompt-init_db (Keeps-pure tt))))

module _ {W : Type 0} (b : Boot W) {r : Bool} where
  Prompt-set :
      (f : State W → State W)
      → ((h : State W) → (f h).ready ≡ h.ready)
      → Prompt (ReadyIs r) (modify f)
  Prompt-set f e = Runs-modify f (λ h p. record { ready = rw (e h) p.ready })

  Stops-called :
      {A : Type 0} (m : String) (h : State W) (x : Option A × W)
      → ReadyIs r h
      → Stops (λ a. ReadyIs r) (ReadyIs r) (λ _. ⊥) (called b m h x)
  unfolding called
  Stops-called m h (none, w) p = record { ready = p.ready }
  Stops-called m h (some x, w) p = record { ready = p.ready }

  Prompt-call : {A : Type 0} (m : String) (f : W → Option A × W) → Prompt (ReadyIs r) (call b m f)
  unfolding call
  Prompt-call m f = record { at = λ h p. Stops-called m h (f h.world) p }

  Stops-genesis_at :
      (h : State W) (x : Outcome (Option String) × Genesis)
      → ReadyIs r h
      → Stops Resolved (Verified false) (λ g. ⊥) x
      → Stops (λ a. ReadyIs r) (ReadyIs r) (λ _. ⊥) (genesis_at b h x)
  unfolding genesis_at
  Stops-genesis_at h (returned f, g) p q = record { ready = p.ready }
  Stops-genesis_at h (raised e, g) p q = record { ready = p.ready }
  Stops-genesis_at h (waiting, g) p q = q

  Prompt-genesis_file : Prompt (ReadyIs r) (genesis_file b)
  unfolding genesis_file
  Prompt-genesis_file = record {
    at = λ h p. Stops-genesis_at h _ p ((Runs-resolve b.download).at (b.genesis h.world) tt);
  }

  Prompt-open_pool : Prompt (ReadyIs r) (open_pool b)
  unfolding open_pool
  Prompt-open_pool = Keeps-bind _ _ (Prompt-set _ (λ h. refl)) λ _.
      Keeps-bind _ _ (Prompt-call _ b.set_protocol_version) λ _.
        Keeps-bind _ _ (Prompt-call _ b.list_pools) λ names.
          Keeps-bind _ _
            (Keeps-if _ _ (pure tt) (Prompt-call _ (b.delete_pool pool_name)) (Keeps-pure tt))
            λ _. Keeps-bind _ _ Prompt-genesis_file λ file.
              Keeps-bind _ _ (Prompt-call _ (b.create_pool pool_name file)) λ _.
                Keeps-bind _ _ (Prompt-call _ (b.open_pool pool_name))
                  λ handle. Prompt-set _ (λ h. refl)

  Prompt-noting :
      (note : String) (m : Exec (State W) Unit)
      → Prompt (ReadyIs r) m
      → Prompt (ReadyIs r) (noting b note m)
  unfolding noting
  Prompt-noting note m k = Keeps-catch m _ k λ e.
      Keeps-bind _ _ (Keeps-if _ _ (pure tt) (Prompt-set _ (λ h. refl)) (Keeps-pure tt))
        λ _. Keeps-raise e

  Prompt-connect : Prompt (ReadyIs r) (connect b)
  unfolding connect
  Prompt-connect =
      Keeps-bind _ _ (Keeps-gets _)
        λ there. Keeps-if there (pure tt) _ (Keeps-pure tt) (Prompt-noting _ _ Prompt-open_pool)

  Prompt-log_in : Prompt (ReadyIs r) (log_in b)
  unfolding log_in
  Prompt-log_in = Keeps-bind _ _ (Keeps-gets _) λ seed.
      Keeps-bind _ _ (Keeps-lift _) λ (did, verkey). Keeps-bind _ _ (Prompt-set _ (λ h. refl)) λ _.
        Prompt-noting _ _ (
          Keeps-register_txn_agreement _ (λ h w p. record { ready = p.ready })
            (λ h j p. record { ready = p.ready }) b.env b.agreement)

  Stops-put :
      {A : Type 0} (h : State W) (x : Outcome A × Cache)
      → ReadyIs r h
      → Stops (λ a c. Unit {0}) (λ c. Unit) (λ c. ⊥) x
      → Stops (λ a. ReadyIs r) (ReadyIs r) (λ _. ⊥) (x.0, record h { cache = some x.1 })
  Stops-put h (returned a, c) p q = record { ready = p.ready }
  Stops-put h (raised e, c) p q = record { ready = p.ready }
  Stops-put h (waiting, c) p q = q

  Stops-open_cache :
      (o : Option Cache) (h : State W)
      → ReadyIs r h
      → Stops (λ a. ReadyIs r) (ReadyIs r) (λ _. ⊥) (cached open_cache o h)
  unfolding cached
  Stops-open_cache none h p = p
  Stops-open_cache (some c) h p = Stops-put h (open_cache c) p (Prompt-open_cache.at c tt)

  Prompt-new_cache : Prompt (ReadyIs r) (new_cache b)
  unfolding new_cache on_cache
  Prompt-new_cache =
      Keeps-bind _ _ (Prompt-set _ (λ h. refl))
        λ _. record { at = λ h p. Stops-open_cache h.cache h p }

  -- The body of the `try`.
  Runs-open : Triple (ReadyIs r) (opening b) (λ _. Opened) (ReadyIs r) (λ _. ⊥)
  unfolding opening
  Runs-open = Runs-bind _ _ Prompt-new_cache λ _. Runs-bind _ _ Prompt-connect λ _.
      Runs-bind _ _ (Keeps-gets _) λ anonymous.
        Runs-bind _ _ (Keeps-if anonymous (pure tt) _ (Keeps-pure tt) Prompt-log_in)
          λ _. Runs-modify _ (λ h p. record { ready = refl; ledger_free = refl; sync_free = refl })

module _ {W : Type 0} (b : Boot W) where
  Ended-handled :
      (h : State W) (x : Outcome Unit × State W)
      → Stops (λ _. Opened) (ReadyIs h.ready) (λ _. ⊥) x
      → Ended h (handled (wrapped b) x)
  unfolding wrapped raise
  Ended-handled h (returned u, h') p = p
  Ended-handled h (raised e, h') p = (refl, p.ready)
  Ended-handled h (waiting, h') p = p

  -- Whatever the files, libindy, the ledger and the configuration give, `open` comes to an end: it leaves
  -- the anchor ready with both locks free, or it raises the one AnchorException of a failed
  -- initialization and the anchor is as ready as it was before.
  pub open_handle-Ended : (h : State W) → Ended h (open_handle b h)
  unfolding open_handle catch
  open_handle-Ended h = Ended-handled h (opening b h) ((Runs-open b).at h (record { ready = refl }))
