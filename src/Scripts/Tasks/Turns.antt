-- ===== src/Scripts/Tasks/Turns.antt =====
-- Tasks that use an open pool and an open wallet, and leave both open, may take turns in any order.
use indy_perf.Base.{ℕ, zero, suc, ◌≡◌, String, some, List, [], ◌∷◌}
use indy_perf.Exn.{ok, err}
use indy_perf.Scripts.Calls.{Call, Reply, Answer, answer, failure, held, Legal}
use indy_perf.Scripts.Program.{
  Script, ret, throw, ask, clock, sleep, say, write_file, Machine, Trace, noted, paused, said,
  written, run, Line, Content,
}
use indy_perf.Scripts.Tasks.Shared.{Neutral, Shares, IsTask, Never, Any}
use indy_perf.Scripts.Tasks.{Ran, then_run, step, turn, turns, finish, gather}

abbrev pub AllFiles : (String → Content → Type 0) → List (String × Content) → Type 0
AllFiles P [] = Unit
AllFiles P ((path, c) ∷ files) = P path c × AllFiles P files

-- The pool and the wallet are open, every call was allowed, and the files are as `P` says.
pub record Ready (P : String → Content → Type 0) (p w : ℕ) (t : Trace) : Type 0 where
  pub pool_open : (held t.events).pool ≡ some p
  pub wallet_open : (held t.events).wallet ≡ some w
  pub legal : Legal t.events
  pub all_files : AllFiles P t.files

module _ (P : String → Content → Type 0) (p w : ℕ) where
  Ready-noted :
      (c : Call) (r : Answer (Reply c)) (t : Trace)
      → Neutral p w c
      → Ready P p w t
      → Ready P p w (noted c r t)
  Ready-noted c (answer r) t n s =
      let (a, keep) = n (held t.events) s.pool_open s.wallet_open in
      record {
        pool_open = (keep r).0;
        wallet_open = (keep r).1;
        legal = (a, s.legal);
        all_files = s.all_files;
      }
  Ready-noted c (failure e) t n s =
      let (a, keep) = n (held t.events) s.pool_open s.wallet_open in
      record {
        pool_open = s.pool_open;
        wallet_open = s.wallet_open;
        legal = (a, s.legal);
        all_files = s.all_files;
      }

  Ready-paused : (n : ℕ) (t : Trace) → Ready P p w t → Ready P p w (paused n t)
  Ready-paused n t s = record {
    pool_open = s.pool_open;
    wallet_open = s.wallet_open;
    legal = (tt, s.legal);
    all_files = s.all_files;
  }

  Ready-said : (l : Line) (t : Trace) → Ready P p w t → Ready P p w (said l t)
  Ready-said l t s = record {
    pool_open = s.pool_open;
    wallet_open = s.wallet_open;
    legal = s.legal;
    all_files = s.all_files;
  }

  Ready-written :
      (path : String) (c : Content) (t : Trace)
      → P path c
      → Ready P p w t
      → Ready P p w (written path c t)
  Ready-written path c t x s = record {
    pool_open = s.pool_open;
    wallet_open = s.wallet_open;
    legal = s.legal;
    all_files = (x, s.all_files);
  }

  -- A run that leaves the handles open, and raises nothing.
  abbrev pub Goes : {W B : Type 0} → (B → Type 0) → Ran W B → Type 0
  Goes Q (ok b, s, t) = Q b × Ready P p w t
  Goes Q (err e, s, t) = ⊥

  abbrev pub AreTasks : {F : Type 0} → List (Script F Unit) → Type 0
  AreTasks [] = Unit
  AreTasks (m ∷ l) = IsTask p w Never P Any m × AreTasks l

  pub then_run-Goes :
      {W A B : Type 0} (R : A → Type 0) (Q : B → Type 0) (g : A → W → Trace → Ran W B) (r : Ran W A)
      → ((a : A) (s : W) (t : Trace) → R a → Ready P p w t → Goes Q (g a s t))
      → Goes R r
      → Goes Q (then_run g r)
  then_run-Goes R Q g (ok a, s, t) k h = k a s t h.0 h.1
  then_run-Goes R Q g (err e, s, t) k h = elim h [ ]

  module _ {W F : Type 0} (m : Machine W F) where
    step-Goes :
        (x : Script F Unit) (s : W) (t : Trace)
        → IsTask p w Never P Any x
        → Ready P p w t
        → Goes (IsTask p w Never P Any) (step m x s t)
    unfolding step
    step-Goes (ret a) s t i r = (i, r)
    step-Goes (throw e) s t i r = i.shares
    step-Goes (ask c k) s t i r =
        let (a, s') = m.perform c s in
        (record { shares = i.shares.1 a }, Ready-noted c a t i.shares.0 r)
    step-Goes (clock k) s t i r = (record { shares = i.shares (m.now s).0 }, r)
    step-Goes (sleep n x) s t i r = (record { shares = i.shares }, Ready-paused n t r)
    step-Goes (say l x) s t i r = (record { shares = i.shares }, Ready-said l t r)
    step-Goes (write_file path c x) s t i r =
        (record { shares = i.shares.1 }, Ready-written path c t i.shares.0 r)

    run-Goes :
        (x : Script F Unit) (s : W) (t : Trace)
        → Shares p w Never P Any x
        → Ready P p w t
        → Goes Any (run m x s t)
    unfolding run
    run-Goes (ret a) s t i r = (tt, r)
    run-Goes (throw e) s t i r = i
    run-Goes (ask c k) s t i r =
        let (a, s') = m.perform c s in
        run-Goes (k a) s' (noted c a t) (i.1 a) (Ready-noted c a t i.0 r)
    run-Goes (clock k) s t i r = let (x, s') = m.now s in run-Goes (k x) s' t (i x) r
    run-Goes (sleep n x) s t i r = run-Goes x (m.pause n s) (paused n t) i (Ready-paused n t r)
    run-Goes (say l x) s t i r = run-Goes x s (said l t) i (Ready-said l t r)
    run-Goes (write_file path c x) s t i r =
        run-Goes x s (written path c t) i.1 (Ready-written path c t i.0 r)

    turn-Goes :
        (i : ℕ) (tasks : List (Script F Unit)) (s : W) (t : Trace)
        → AreTasks tasks
        → Ready P p w t
        → Goes AreTasks (turn m i tasks s t)
    unfolding turn
    turn-Goes zero [] s t a r = (tt, r)
    turn-Goes (suc i) [] s t a r = (tt, r)
    turn-Goes zero (x ∷ tasks) s t a r =
        then_run-Goes _ _ _ (step m x s t) (λ x' s' t' i r'. ((i, a.1), r')) (step-Goes x s t a.0 r)
    turn-Goes (suc i) (x ∷ tasks) s t a r =
        then_run-Goes _ _ _ (turn m i tasks s t) (λ l s' t' b r'. ((a.0, b), r'))
          (turn-Goes i tasks s t a.1 r)

    turns-Goes :
        (schedule : List ℕ) (tasks : List (Script F Unit)) (s : W) (t : Trace)
        → AreTasks tasks
        → Ready P p w t
        → Goes AreTasks (turns m schedule tasks s t)
    unfolding turns
    turns-Goes [] tasks s t a r = (a, r)
    turns-Goes (i ∷ schedule) tasks s t a r =
        then_run-Goes _ _ _ (turn m i tasks s t) (turns-Goes schedule) (turn-Goes i tasks s t a r)

    finish-Goes :
        (tasks : List (Script F Unit)) (s : W) (t : Trace)
        → AreTasks tasks
        → Ready P p w t
        → Goes Any (finish m tasks s t)
    unfolding finish
    finish-Goes [] s t a r = (tt, r)
    finish-Goes (x ∷ tasks) s t a r =
        then_run-Goes _ _ _ (run m x s t) (λ _ s' t' _ r'. finish-Goes tasks s' t' a.1 r')
          (run-Goes x s t a.0.shares r)

    -- Any schedule.
    pub gather-Goes :
        (schedule : List ℕ) (tasks : List (Script F Unit)) (s : W) (t : Trace)
        → AreTasks tasks
        → Ready P p w t
        → Goes Any (gather m schedule tasks s t)
    unfolding gather
    gather-Goes schedule tasks s t a r =
        then_run-Goes _ _ _ (turns m schedule tasks s t) (λ l s' t' b r'. finish-Goes l s' t' b r')
          (turns-Goes schedule tasks s t a r)
