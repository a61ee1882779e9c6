-- ===== src/Scripts/Tasks.antt =====
-- asyncio.gather: tasks that take turns at every await. A schedule says which task goes on; once it is
-- used up, the tasks that are left run one after another, so that every order of the awaits has a schedule.
-- The exception of a task is raised when that task would go on: others may go on before.
pub mod Shared
pub mod Turns
use indy_perf.Base.{ℕ, zero, suc, List, [], ◌∷◌}
use indy_perf.Exn.{Result, ok, err}
use indy_perf.Scripts.Program.{
  Script, ret, throw, ask, clock, sleep, say, write_file, Machine, Trace, noted, paused, said,
  written, run,
}

-- What a run gives.
abbrev pub Ran : Type 0 → Type 0 → Type 0
Ran W A = Result A × W × Trace

-- The run after it.
abbrev pub then_run : {W A B : Type 0} → (A → W → Trace → Ran W B) → Ran W A → Ran W B
then_run g (ok a, w, t) = g a w t
then_run g (err e, w, t) = (err e, w, t)

module _ {W F A : Type 0} (m : Machine W F) where
  -- One step of a task.
  unfoldable pub step : Script F A → W → Trace → Ran W (Script F A)
  step (ret a) w t = (ok (ret a), w, t)
  step (throw e) w t = (err e, w, t)
  step (ask c k) w t = let (r, w') = m.perform c w in (ok (k r), w', noted c r t)
  step (clock k) w t = let (x, w') = m.now w in (ok (k x), w', t)
  step (sleep n p) w t = (ok p, m.pause n w, paused n t)
  step (say l p) w t = (ok p, w, said l t)
  step (write_file path c p) w t = (ok p, w, written path c t)

  -- A step of the task at a place, if there is one.
  unfoldable pub turn : ℕ → List (Script F A) → W → Trace → Ran W (List (Script F A))
  unfolding step
  turn i [] w t = (ok [], w, t)
  turn zero (p ∷ tasks) w t = then_run (λ p' w' t'. (ok (p' ∷ tasks), w', t')) (step p w t)
  turn (suc i) (p ∷ tasks) w t =
      then_run (λ tasks' w' t'. (ok (p ∷ tasks'), w', t')) (turn i tasks w t)

  unfoldable pub turns : List ℕ → List (Script F A) → W → Trace → Ran W (List (Script F A))
  unfolding turn
  turns [] tasks w t = (ok tasks, w, t)
  turns (i ∷ schedule) tasks w t = then_run (turns schedule) (turn i tasks w t)

  -- What is left of the tasks.
  unfoldable pub finish : List (Script F A) → W → Trace → Ran W Unit
  unfolding run
  finish [] w t = (ok tt, w, t)
  finish (p ∷ tasks) w t = then_run (λ _. finish tasks) (run m p w t)

  unfoldable pub gather : List ℕ → List (Script F A) → W → Trace → Ran W Unit
  unfolding turns finish
  gather schedule tasks w t = then_run finish (turns schedule tasks w t)
