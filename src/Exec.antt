-- ===== src/Exec.antt =====
-- A coroutine that runs alone: it reads and writes a state and may raise. What was written before a
-- raise stays written, so the state comes back beside an exception too.
pub mod Runs
use indy_perf.Base.{Option, none, some}
use indy_perf.Exn.{Exn, Result, ok, err}

-- How a run of a coroutine stops: with a result, with an exception, or at an `await` of what only another
-- task can bring about, such as the release of a lock.
pub data Outcome (A : Type 0) : Type 0 where
  returned : A → Outcome A
  raised : Exn → Outcome A
  waiting : Outcome A

abbrev pub Exec : Type 0 → Type 0 → Type 0
Exec S A = S → Outcome A × S

module _ {S A : Type 0} where
  unfoldable pub pure : A → Exec S A
  pure a s = (returned a, s)

  unfoldable pub raise : Exn → Exec S A
  raise e s = (raised e, s)

  -- A computation that has no part in the state.
  unfoldable pub lift : Result A → Exec S A
  lift (ok a) s = (returned a, s)
  lift (err e) s = (raised e, s)

  -- The task waits for another task.
  unfoldable pub block : Exec S A
  block s = (waiting, s)

  unfoldable pub gets : (S → A) → Exec S A
  gets f s = (returned (f s), s)

unfoldable pub modify : {S : Type 0} → (S → S) → Exec S (Unit {0})
modify f s = (returned tt, f s)

-- What a loop does with a row; without one it ends.
unfoldable pub when_some : {S A : Type 0} → Option A → (A → Exec S (Unit {0})) → Exec S (Unit {0})
unfolding pure
when_some none f = pure tt
when_some (some a) f = f a

module _ {S A : Type 0} where
  -- What `except` does with an exception; h raises again what it does not catch.
  abbrev pub handled : (Exn → Exec S A) → Outcome A × S → Outcome A × S
  handled h (returned a, s) = (returned a, s)
  handled h (raised e, s) = h e s
  handled h (waiting, s) = (waiting, s)

  -- try: m  except: h
  unfoldable pub catch : Exec S A → (Exn → Exec S A) → Exec S A
  catch m h s = handled h (m s)

  -- The state after a `finally`. A task that waits has not come to it.
  abbrev pub ended : Outcome A → (S → S) → S → S
  ended (returned a) f s = f s
  ended (raised e) f s = f s
  ended waiting f s = s

  -- try: m  finally: f
  unfoldable pub finally : Exec S A → (S → S) → Exec S A
  finally m f s = let (r, s') = m s in (r, ended r f s')

module _ {S A B : Type 0} where
  -- What follows a part that ended with a result, in the state that it left.
  abbrev pub resume : (A → Exec S B) → Outcome A × S → Outcome B × S
  resume f (returned a, s) = f a s
  resume f (raised e, s) = (raised e, s)
  resume f (waiting, s) = (waiting, s)

  infixl 5 ◌>>=◌ ◌>>◌
  -- To open this is to open all the ways to build a coroutine.
  unfoldable pub ◌>>=◌ : Exec S A → (A → Exec S B) → Exec S B
  unfolding pure raise lift block gets modify when_some catch finally
  ◌>>=◌ m f s = resume f (m s)

  abbrev pub ◌>>◌ : Exec S A → Exec S B → Exec S B
  m >> n = m >>= λ _. n
