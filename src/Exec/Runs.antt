-- ===== src/Exec/Runs.antt =====
-- Correctness of a coroutine by how it stops: one rule for each way to build one.
use indy_perf.Base.{◌≡◌, refl, Bool, true, false, Option, none, some, if◌then◌else◌}
use indy_perf.Exn.{Exn, Result, ok, err}
use indy_perf.Exec.{
  Exec, Outcome, returned, raised, waiting, pure, raise, lift, block, gets, modify, catch, handled,
  finally, ended, resume, when_some, ◌>>=◌,
}

-- `Q` after a result, `E` after an exception, `D` where the task waits.
abbrev pub Stops :
    {S A : Type 0} → (A → S → Type 0) → (S → Type 0) → (S → Type 0) → Outcome A × S → Type 0
Stops Q E D (returned a, s) = Q a s
Stops Q E D (raised e, s) = E s
Stops Q E D (waiting, s) = D s

-- The same after an exception and where the task waits.
abbrev pub Ends : {S A : Type 0} → (A → S → Type 0) → (S → Type 0) → Outcome A × S → Type 0
Ends Q E r = Stops Q E E r

pub record Triple {S A : Type 0} (P : S → Type 0) (m : Exec S A) (Q : A → S → Type 0)
    (E D : S → Type 0) : Type 0 where
  pub at : (s : S) → P s → Stops Q E D (m s)

abbrev pub Runs :
    {S A : Type 0} → (S → Type 0) → Exec S A → (A → S → Type 0) → (S → Type 0) → Type 0
Runs P m Q E = Triple P m Q E E

-- `m` keeps `P` on every way out; where it waits, `D`.
abbrev pub Within : {S A : Type 0} → (S → Type 0) → (S → Type 0) → Exec S A → Type 0
Within P D m = Triple P m (λ _. P) P D

abbrev pub Keeps : {S A : Type 0} → (S → Type 0) → Exec S A → Type 0
Keeps P m = Within P P m

-- `m` keeps `P`, and never waits.
abbrev pub Prompt : {S A : Type 0} → (S → Type 0) → Exec S A → Type 0
Prompt P m = Within P (λ _. ⊥) m

module _ {S A : Type 0} {P : S → Type 0} {Q : A → S → Type 0} {E D : S → Type 0} where
  pub Runs-pure : (a : A) → ((s : S) → P s → Q a s) → Triple P (pure a) Q E D
  unfolding pure
  Runs-pure a h = record { at = h }

  pub Runs-raise : (e : Exn) → ((s : S) → P s → E s) → Triple P (raise e) Q E D
  unfolding raise
  Runs-raise e h = record { at = h }

  pub Runs-lift :
      (r : Result A)
      → ((a : A) (s : S) → r ≡ ok a → P s → Q a s)
      → ((s : S) → P s → E s)
      → Triple P (lift r) Q E D
  unfolding lift
  Runs-lift (ok a) h g = record { at = λ s p. h a s refl p }
  Runs-lift (err e) h g = record { at = g }

  pub Runs-gets : (f : S → A) → ((s : S) → P s → Q (f s) s) → Triple P (gets f) Q E D
  unfolding gets
  Runs-gets f h = record { at = h }

  pub Runs-if :
      (b : Bool) (m n : Exec S A)
      → (b ≡ true → Triple P m Q E D)
      → (b ≡ false → Triple P n Q E D)
      → Triple P (if b then m else n) Q E D
  Runs-if true m n h g = h refl
  Runs-if false m n h g = g refl

module _ {S A B : Type 0} {R : A → S → Type 0} {Q : B → S → Type 0} {E D : S → Type 0} where
  Ends-resume :
      (f : A → Exec S B) (r : Outcome A × S)
      → ((a : A) → Triple (R a) (f a) Q E D)
      → Stops R E D r
      → Stops Q E D (resume f r)
  Ends-resume f (returned a, s) h e = (h a).at s e
  Ends-resume f (raised x, s) h e = e
  Ends-resume f (waiting, s) h e = e

  pub Runs-bind :
      {P : S → Type 0} (m : Exec S A) (f : A → Exec S B)
      → Triple P m R E D
      → ((a : A) → Triple (R a) (f a) Q E D)
      → Triple P (m >>= f) Q E D
  unfolding ◌>>=◌
  Runs-bind m f h g = record { at = λ s p. Ends-resume f (m s) g (h.at s p) }

module _ {S A : Type 0} {Q : A → S → Type 0} {E F D : S → Type 0} where
  Ends-handled :
      (h : Exn → Exec S A) (r : Outcome A × S)
      → ((e : Exn) → Triple E (h e) Q F D)
      → Stops Q E D r
      → Stops Q F D (handled h r)
  Ends-handled h (returned a, s) g e = e
  Ends-handled h (raised x, s) g e = (g x).at s e
  Ends-handled h (waiting, s) g e = e

  pub Runs-catch :
      {P : S → Type 0} (m : Exec S A) (h : Exn → Exec S A)
      → Triple P m Q E D
      → ((e : Exn) → Triple E (h e) Q F D)
      → Triple P (catch m h) Q F D
  unfolding catch
  Runs-catch m h r g = record { at = λ s p. Ends-handled h (m s) g (r.at s p) }

module _ {S A : Type 0} {Q Q' : A → S → Type 0} {E E' : S → Type 0} where
  Ends-weaken :
      (r : Outcome A × S)
      → ((a : A) (s : S) → Q a s → Q' a s)
      → ((s : S) → E s → E' s)
      → Ends Q E r
      → Ends Q' E' r
  Ends-weaken (returned a, s) h g e = h a s e
  Ends-weaken (raised x, s) h g e = g s e
  Ends-weaken (waiting, s) h g e = g s e

  pub Runs-weaken :
      {P P' : S → Type 0} (m : Exec S A)
      → ((s : S) → P' s → P s)
      → ((a : A) (s : S) → Q a s → Q' a s)
      → ((s : S) → E s → E' s)
      → Runs P m Q E
      → Runs P' m Q' E'
  Runs-weaken m f h g r = record { at = λ s p. Ends-weaken (m s) h g (r.at s (f s p)) }

pub Runs-modify :
    {S : Type 0} {P : S → Type 0} {Q : Unit {0} → S → Type 0} {E D : S → Type 0} (f : S → S)
    → ((s : S) → P s → Q tt (f s))
    → Triple P (modify f) Q E D
unfolding modify
Runs-modify f h = record { at = h }

-- The rules at one predicate, for `search`.
module _ {S A : Type 0} {P D : S → Type 0} where
  pub Keeps-pure : (a : A) → Within P D (pure a)
  Keeps-pure a = Runs-pure a (λ s p. p)

  pub Keeps-raise : (e : Exn) → Within P D (raise {A = A} e)
  Keeps-raise e = Runs-raise e (λ s p. p)

  pub Keeps-lift : (r : Result A) → Within P D (lift r)
  Keeps-lift r = Runs-lift r (λ a s e p. p) (λ s p. p)

  pub Keeps-gets : (f : S → A) → Within P D (gets f)
  Keeps-gets f = Runs-gets f (λ s p. p)

  pub Keeps-if :
      (b : Bool) (m n : Exec S A) → Within P D m → Within P D n → Within P D (if b then m else n)
  Keeps-if b m n h g = Runs-if b m n (λ _. h) (λ _. g)

  pub Keeps-catch :
      (m : Exec S A) (h : Exn → Exec S A)
      → Within P D m
      → ((e : Exn) → Within P D (h e))
      → Within P D (catch m h)
  Keeps-catch m h k g = Runs-catch m h k g

module _ {S A : Type 0} where
  finally_at :
      (P R D : S → Type 0) (f : S → S) (r : Outcome A × S)
      → ((s : S) → P s → R (f s))
      → Stops (λ _. P) P D r
      → Stops (λ _. R) R D (r.0, ended r.0 f r.1)
  finally_at P R D f (returned a, s) h e = h s e
  finally_at P R D f (raised x, s) h e = h s e
  finally_at P R D f (waiting, s) h e = e

  -- After the `finally`, `R` holds; where `m` waits, it has not come to it.
  pub Runs-finally :
      {P R D : S → Type 0} (m : Exec S A) (f : S → S)
      → Within P D m
      → ((s : S) → P s → R (f s))
      → Triple P (finally m f) (λ _. R) R D
  unfolding finally
  Runs-finally {P} {R} {D} m f k h = record { at = λ s p. finally_at P R D f (m s) h (k.at s p) }

pub Keeps-finally :
    {S A : Type 0} {P D : S → Type 0} (m : Exec S A) (f : S → S)
    → Within P D m
    → ((s : S) → P s → P (f s))
    → Within P D (finally m f)
Keeps-finally m f k h = Runs-finally m f k h

pub Keeps-block : {S A : Type 0} {P : S → Type 0} → Keeps P (block {A = A})
unfolding block
Keeps-block = record { at = λ s p. p }

pub Keeps-bind :
    {S A B : Type 0} {P D : S → Type 0} (m : Exec S A) (f : A → Exec S B)
    → Within P D m
    → ((a : A) → Within P D (f a))
    → Within P D (m >>= f)
Keeps-bind m f h g = Runs-bind m f h g

pub Keeps-when_some :
    {S A : Type 0} {P D : S → Type 0} (o : Option A) (f : A → Exec S (Unit {0}))
    → ((a : A) → Within P D (f a))
    → Within P D (when_some o f)
unfolding when_some
Keeps-when_some none f h = Keeps-pure tt
Keeps-when_some (some a) f h = h a

pub ruleset keeps_rules = (
  Keeps-pure, Keeps-raise, Keeps-lift, Keeps-gets, Keeps-if, Keeps-catch, Keeps-bind,
  Keeps-when_some,
)

-- What follows a part that returned.
pub after_return :
    {S A B : Type 0} (m : Exec S A) (f : A → Exec S B) (a : A) (s s' : S)
    → m s ≡ (returned a, s')
    → (m >>= f) s ≡ f a s'
unfolding ◌>>=◌
after_return m f a s s' e = rw e refl
