-- ===== src/Scripts/Program/Runs.antt =====
-- What a script does whatever libindy answers: by the script's steps, with a rule for each way to put
-- scripts together, and what a run makes of it.
use indy_perf.Base.{
  Bool, true, false, if◌then◌else◌, ℕ, String, ◌≡◌, refl, ◌⊎◌, inl, inr, List, ◌∷◌,
}
use indy_perf.Exn.{ErrorCode, Exn, indy_error, Result, ok, err}
use indy_perf.Scripts.Calls.{Call, Reply, Answer, answer, failure, held, Allowed, Legal}
use indy_perf.Scripts.Program.{
  reporting, error_occurred, Script, ret, throw, ask, clock, sleep, say, write_file, ◌>>=◌, attempt,
  Machine, Trace, noted, paused, said, written, run, Line, Content, of_result, on_indy_error,
}

module _ {F A : Type 0} (Q : A → Trace → Type 0) (E : Exn → Trace → Type 0) where
  -- After `t` the script makes allowed calls only; it returns with `Q`, and raises with `E`.
  abbrev pub Steps : Script F A → Trace → Type 0
  Steps (ret a) t = Q a t
  Steps (throw e) t = E e t
  Steps (ask c k) t =
      Allowed c (held t.events) × ((r : Answer (Reply c)) → Steps (k r) (noted c r t))
  Steps (clock k) t = (x : F) → Steps (k x) t
  Steps (sleep n m) t = Steps m (paused n t)
  Steps (say l m) t = Steps m (said l t)
  Steps (write_file path c m) t = Steps m (written path c t)

  pub record Safely (m : Script F A) (t : Trace) : Type 0 where
    pub steps : Steps m t

module _ {F A B : Type 0} {R : A → Trace → Type 0} {Q : B → Trace → Type 0}
    {E : Exn → Trace → Type 0} (f : A → Script F B)
    (next : (a : A) (t : Trace) → R a t → Safely Q E (f a) t) where
  Steps-bind : (m : Script F A) (t : Trace) → Steps R E m t → Steps Q E (m >>= f) t
  Steps-bind (ret a) t s = (next a t s).steps
  Steps-bind (throw e) t s = s
  Steps-bind (ask c k) t s = (s.0, λ r. Steps-bind (k r) (noted c r t) (s.1 r))
  Steps-bind (clock k) t s = λ x. Steps-bind (k x) t (s x)
  Steps-bind (sleep n m) t s = Steps-bind m (paused n t) s
  Steps-bind (say l m) t s = Steps-bind m (said l t) s
  Steps-bind (write_file path c m) t s = Steps-bind m (written path c t) s

  pub Safely-bind : (m : Script F A) (t : Trace) → Safely R E m t → Safely Q E (m >>= f) t
  Safely-bind m t s = record { steps = Steps-bind m t s.steps }

module _ {F A : Type 0} {Q Q' : A → Trace → Type 0} {E E' : Exn → Trace → Type 0}
    (h : Exn → Script F A) (kept : (a : A) (t : Trace) → Q a t → Q' a t)
    (caught : (e : Exn) (t : Trace) → E e t → Safely Q' E' (h e) t) where
  Steps-attempt : (m : Script F A) (t : Trace) → Steps Q E m t → Steps Q' E' (attempt h m) t
  Steps-attempt (ret a) t s = kept a t s
  Steps-attempt (throw e) t s = (caught e t s).steps
  Steps-attempt (ask c k) t s = (s.0, λ r. Steps-attempt (k r) (noted c r t) (s.1 r))
  Steps-attempt (clock k) t s = λ x. Steps-attempt (k x) t (s x)
  Steps-attempt (sleep n m) t s = Steps-attempt m (paused n t) s
  Steps-attempt (say l m) t s = Steps-attempt m (said l t) s
  Steps-attempt (write_file path c m) t s = Steps-attempt m (written path c t) s

  pub Safely-attempt : (m : Script F A) (t : Trace) → Safely Q E m t → Safely Q' E' (attempt h m) t
  Safely-attempt m t s = record { steps = Steps-attempt m t s.steps }

-- How a run ended.
abbrev pub Ended :
    {A : Type 0} → (A → Trace → Type 0) → (Exn → Trace → Type 0) → Result A → Trace → Type 0
Ended Q E (ok a) t = Q a t
Ended Q E (err e) t = E e t

Legal-noted :
    (c : Call) (r : Answer (Reply c)) (t : Trace)
    → Allowed c (held t.events)
    → Legal t.events
    → Legal (noted c r t).events
Legal-noted c (answer r) t a l = (a, l)
Legal-noted c (failure e) t a l = (a, l)

module _ {W F A : Type 0} (Q : A → Trace → Type 0) (E : Exn → Trace → Type 0)
    (m : Machine W F) where
  run-Steps :
      (p : Script F A) (w : W) (t : Trace)
      → Steps Q E p t
      → Legal t.events
      → let (r, w', t') = run m p w t in Legal t'.events × Ended Q E r t'
  unfolding run
  run-Steps (ret a) w t s l = (l, s)
  run-Steps (throw e) w t s l = (l, s)
  run-Steps (ask c k) w t s l =
      let (r, w') = m.perform c w in
      run-Steps (k r) w' (noted c r t) (s.1 r) (Legal-noted c r t s.0 l)
  run-Steps (clock k) w t s l = let (x, w') = m.now w in run-Steps (k x) w' t (s x) l
  run-Steps (sleep n p) w t s l = run-Steps p (m.pause n w) (paused n t) s (tt, l)
  run-Steps (say x p) w t s l = run-Steps p w (said x t) s l
  run-Steps (write_file path c p) w t s l = run-Steps p w (written path c t) s l

  pub run-Safely :
      (p : Script F A) (w : W) (t : Trace)
      → Safely Q E p t
      → Legal t.events
      → let (r, w', t') = run m p w t in Legal t'.events × Ended Q E r t'
  run-Safely p w t s l = run-Steps p w t s.steps l

module _ {F A : Type 0} {Q : A → Trace → Type 0} {E : Exn → Trace → Type 0} where
  pub Safely-ret : (a : A) (t : Trace) → Q a t → Safely {F = F} Q E (ret a) t
  Safely-ret a t q = record { steps = q }

  pub Safely-throw : (e : Exn) (t : Trace) → E e t → Safely {F = F} Q E (throw e) t
  Safely-throw e t q = record { steps = q }

  pub Safely-say :
      (l : Line) (m : Script F A) (t : Trace) → Safely Q E m (said l t) → Safely Q E (say l m) t
  Safely-say l m t s = record { steps = s.steps }

  pub Safely-sleep :
      (n : ℕ) (m : Script F A) (t : Trace) → Safely Q E m (paused n t) → Safely Q E (sleep n m) t
  Safely-sleep n m t s = record { steps = s.steps }

  pub Safely-write :
      (path : String) (c : Content) (m : Script F A) (t : Trace)
      → Safely Q E m (written path c t)
      → Safely Q E (write_file path c m) t
  Safely-write path c m t s = record { steps = s.steps }

  pub Safely-clock :
      (k : F → Script F A) (t : Trace) → ((x : F) → Safely Q E (k x) t) → Safely Q E (clock k) t
  Safely-clock k t s = record { steps = λ x. (s x).steps }

  Safely-answer :
      (c : Call) (f : Answer (Reply c) → Script F A) (t : Trace)
      → ((r : Reply c) → Safely Q E (f (answer r)) (noted c (answer r) t))
      → ((e : ErrorCode) → Safely Q E (f (failure e)) (noted c (failure e) t))
      → (r : Answer (Reply c)) → Steps Q E (f r) (noted c r t)
  Safely-answer c f t g h (answer r) = (g r).steps
  Safely-answer c f t g h (failure e) = (h e).steps

  pub Safely-if :
      (b : Bool) (m n : Script F A) (t : Trace)
      → Safely Q E m t
      → Safely Q E n t
      → Safely Q E (if b then m else n) t
  Safely-if true m n t x y = x
  Safely-if false m n t x y = y

  -- An await of what may fail.
  pub Safely-ask :
      (c : Call) (f : Answer (Reply c) → Script F A) (t : Trace)
      → Allowed c (held t.events)
      → ((r : Reply c) → Safely Q E (f (answer r)) (noted c (answer r) t))
      → ((e : ErrorCode) → Safely Q E (f (failure e)) (noted c (failure e) t))
      → Safely Q E (ask c f) t
  Safely-ask c f t a g h = record { steps = (a, Safely-answer c f t g h) }

  pub Safely-of_result :
      {B : Type 0} (r : Result B) (f : B → Script F A) (t : Trace)
      → ((b : B) → Safely Q E (f b) t)
      → ((e : Exn) → E e t)
      → Safely Q E (of_result r >>= f) t
  unfolding of_result
  Safely-of_result (ok b) f t g h = g b
  Safely-of_result (err e) f t g h = Safely-throw e t (h e)

  -- The same with the equation.
  pub Safely-of_result_eq :
      {B : Type 0} (r : Result B) (f : B → Script F A) (t : Trace)
      → ((b : B) → r ≡ ok b → Safely Q E (f b) t)
      → ((e : Exn) → E e t)
      → Safely Q E (of_result r >>= f) t
  unfolding of_result
  Safely-of_result_eq (ok b) f t g h = g b refl
  Safely-of_result_eq (err e) f t g h = Safely-throw e t (h e)

-- An exception other than IndyError.
abbrev pub IsOther : Exn → Type 0
IsOther (indy_error e) = ⊥
IsOther e = Unit

module _ {F A : Type 0} {Q : A → Trace → Type 0} {E : Exn → Trace → Type 0}
    (h : ErrorCode → Script F A) where
  -- except IndyError: h
  pub Safely-on_indy_error :
      (e : Exn) (t : Trace)
      → ((c : ErrorCode) → Safely Q E (h c) t)
      → (IsOther e → E e t)
      → Safely Q E (on_indy_error h e) t
  Safely-on_indy_error (indy_error c) t g k = g c
  Safely-on_indy_error e t g k = Safely-throw e t (k tt)

-- The last line is the message of `except IndyError`.
abbrev pub Reported : Trace → Type 0
Reported t = (e : ErrorCode) × (before : List Line) × (t.lines ≡ error_occurred e ∷ before)

-- What a script does as a whole that reports an IndyError: it does not raise one, and where it does not
-- end as its steps do, its last line is the report.
pub Safely-reporting :
    {F : Type 0} {Q : Unit → Trace → Type 0} {E : Exn → Trace → Type 0} (m : Script F Unit)
    (t : Trace)
    → Safely Q E m t
    → Safely (λ _ t'. Q tt t' ⊎ Reported t') (λ e _. IsOther e) (reporting m) t
Safely-reporting m t s =
    Safely-attempt _ (λ _ u q. inl q)
      (λ e u x.
        Safely-on_indy_error _ e u
          (λ c. Safely-say _ _ u (Safely-ret tt _ (inr (c, u.lines, refl)))) (λ other. other))
      m t s

pub ruleset safely_rules = (
  Safely-ret, Safely-throw, Safely-say, Safely-sleep, Safely-write, Safely-clock, Safely-ask,
  Safely-of_result, Safely-if,
)
