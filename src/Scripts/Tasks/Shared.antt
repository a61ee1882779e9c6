-- ===== src/Scripts/Tasks/Shared.antt =====
-- Tasks that share an open pool and an open wallet, and leave both open.
use indy_perf.Base.{ℕ, ◌≡◌, String, some}
use indy_perf.Exn.{ErrorCode, Exn, indy_error}
use indy_perf.Scripts.Calls.{Call, Reply, Answer, answer, failure, Held, effect, Allowed}
use indy_perf.Scripts.Program.{
  Script, ret, throw, ask, clock, sleep, say, write_file, ◌>>=◌, on_indy_error, Line, Content,
  reporting, error_occurred,
}

-- With this pool and this wallet open, the call is allowed and leaves them open.
abbrev pub Neutral : ℕ → ℕ → Call → Type 0
Neutral p w c =
    (h : Held)
    → h.pool ≡ some p
    → h.wallet ≡ some w
    → Allowed c h
      × ((r : Reply c) → ((effect c r h).pool ≡ some p) × ((effect c r h).wallet ≡ some w))

module _ (p w : ℕ) (E : Exn → Type 0) (P : String → Content → Type 0) {F A : Type 0}
    (Q : A → Type 0) where
  -- The script makes neutral calls only, writes what `P` allows, returns a value of `Q`, and raises an
  -- exception of `E`.
  abbrev pub Shares : Script F A → Type 0
  Shares (ret a) = Q a
  Shares (throw e) = E e
  Shares (ask c k) = Neutral p w c × ((r : Answer (Reply c)) → Shares (k r))
  Shares (clock k) = (x : F) → Shares (k x)
  Shares (sleep n m) = Shares m
  Shares (say l m) = Shares m
  Shares (write_file path c m) = P path c × Shares m

  pub record IsTask (m : Script F A) : Type 0 where
    pub shares : Shares m

module _ {p w : ℕ} {E : Exn → Type 0} {P : String → Content → Type 0} {F A : Type 0}
    {Q : A → Type 0} where
  pub IsTask-ret : (a : A) → Q a → IsTask p w E P {F = F} Q (ret a)
  IsTask-ret a q = record { shares = q }

  pub IsTask-throw : (e : Exn) → E e → IsTask p w E P {F = F} Q (throw e)
  IsTask-throw e x = record { shares = x }

  pub IsTask-say : (l : Line) (m : Script F A) → IsTask p w E P Q m → IsTask p w E P Q (say l m)
  IsTask-say l m s = record { shares = s.shares }

  pub IsTask-write :
      (path : String) (c : Content) (m : Script F A)
      → P path c
      → IsTask p w E P Q m
      → IsTask p w E P Q (write_file path c m)
  IsTask-write path c m x s = record { shares = (x, s.shares) }

  pub IsTask-clock :
      (k : F → Script F A) → ((x : F) → IsTask p w E P Q (k x)) → IsTask p w E P Q (clock k)
  IsTask-clock k s = record { shares = λ x. (s x).shares }

  Shares-answer :
      (c : Call) (f : Answer (Reply c) → Script F A)
      → ((r : Reply c) → IsTask p w E P Q (f (answer r)))
      → ((e : ErrorCode) → IsTask p w E P Q (f (failure e)))
      → (r : Answer (Reply c)) → Shares p w E P Q (f r)
  Shares-answer c f g h (answer r) = (g r).shares
  Shares-answer c f g h (failure e) = (h e).shares

  pub IsTask-ask :
      (c : Call) (f : Answer (Reply c) → Script F A)
      → Neutral p w c
      → ((r : Reply c) → IsTask p w E P Q (f (answer r)))
      → ((e : ErrorCode) → IsTask p w E P Q (f (failure e)))
      → IsTask p w E P Q (ask c f)
  IsTask-ask c f n g h = record { shares = (n, Shares-answer c f g h) }

module _ {p w : ℕ} {E : Exn → Type 0} {P : String → Content → Type 0} {F A B : Type 0}
    {R : A → Type 0} {Q : B → Type 0} (f : A → Script F B)
    (next : (a : A) → R a → IsTask p w E P Q (f a)) where
  Shares-bind : (m : Script F A) → Shares p w E P R m → Shares p w E P Q (m >>= f)
  Shares-bind (ret a) s = (next a s).shares
  Shares-bind (throw e) s = s
  Shares-bind (ask c k) s = (s.0, λ r. Shares-bind (k r) (s.1 r))
  Shares-bind (clock k) s = λ x. Shares-bind (k x) (s x)
  Shares-bind (sleep n m) s = Shares-bind m s
  Shares-bind (say l m) s = Shares-bind m s
  Shares-bind (write_file path c m) s = (s.0, Shares-bind m s.1)

  pub IsTask-bind : (m : Script F A) → IsTask p w E P R m → IsTask p w E P Q (m >>= f)
  IsTask-bind m s = record { shares = Shares-bind m s.shares }

module _ (p w : ℕ) (E : Exn → Type 0) (P : String → Content → Type 0) {F A : Type 0}
    {R Q : A → Type 0} (kept : (a : A) → R a → Q a) where
  Shares-weaken : (m : Script F A) → Shares p w E P R m → Shares p w E P Q m
  Shares-weaken (ret a) s = kept a s
  Shares-weaken (throw e) s = s
  Shares-weaken (ask c k) s = (s.0, λ r. Shares-weaken (k r) (s.1 r))
  Shares-weaken (clock k) s = λ x. Shares-weaken (k x) (s x)
  Shares-weaken (sleep n m) s = Shares-weaken m s
  Shares-weaken (say l m) s = Shares-weaken m s
  Shares-weaken (write_file path c m) s = (s.0, Shares-weaken m s.1)

  pub IsTask-weaken : (m : Script F A) → IsTask p w E P R m → IsTask p w E P Q m
  IsTask-weaken m s = record { shares = Shares-weaken m s.shares }

pub ruleset task_rules =
    (IsTask-ret, IsTask-say, IsTask-write, IsTask-clock, IsTask-ask, IsTask-throw)

abbrev pub IsIndyError : Exn → Type 0
IsIndyError (indy_error e) = Unit
IsIndyError e = ⊥

abbrev pub Never : Exn → Type 0
Never e = ⊥

abbrev pub Any : {A : Type 0} → A → Type 0
Any a = Unit

module _ (F : Type 0) (p w : ℕ) (P : String → Content → Type 0) where
  handled-Shares :
      (e : Exn)
      → IsIndyError e
      → Shares p w Never P {F = F} Any (on_indy_error (λ c. say (error_occurred c) (ret tt)) e)
  handled-Shares (indy_error c) s = tt
  handled-Shares _ s = s

  Shares-reporting :
      (m : Script F Unit) → Shares p w IsIndyError P Any m → Shares p w Never P Any (reporting m)
  Shares-reporting (ret a) s = s
  Shares-reporting (throw e) s = handled-Shares e s
  Shares-reporting (ask c k) s = (s.0, λ r. Shares-reporting (k r) (s.1 r))
  Shares-reporting (clock k) s = λ x. Shares-reporting (k x) (s x)
  Shares-reporting (sleep n m) s = Shares-reporting m s
  Shares-reporting (say l m) s = Shares-reporting m s
  Shares-reporting (write_file path c m) s = (s.0, Shares-reporting m s.1)

  -- A task that reports its IndyErrors raises nothing.
  pub IsTask-reporting :
      (m : Script F Unit) → IsTask p w IsIndyError P Any m → IsTask p w Never P Any (reporting m)
  IsTask-reporting m s = record { shares = Shares-reporting m s.shares }
