-- ===== src/Scripts/Program.antt =====
-- A coroutine of a script: what it awaits, prints, writes and raises. A task is such a program, so that
-- tasks can take turns at every await.
pub mod Runs
use indy_perf.Base.{ℕ, String, List, [], ◌∷◌}
use indy_perf.Exn.{ErrorCode, Exn, indy_error, Result, ok, err}
use indy_perf.Json.{Json, JsonText}
use indy_perf.Scripts.Calls.{Call, Reply, Answer, answer, failure, Event, event, slept}

-- print_log with its two texts, print, pprint, and the message of `except IndyError`.
pub data Line : Type 0 where
  logged : String → String → Line
  printed : String → Line
  pretty : Json → Line
  error_occurred : ErrorCode → Line
  -- print of a word and a JSON text
  printed_json : String → JsonText → Line
  -- LOGGER.info and LOGGER.exception
  info : String → Line
  exception : Exn → Line

-- What a file is given.
pub data Content : Type 0 where
  text : String → Content
  json : JsonText → Content

-- `F` is the type of floats, which time.time() gives.
pub data Script (F A : Type 0) : Type 0 where
  ret : A → Script F A
  throw : Exn → Script F A
  ask : (c : Call) → (Answer (Reply c) → Script F A) → Script F A
  clock : (F → Script F A) → Script F A
  sleep : ℕ → Script F A → Script F A
  say : Line → Script F A → Script F A
  write_file : String → Content → Script F A → Script F A

module _ {F A B : Type 0} where
  infixl 5 ◌>>=◌ ◌>>◌
  abbrev pub ◌>>=◌ : Script F A → (A → Script F B) → Script F B
  ret a >>= f = f a
  throw e >>= f = throw e
  ask c k >>= f = ask c (λ r. k r >>= f)
  clock k >>= f = clock (λ t. k t >>= f)
  sleep n m >>= f = sleep n (m >>= f)
  say l m >>= f = say l (m >>= f)
  write_file path c m >>= f = write_file path c (m >>= f)

  abbrev pub ◌>>◌ : Script F A → Script F B → Script F B
  m >> n = m >>= λ _. n

module _ {F : Type 0} where
  -- await of a call that raises what libindy raises
  abbrev pub result_of : {A : Type 0} → Answer A → Script F A
  result_of (answer r) = ret r
  result_of (failure e) = throw (indy_error e)

  abbrev pub call : (c : Call) → Script F (Reply c)
  call c = ask c result_of

  unfoldable pub of_result : {A : Type 0} → Result A → Script F A
  of_result (ok a) = ret a
  of_result (err e) = throw e

  abbrev pub print_log : String → String → Script F Unit
  print_log colored plain = say (logged colored plain) (ret tt)

  abbrev pub print : String → Script F Unit
  print s = say (printed s) (ret tt)

  abbrev pub log_info : String → Script F Unit
  log_info s = say (info s) (ret tt)

  abbrev pub pprint : Json → Script F Unit
  pprint j = say (pretty j) (ret tt)

  abbrev pub time : Script F F
  time = clock ret

  abbrev pub write_to : String → Content → Script F Unit
  write_to path c = write_file path c (ret tt)

  module _ {A : Type 0} (h : Exn → Script F A) where
    -- try: m  except: h
    abbrev pub attempt : Script F A → Script F A
    attempt (ret a) = ret a
    attempt (throw e) = h e
    attempt (ask c k) = ask c (λ r. attempt (k r))
    attempt (clock k) = clock (λ t. attempt (k t))
    attempt (sleep n m) = sleep n (attempt m)
    attempt (say l m) = say l (attempt m)
    attempt (write_file path c m) = write_file path c (attempt m)

  -- What `except IndyError` does with an exception.
  abbrev pub on_indy_error : {A : Type 0} → (ErrorCode → Script F A) → Exn → Script F A
  on_indy_error h (indy_error e) = h e
  on_indy_error h e = throw e

  -- try: m  except IndyError as e: print('Error occurred: %s' % e)
  abbrev pub reporting : Script F Unit → Script F Unit
  reporting = attempt (on_indy_error (λ e. say (error_occurred e) (ret tt)))

-- libindy, the clock and the pauses, over all that they depend on.
pub record Machine (W F : Type 0) : Type 0 where
  pub perform : (c : Call) → W → Answer (Reply c) × W
  pub now : W → F × W
  pub pause : ℕ → W → W

-- What a script leaves: the events, the lines that it printed and what it wrote to files, the latest first.
pub record Trace : Type 0 where
  pub events : List Event
  pub lines : List Line
  pub files : List (String × Content)

abbrev pub no_trace : Trace
no_trace = record { events = []; lines = []; files = [] }

abbrev pub noted : (c : Call) → Answer (Reply c) → Trace → Trace
noted c r t = record t { events = event c r ∷ t.events }

abbrev pub paused : ℕ → Trace → Trace
paused n t = record t { events = slept n ∷ t.events }

abbrev pub said : Line → Trace → Trace
said l t = record t { lines = l ∷ t.lines }

abbrev pub written : String → Content → Trace → Trace
written path c t = record t { files = (path, c) ∷ t.files }

module _ {W F : Type 0} (m : Machine W F) where
  -- The run of a script on its own.
  unfoldable pub run : {A : Type 0} → Script F A → W → Trace → Result A × W × Trace
  run (ret a) w t = (ok a, w, t)
  run (throw e) w t = (err e, w, t)
  run (ask c k) w t = let (r, w') = m.perform c w in run (k r) w' (noted c r t)
  run (clock k) w t = let (f, w') = m.now w in run (k f) w' t
  run (sleep n p) w t = run p (m.pause n w) (paused n t)
  run (say l p) w t = run p w (said l t)
  run (write_file path c p) w t = run p w (written path c t)
