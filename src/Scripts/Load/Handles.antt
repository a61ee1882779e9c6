-- ===== src/Scripts/Load/Handles.antt =====
-- A load test under any order of the awaits: its handles and its result files.
use indy_perf.Base.{ℕ, ◌≡◌, String, some, List}
use indy_perf.Exn.{Exn}
use indy_perf.Timings.Bounds.{IsOrder}
use indy_perf.Scripts.Calls.{held, nothing, Legal}
use indy_perf.Scripts.Program.{Content, Machine, Trace}
use indy_perf.Scripts.Program.Runs.{Ended}
use indy_perf.Scripts.Tasks.{Ran}
use indy_perf.Scripts.Tasks.Shared.{IsIndyError}
use indy_perf.Scripts.Tasks.Turns.{AllFiles}
use indy_perf.Scripts.Load.Measured.{IsResult}
use indy_perf.Scripts.Load.{Times}

abbrev pub Raises : (String → Content → Type 0) → Exn → Trace → Type 0
Raises P e t = IsIndyError e × AllFiles P t.files

-- The wallet and the pool are open.
abbrev Both : (String → Content → Type 0) → ℕ × ℕ → Trace → Type 0
Both P (w, p) t =
    ((held t.events).pool ≡ some p) × ((held t.events).wallet ≡ some w) × AllFiles P t.files

abbrev pub Left : (String → Content → Type 0) → Unit {0} → Trace → Type 0
Left P _ t = (held t.events ≡ nothing) × AllFiles P t.files

module _ {W F : Type 0} (f : Times F) (o : IsOrder f.floats) (m : Machine W F)
    (schedules : ℕ → List ℕ) where
  abbrev Done : Ran W Unit → Type 0
  Done (r, s, t) = Legal t.events × Ended (Left (IsResult f)) (Raises (IsResult f)) r t
