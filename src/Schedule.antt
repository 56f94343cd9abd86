-- ===== src/Schedule.antt =====
-- task_graph/src/graph.rs, `CallbackSchedule`: when a callback runs, and for how long. A `Duration`
-- is its number of nanoseconds. The two user callbacks are taken as functions of their arguments.
pub mod Laws
mod Tests
use cfw.Prelude.{
  ℕ, ◌≡◌, refl, ◌⊎◌, inl, inr, Bool, true, false, ◌||◌, Option, none, some, if◌then◌else◌, arith,
  Bool-cases,
}
use cfw.Prelude.Result.{Result, ok, err}
use cfw.Time.{FrameworkTime, time_le, time_lt, checked_add_duration}

pub data TimingError : Type 0 where
  missing_duration overflow past_deadline : TimingError

pub record CallbackSchedule : Type 0 where
  pub pool : ℕ
  pub run_on_start : Bool
  pub period : Option ℕ
  pub execution_duration : Option ℕ
  pub execution_duration_callback : Option (Unit {0} → ℕ)
  pub next_execution_time_callback : Option (FrameworkTime → Option FrameworkTime)

abbrev pub is_some {ℓ} : {A : Type ℓ} → Option A → Bool
is_some none = false
is_some (some a) = true

unfoldable pub with_execution_duration : CallbackSchedule → ℕ → CallbackSchedule
with_execution_duration s d = record s {
  execution_duration = some d;
  execution_duration_callback = none;
}

unfoldable pub with_execution_duration_callback :
    CallbackSchedule → (Unit {0} → ℕ) → CallbackSchedule
with_execution_duration_callback s f = record s { execution_duration_callback = some f }

unfoldable pub with_next_execution_time_callback :
    CallbackSchedule → (FrameworkTime → Option FrameworkTime) → CallbackSchedule
with_next_execution_time_callback s f = record s {
  next_execution_time_callback = some f;
  period = none;
}

unfoldable pub has_execution_duration : CallbackSchedule → Bool
has_execution_duration s = is_some s.execution_duration || is_some s.execution_duration_callback

abbrev pub duration_of : Option (Unit {0} → ℕ) → Option ℕ → Result TimingError ℕ
duration_of (some f) d = ok (f tt)
duration_of none (some d) = ok d
duration_of none none = err missing_duration

unfoldable pub duration : CallbackSchedule → Result TimingError ℕ
duration s = duration_of s.execution_duration_callback s.execution_duration

unfoldable pub is_timed : CallbackSchedule → Bool
is_timed s = is_some s.period || is_some s.next_execution_time_callback

unfoldable pub is_ever_runnable : CallbackSchedule → Bool → Bool
unfolding is_timed
is_ever_runnable s has_triggering_inputs = has_triggering_inputs || (s.run_on_start || is_timed s)

abbrev pub or_overflow : Option FrameworkTime → Result TimingError (Option FrameworkTime)
or_overflow none = err overflow
or_overflow (some next) = ok (some next)

-- The deadline before its check.
abbrev pub proposed :
    Option (FrameworkTime → Option FrameworkTime)
    → Option ℕ
    → FrameworkTime
    → Result TimingError (Option FrameworkTime)
proposed (some next) period now = ok (next now)
proposed none none now = ok none
proposed none (some period) now = or_overflow (checked_add_duration now period)

abbrev pub not_past :
    FrameworkTime
    → Result TimingError (Option FrameworkTime)
    → Result TimingError (Option FrameworkTime)
not_past now (err e) = err e
not_past now (ok none) = ok none
not_past now (ok (some next)) = if time_lt next now then err past_deadline else ok (some next)

unfoldable pub next_after :
    CallbackSchedule → FrameworkTime → Result TimingError (Option FrameworkTime)
next_after s now = not_past now (proposed s.next_execution_time_callback s.period now)

unfoldable pub input_triggered : CallbackSchedule
input_triggered = record {
  pool = 0;
  run_on_start = false;
  period = none;
  execution_duration = none;
  execution_duration_callback = none;
  next_execution_time_callback = none;
}

unfoldable pub on_start : CallbackSchedule
unfolding input_triggered
on_start = record input_triggered { run_on_start = true }

unfoldable pub periodic : ℕ → CallbackSchedule
unfolding on_start
periodic p = record on_start { period = some p }

unfoldable pub in_pool : CallbackSchedule → ℕ → CallbackSchedule
in_pool s pool = record s { pool = pool }
