-- ===== src/Schedule/Laws.antt =====
-- graph.rs: what the deadlines of a `CallbackSchedule` satisfy.
use cfw.Prelude.{ℕ, ◌≡◌, refl, ◌⊎◌, inl, inr, true, false, Option, none, some, arith, Bool-cases}
use cfw.Prelude.Result.{Result, ok, err}
use cfw.Prelude.Int.{ℤ, pos, ◌+ℤ◌, ◌≤ℤ◌}
use cfw.Time.{FrameworkTime, time_le, time_lt, FitsI64, i64_max, from_nanos}
use cfw.Time.Laws.{checked_add_duration_lem}
use cfw.Schedule.{TimingError, CallbackSchedule, proposed, not_past, next_after, overflow}

not_past_le :
    (now : FrameworkTime) (p : Result TimingError (Option FrameworkTime)) (t : FrameworkTime)
    → not_past now p ≡ ok (some t)
    → time_le now t ≡ true
not_past_le now (err e) t h = cc
not_past_le now (ok none) t h = cc
not_past_le now (ok (some next)) t h = elim (Bool-cases (time_lt next now)) [
  | inl late ↦ ground (arith, h, late)
  | inr fine ↦ ground (arith, h, fine)
]

-- A deadline that is granted is never before the time that it was asked for, whatever a user's
-- callback answers.
pub next_after_le :
    (s : CallbackSchedule) (now t : FrameworkTime)
    → next_after s now ≡ ok (some t)
    → time_le now t ≡ true
unfolding next_after
next_after_le s now t h = not_past_le now (proposed s.next_execution_time_callback s.period now) t h

later : (z : ℤ) (p : ℕ) → time_lt (from_nanos (z +ℤ pos p)) (from_nanos z) ≡ false
unfolding ◌+ℤ◌
later z p = ground arith

-- Without a user's callback the deadline is exactly one period after the given time, and where that
-- time does not fit the signed word the answer is an overflow, never a wrapped deadline.
pub next_after_periodic :
    (s : CallbackSchedule) (p : ℕ) (now : FrameworkTime)
    → FitsI64 now.nanoseconds
    → s.next_execution_time_callback ≡ none
    → s.period ≡ some p
    → ((now.nanoseconds +ℤ pos p ≤ℤ i64_max)
        × (next_after s now ≡ ok (some (from_nanos (now.nanoseconds +ℤ pos p)))))
      ⊎ (¬ (now.nanoseconds +ℤ pos p ≤ℤ i64_max) × (next_after s now ≡ err overflow))
unfolding next_after
next_after_periodic s p now fits plain period = elim (checked_add_duration_lem now p fits) [
  | inl (bound, sum) ↦ inl (bound, rw (plain, period, sum, later now.nanoseconds p) refl)
  | inr (bound, lost) ↦ inr (bound, rw (plain, period, lost) refl)
]
