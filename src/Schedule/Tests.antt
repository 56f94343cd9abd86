-- ===== src/Schedule/Tests.antt =====
-- graph.rs: runs of the schedules, and the laws at inputs that meet their hypotheses.
use cfw.Prelude.{◌≡◌, refl, ◌⊎◌, true, false, some, none, arith}
use cfw.Prelude.Int.{pos, ◌+ℤ◌, ◌≤ℤ◌}
use cfw.Prelude.Result.{ok, err}
use cfw.Time.{time_le, from_nanos, i64_max}
use cfw.Schedule.{CallbackSchedule, overflow, past_deadline, next_after}
use cfw.Schedule.Laws.{next_after_le, next_after_periodic}

abbrev every_five : CallbackSchedule
every_five = record {
  pool = 0;
  run_on_start = false;
  period = some 5;
  execution_duration = none;
  execution_duration_callback = none;
  next_execution_time_callback = none;
}

abbrev at_nine : CallbackSchedule
at_nine = record every_five {
  next_execution_time_callback = some (λ now. some (from_nanos (pos 9)));
}

past_runs : next_after at_nine (from_nanos (pos 10)) ≡ err past_deadline
unfolding next_after
past_runs = refl

next_after_le_example : time_le (from_nanos (pos 7)) (from_nanos (pos 9)) ≡ true
unfolding next_after
next_after_le_example = next_after_le at_nine (from_nanos (pos 7)) (from_nanos (pos 9)) refl

next_after_periodic_example :
    ((pos 7 +ℤ pos 5 ≤ℤ i64_max)
      × (next_after every_five (from_nanos (pos 7)) ≡ ok (some (from_nanos (pos 7 +ℤ pos 5)))))
    ⊎ (¬ (pos 7 +ℤ pos 5 ≤ℤ i64_max) × (next_after every_five (from_nanos (pos 7)) ≡ err overflow))
next_after_periodic_example =
    next_after_periodic every_five 5 (from_nanos (pos 7)) (omega arith) refl refl
