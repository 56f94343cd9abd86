-- ===== src/Time/Tests.antt =====
-- task/src/time.rs: runs of the model, and the laws at inputs that meet their hypotheses.
use cfw.Prelude.{◌≡◌, ◌↔◌, ◌⊎◌, refl, some, none, arith, ◌^◌, ◌-◌}
use cfw.Prelude.Int.{pos, negsuc, ◌+ℤ◌, ◌-ℤ◌, ◌*ℤ◌, ◌≤ℤ◌}
use cfw.Time.{
  wrap_i64, from_nanos, from_millis, from_micros, i64_max, checked_add_duration,
  checked_duration_since, add_duration, sub_duration,
}
use cfw.Time.Laws.{
  checked_add_duration_lem, checked_duration_since-checked_add_duration, sub_duration-add_duration,
  from_millis_unit,
}

add_runs : add_duration (from_nanos (pos 1)) 2 ≡ from_nanos (pos 3)
unfolding add_duration ◌+ℤ◌ wrap_i64
add_runs = refl

sub_runs : sub_duration (from_nanos (pos 1)) 2 ≡ from_nanos (negsuc 0)
unfolding sub_duration ◌-ℤ◌ wrap_i64
sub_runs = refl

overflow_runs : checked_add_duration (from_nanos i64_max) 1 ≡ none
unfolding checked_add_duration ◌+ℤ◌
overflow_runs = refl

checked_add_duration_example :
    ((pos 5 +ℤ pos 7 ≤ℤ i64_max)
      × (checked_add_duration (from_nanos (pos 5)) 7 ≡ some (from_nanos (pos 5 +ℤ pos 7))))
    ⊎ (¬ (pos 5 +ℤ pos 7 ≤ℤ i64_max) × (checked_add_duration (from_nanos (pos 5)) 7 ≡ none))
checked_add_duration_example = checked_add_duration_lem (from_nanos (pos 5)) 7 (omega arith)

checked_duration_since_example :
    checked_duration_since (from_nanos (pos (2 ^ 63 - 1))) (from_nanos (negsuc 0)) ≡ none
unfolding checked_add_duration ◌+ℤ◌
checked_duration_since_example =
    checked_duration_since-checked_add_duration (from_nanos (negsuc 0))
      (from_nanos (pos (2 ^ 63 - 1))) (2 ^ 63) (omega arith) reaches
  where
    reaches :
        checked_add_duration (from_nanos (negsuc 0)) (2 ^ 63) ≡ some (from_nanos (pos (2 ^ 63 - 1)))
    reaches = refl

sub_duration_example :
    sub_duration (add_duration (from_nanos (pos 5)) (2 ^ 63)) (2 ^ 63) ≡ from_nanos (pos 5)
sub_duration_example = sub_duration-add_duration (from_nanos (pos 5)) (2 ^ 63) (omega arith)

from_millis_example :
    (from_millis (pos 3) ≡ from_nanos (pos 3 *ℤ pos 1000))
    × (from_micros (pos 3) ≡ from_nanos (pos 3 *ℤ pos 1_000_000))
    × ((from_millis (pos 3) ≡ from_nanos (pos 3 *ℤ pos 1_000_000)) ↔ (pos 3 ≡ pos 0))
    × ((from_micros (pos 3) ≡ from_nanos (pos 3 *ℤ pos 1000)) ↔ (pos 3 ≡ pos 0))
unfolding ◌*ℤ◌
from_millis_example = from_millis_unit (pos 3) (omega arith)
