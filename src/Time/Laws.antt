-- ===== src/Time/Laws.antt =====
-- FrameworkTime laws.
use cfw.Prelude.{ℕ, ◌^◌, ◌≡◌, ◌↔◌, ◌⊎◌, none, some, arith, if◌then◌else◌, ltb}
use cfw.Prelude.Int.{ℤ, pos, negsuc, ◌+ℤ◌, ◌-ℤ◌, ◌*ℤ◌, ◌≤ℤ◌}
use cfw.Time.{
  FrameworkTime, from_nanos, from_millis, from_micros, from_secs, FitsI64, i64_max, wrap_i64,
  checked_add_duration, checked_duration_since, add_duration, sub_duration,
}

pub wrap_i64-of_fits : (z : ℤ) → FitsI64 z → wrap_i64 z ≡ z
unfolding wrap_i64
wrap_i64-of_fits (pos n) h = ground arith
wrap_i64-of_fits (negsuc n) h = ground arith

pub wrap_i64-FitsI64 : (z : ℤ) → FitsI64 (wrap_i64 z)
unfolding wrap_i64
wrap_i64-FitsI64 (pos n) = ground arith
wrap_i64-FitsI64 (negsuc n) = ground arith

-- For a time that fits its word, the checked sum is the exact sum where that fits, and none else.
pub checked_add_duration_lem :
    (t : FrameworkTime) (d : ℕ)
    → FitsI64 t.nanoseconds
    → ((t.nanoseconds +ℤ pos d ≤ℤ i64_max)
        × (checked_add_duration t d ≡ some (from_nanos (t.nanoseconds +ℤ pos d))))
      ⊎ (¬ (t.nanoseconds +ℤ pos d ≤ℤ i64_max) × (checked_add_duration t d ≡ none))
unfolding checked_add_duration ◌+ℤ◌
checked_add_duration_lem t d h = ground arith

-- Elapsed time undoes a checked addition, except where the difference of the two times leaves the
-- signed word: there it wraps to a negative number and is reported as no duration.
pub checked_duration_since-checked_add_duration :
    (t r : FrameworkTime) (d : ℕ)
    → FitsI64 t.nanoseconds
    → checked_add_duration t d ≡ some r
    → checked_duration_since r t ≡ (if ltb d (2 ^ 63) then some d else none)
unfolding checked_duration_since checked_add_duration ◌+ℤ◌ ◌-ℤ◌
checked_duration_since-checked_add_duration t r d h e = ground arith

-- Subtracting a duration undoes adding it, also where the sum wraps.
pub sub_duration-add_duration :
    (t : FrameworkTime) (d : ℕ) → FitsI64 t.nanoseconds → sub_duration (add_duration t d) d ≡ t
unfolding add_duration sub_duration wrap_i64 ◌+ℤ◌ ◌-ℤ◌
sub_duration-add_duration t d h = ground arith

-- Where a count of seconds fits its word as nanoseconds, `from_secs`, which goes through the two
-- coarser constructors, is that count of nanoseconds exactly.
from_secs_exact :
    (s : ℤ) → FitsI64 (s *ℤ pos 1_000_000_000) → from_secs s ≡ from_nanos (s *ℤ pos 1_000_000_000)
unfolding from_secs from_micros from_millis wrap_i64 ◌*ℤ◌
from_secs_exact (pos s) h = ground arith
from_secs_exact (negsuc s) h = ground arith

pub from_millis_exact :
    (ms : ℤ) → FitsI64 (ms *ℤ pos 1000) → from_millis ms ≡ from_nanos (ms *ℤ pos 1000)
unfolding from_millis wrap_i64 ◌*ℤ◌
from_millis_exact (pos s) h = ground arith
from_millis_exact (negsuc s) h = ground arith

-- Where the number of nanoseconds of n milliseconds fits its word, `from_millis n` is exactly 1000 n
-- nanoseconds and `from_micros n` exactly 1000000 n: the two units are exchanged, and each
-- constructor gives the unit of its name at 0 only.
pub from_millis_unit :
    (n : ℤ)
    → FitsI64 (n *ℤ pos 1_000_000)
    → (from_millis n ≡ from_nanos (n *ℤ pos 1000))
      × (from_micros n ≡ from_nanos (n *ℤ pos 1_000_000))
      × ((from_millis n ≡ from_nanos (n *ℤ pos 1_000_000)) ↔ (n ≡ pos 0))
      × ((from_micros n ≡ from_nanos (n *ℤ pos 1000)) ↔ (n ≡ pos 0))
unfolding from_millis from_micros wrap_i64 ◌*ℤ◌
from_millis_unit (pos s) h = ground arith
from_millis_unit (negsuc s) h = ground arith
