-- ===== src/Time.antt =====
-- task/src/time.rs: `FrameworkTime`, a signed 64-bit count of nanoseconds, and its arithmetic.
-- A `std::time::Duration` is its number of nanoseconds (`as_nanos`). Machine arithmetic wraps, as
-- it does in a release build; a debug build panics instead where the value leaves the word.
pub mod Laws
mod Tests
use cfw.Prelude.{
  ℕ, ◌+◌, ◌-◌, ◌*◌, ◌%◌, ◌^◌, ◌≤◌, ◌<◌, ◌≡◌, Bool, Option, none, some, ltb, leb, if◌then◌else◌, min,
  ◌==◌, ◌&&◌,
}
use cfw.Prelude.Int.{ℤ, pos, negsuc, ◌+ℤ◌, ◌-ℤ◌, ◌*ℤ◌, ◌≤ℤ◌, ltb_ℤ, leb_ℤ}

abbrev pub i64_max : ℤ
i64_max = pos (2 ^ 63 - 1)

abbrev pub i64_min : ℤ
i64_min = negsuc (2 ^ 63 - 1)

abbrev pub FitsI64 : ℤ → Type 0
FitsI64 z = (i64_min ≤ℤ z) × (z ≤ℤ i64_max)

-- The value of a 64-bit pattern read as signed.
abbrev signed : ℕ → ℤ
signed u = if ltb u (2 ^ 63) then pos u else negsuc (2 ^ 64 - 1 - u)

-- What an i64 operation leaves of the exact result.
unfoldable pub wrap_i64 : ℤ → ℤ
wrap_i64 (pos n) = signed (n % 2 ^ 64)
wrap_i64 (negsuc n) = signed (2 ^ 64 - 1 - n % 2 ^ 64)

-- `i64::try_from`.
unfoldable pub try_i64 : ℤ → Option ℤ
try_i64 z = if leb_ℤ i64_min z && leb_ℤ z i64_max then some z else none

pub record FrameworkTime : Type 0 where
  pub nanoseconds : ℤ

abbrev pub from_nanos : ℤ → FrameworkTime
from_nanos n = record { nanoseconds = n }

abbrev pub time_max : FrameworkTime
time_max = from_nanos i64_max

abbrev pub time_min : FrameworkTime
time_min = from_nanos (wrap_i64 (i64_min +ℤ pos 1))

abbrev pub invalid : FrameworkTime
invalid = from_nanos i64_min

unfoldable pub from_millis : ℤ → FrameworkTime
from_millis ms = from_nanos (wrap_i64 (ms *ℤ pos 1000))

unfoldable pub from_micros : ℤ → FrameworkTime
from_micros us = from_millis (wrap_i64 (us *ℤ pos 1000))

unfoldable pub from_secs : ℤ → FrameworkTime
from_secs s = from_micros (wrap_i64 (s *ℤ pos 1000))

abbrev pub to_nanoseconds : FrameworkTime → ℤ
to_nanoseconds t = t.nanoseconds

-- The derived order compares the nanoseconds.
abbrev pub time_le : FrameworkTime → FrameworkTime → Bool
time_le a b = leb_ℤ a.nanoseconds b.nanoseconds

abbrev pub time_lt : FrameworkTime → FrameworkTime → Bool
time_lt a b = ltb_ℤ a.nanoseconds b.nanoseconds

-- `i128::try_from(duration.as_nanos())` and the checked 128-bit sum.
unfoldable pub add_i128 : ℤ → ℕ → Option ℤ
add_i128 n d =
    if ltb d (2 ^ 127)
    then (let sum = n +ℤ pos d in if leb_ℤ sum (pos (2 ^ 127 - 1)) then some sum else none)
    else none

abbrev narrow : Option ℤ → Option FrameworkTime
unfolding try_i64
narrow none = none
narrow (some sum) = elim (try_i64 sum) [ none ↦ none | some n ↦ some (from_nanos n) ]

unfoldable pub checked_add_duration : FrameworkTime → ℕ → Option FrameworkTime
unfolding add_i128 try_i64
checked_add_duration t d = narrow (add_i128 t.nanoseconds d)

unfoldable pub checked_duration_since : FrameworkTime → FrameworkTime → Option ℕ
unfolding wrap_i64
checked_duration_since t earlier = elim (wrap_i64 (t.nanoseconds -ℤ earlier.nanoseconds)) [
  | pos n ↦ some n
  | negsuc n ↦ none
]

-- `Duration::as_nanos().min(MAX as u128)`.
abbrev clamped : ℕ → ℕ
clamped d = min d (2 ^ 63 - 1)

unfoldable pub add_duration : FrameworkTime → ℕ → FrameworkTime
add_duration t d = from_nanos (wrap_i64 (t.nanoseconds +ℤ pos (clamped d)))

unfoldable pub sub_duration : FrameworkTime → ℕ → FrameworkTime
sub_duration t d = from_nanos (wrap_i64 (t.nanoseconds -ℤ pos (clamped d)))
