-- ===== src/ReplayClock.antt =====
-- live_replay_executor/src/clock.rs: the clock of a replay, which maps the time of an underlying
-- clock to the time of a log, can be paused, and runs at a speed. A speed is a number of Rust's
-- floating type: `Speeds` holds its test and the scaled difference of two times, rounded to an
-- integer. The lock makes each operation one step; `base` is what the underlying clock says.
pub mod Laws
pub mod Paused
mod Tests
use cfw.Prelude.{ℕ, ◌^◌, ◌-◌, Bool, true, false, not, ◌||◌, List, [], ◌∷◌, if◌then◌else◌}
use cfw.Prelude.Int.{ℤ, pos, negsuc, pos_part, ◌+ℤ◌, ◌-ℤ◌, leb_ℤ}
use cfw.Prelude.Result.{Result, ok, err, ◌>>=◌, ◌>>◌, guard}
use cfw.Schema.{same_time}
use cfw.Time.{FrameworkTime, from_nanos, i64_max, i64_min, invalid, time_le}

pub record Speeds : Type 1 where
  pub Speed : Type 0
  pub is_finite_positive : Speed → Bool
  pub scale : ℕ → Speed → ℤ

pub data ClockError : Type 0 where
  invalid_speed invalid_start invalid_clock : ClockError

abbrev max_ℤ : ℤ → ℤ → ℤ
max_ℤ a b = if leb_ℤ a b then b else a

abbrev min_ℤ : ℤ → ℤ → ℤ
min_ℤ a b = if leb_ℤ a b then a else b

abbrev i128_max : ℤ
i128_max = pos (2 ^ 127 - 1)

abbrev i128_min : ℤ
i128_min = negsuc (2 ^ 127 - 1)

-- `saturating_add` of i128.
unfoldable pub saturating_add : ℤ → ℤ → ℤ
saturating_add a b = max_ℤ i128_min (min_ℤ i128_max (a +ℤ b))

-- `clamp(i128::from(i64::MIN) + 1, i128::from(i64::MAX))`.
unfoldable pub clamp : ℤ → ℤ
clamp a = max_ℤ (negsuc (2 ^ 63 - 2)) (min_ℤ i64_max a)

abbrev pub max_time : FrameworkTime → FrameworkTime → FrameworkTime
max_time a b = if time_le a b then b else a

module _ (speeds : Speeds) where
  open speeds use {Speed, is_finite_positive, scale}

  pub record State : Type 0 where
    pub started : Bool
    pub paused : Bool
    pub speed : Speed
    pub anchor_base : FrameworkTime
    pub anchor_log : FrameworkTime
    pub last : FrameworkTime

  unfoldable pub new : FrameworkTime → FrameworkTime → Speed → Bool → Result ClockError State
  new base first speed paused = do
    guard (is_finite_positive speed) invalid_speed
    guard (not (same_time first invalid)) invalid_start
    guard (not (same_time base invalid)) invalid_clock
    ok (record {
      started = false;
      paused = paused;
      speed = speed;
      anchor_base = base;
      anchor_log = first;
      last = first;
    })

  -- The time of the log at a running clock, before it is kept from falling back.
  unfoldable pub scaled_time : State → FrameworkTime → FrameworkTime
  unfolding clamp saturating_add
  scaled_time s base =
      let delta = pos_part (base.nanoseconds -ℤ s.anchor_base.nanoseconds) in
      from_nanos (clamp (saturating_add s.anchor_log.nanoseconds (scale delta s.speed)))

  unfoldable pub sample : State → FrameworkTime → FrameworkTime × State
  unfolding scaled_time
  sample s base =
      if not s.started || s.paused
      then (s.anchor_log, s)
      else let last = max_time s.last (scaled_time s base) in (last, record s { last = last })

  unfoldable pub start : State → FrameworkTime → State
  start s base = if s.started then s else record s { anchor_base = base; started = true }

  unfoldable pub pause : State → FrameworkTime → State
  unfolding sample
  pause s base =
      let (now, t) = sample s base in
      record t { anchor_log = now; anchor_base = base; paused = true }

  unfoldable pub resume : State → FrameworkTime → State
  resume s base = if s.paused then record s { anchor_base = base; paused = false } else s

  unfoldable pub set_speed : State → FrameworkTime → Speed → Result ClockError (Unit {0}) × State
  unfolding sample
  set_speed s base speed =
      if is_finite_positive speed
      then (let (now, t) = sample s base in
          (ok tt, record t { anchor_log = now; anchor_base = base; speed = speed }))
      else (err invalid_speed, s)

  -- The calls that the controllers and readers of a clock make.
  pub data Call : Type 0 where
    do_start do_pause do_resume read_now : Call
    do_set_speed : Speed → Call

  -- The times that `now` gives, along calls with what the underlying clock says at each.
  unfoldable pub readings : State → List (Call × FrameworkTime) → List FrameworkTime
  unfolding start pause resume set_speed sample
  readings s [] = []
  readings s ((do_start, base) ∷ calls) = readings (start s base) calls
  readings s ((do_pause, base) ∷ calls) = readings (pause s base) calls
  readings s ((do_resume, base) ∷ calls) = readings (resume s base) calls
  readings s ((do_set_speed speed, base) ∷ calls) = readings (set_speed s base speed).1 calls
  readings s ((read_now, base) ∷ calls) = let (now, t) = sample s base in now ∷ readings t calls
