-- ===== src/ReplayClock/Tests.antt =====
-- clock.rs: runs of the model, and the theorems at inputs that meet their hypotheses.
use cfw.Prelude.{ℕ, ◌*◌, ◌≡◌, refl, false, List, [], ◌∷◌, All, ltb}
use cfw.Prelude.Int.{pos, ◌+ℤ◌, ◌-ℤ◌}
use cfw.Prelude.Result.{ok}
use cfw.Time.{FrameworkTime, from_nanos}
use cfw.ReplayClock.{
  Speeds, State, new, sample, pause, Call, do_start, do_pause, do_resume, read_now, do_set_speed,
  readings,
}
use cfw.ReplayClock.Laws.{Rising, readings_rise}
use cfw.ReplayClock.Paused.{pause_freezes}

-- Whole speeds.
abbrev whole : Speeds
whole = record { Speed = ℕ; is_finite_positive = λ n. ltb 0 n; scale = λ d n. pos (d * n) }

abbrev at : ℕ → FrameworkTime
at n = from_nanos (pos n)

abbrev fresh : State whole
fresh = record {
  started = false;
  paused = false;
  speed = 2;
  anchor_base = at 10;
  anchor_log = at 100;
  last = at 100;
}

-- Twice the speed; a pause of 10; and an underlying clock that falls back.
abbrev calls : List (Call whole × FrameworkTime)
calls =
    (do_start, at 10)
    ∷ (read_now, at 15)
    ∷ (do_pause, at 20)
    ∷ (read_now, at 25)
    ∷ (do_resume, at 30)
    ∷ (do_set_speed 3, at 31)
    ∷ (read_now, at 32)
    ∷ (read_now, at 3)
    ∷ []

readings_run : readings whole fresh calls ≡ at 110 ∷ at 120 ∷ at 125 ∷ at 125 ∷ []
unfolding readings ◌+ℤ◌ ◌-ℤ◌
readings_run = refl

made : new whole (at 10) (at 100) 2 false ≡ ok fresh
unfolding new
made = refl

readings_rise_example : Rising (at 100) (readings whole fresh calls)
readings_rise_example = readings_rise whole (at 10) (at 100) 2 false fresh calls made

abbrev held : List (Call whole × FrameworkTime)
held = (read_now, at 21) ∷ (do_set_speed 5, at 22) ∷ (do_start, at 23) ∷ (read_now, at 24) ∷ []

pause_freezes_example :
    All (λ t. t ≡ (sample whole fresh (at 20)).0) (readings whole (pause whole fresh (at 20)) held)
pause_freezes_example = pause_freezes whole fresh (at 20) held (tt, (tt, (tt, (tt, tt))))
