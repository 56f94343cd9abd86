-- ===== src/ReplayClock/Paused.antt =====
-- clock.rs: a paused clock stands still.
use cfw.Prelude.{◌≡◌, refl, sym, subst, true, inl, inr, List, [], ◌∷◌, All, arith, Bool-cases}
use cfw.Prelude.Result.{Result}
use cfw.Time.{FrameworkTime}
use cfw.ReplayClock.{
  ClockError, Speeds, State, sample, start, pause, set_speed, Call, do_start, do_pause, do_resume,
  read_now, do_set_speed, readings,
}
use cfw.ReplayClock.Laws.{pick_true, pick_false, frozen_sample}

module _ (speeds : Speeds) where
  open speeds use {Speed, is_finite_positive}

  abbrev pub KeepsPaused : Call speeds → Type 0
  KeepsPaused do_start = Unit
  KeepsPaused do_pause = Unit
  KeepsPaused do_resume = ⊥
  KeepsPaused read_now = Unit
  KeepsPaused (do_set_speed speed) = Unit

  -- A paused clock shows the time of its anchor.
  abbrev IsPausedAt : FrameworkTime → State speeds → Type 0
  IsPausedAt time s = (s.paused ≡ true) × (s.anchor_log ≡ time)

  abbrev SampledAt : FrameworkTime → FrameworkTime × State speeds → Type 0
  SampledAt time (now, t) = (now ≡ time) × IsPausedAt time t

  paused_sample :
      (time base : FrameworkTime) (s : State speeds)
      → IsPausedAt time s
      → SampledAt time (sample speeds s base)
  paused_sample time base s (p, a) =
      subst (SampledAt time) (sym (frozen_sample speeds s base (ground (arith, p)))) (a, (p, a))

  paused_start :
      (time base : FrameworkTime) (s : State speeds)
      → IsPausedAt time s
      → IsPausedAt time (start speeds s base)
  unfolding start
  paused_start time base s h = elim (Bool-cases s.started) [
    | inl on ↦ subst (IsPausedAt time) (sym (pick_true _ _ _ on)) h
    | inr off ↦ subst (IsPausedAt time) (sym (pick_false _ _ _ off)) h
  ]

  abbrev IsPausedAfter : FrameworkTime → Result ClockError (Unit {0}) × State speeds → Type 0
  IsPausedAfter time (result, t) = IsPausedAt time t

  paused_set_speed :
      (time base : FrameworkTime) (speed : Speed) (s : State speeds)
      → IsPausedAt time s
      → IsPausedAt time (set_speed speeds s base speed).1
  unfolding set_speed
  paused_set_speed time base speed s h = elim (Bool-cases (is_finite_positive speed)) [
    | inl valid ↦
        let (now, paused) = paused_sample time base s h in
        subst (IsPausedAfter time) (sym (pick_true _ _ _ valid)) (paused.0, now)
    | inr bad ↦ subst (IsPausedAfter time) (sym (pick_false _ _ _ bad)) h
  ]

  paused_readings :
      (time : FrameworkTime) (s : State speeds) (calls : List (Call speeds × FrameworkTime))
      → IsPausedAt time s
      → All (λ c. KeepsPaused c.0) calls
      → All (λ t. t ≡ time) (readings speeds s calls)
  unfolding readings pause
  paused_readings time s [] h k = tt
  paused_readings time s ((do_start, base) ∷ calls) h k =
      paused_readings time (start speeds s base) calls (paused_start time base s h) k.1
  paused_readings time s ((do_pause, base) ∷ calls) h k =
      let (now, _) = paused_sample time base s h in
      paused_readings time (pause speeds s base) calls (refl, now) k.1
  paused_readings time s ((do_resume, base) ∷ calls) h k = elim (k.0) [ ]
  paused_readings time s ((do_set_speed speed, base) ∷ calls) h k =
      paused_readings time (set_speed speeds s base speed).1 calls
        (paused_set_speed time base speed s h) k.1
  paused_readings time s ((read_now, base) ∷ calls) h k =
      let (now, paused) = paused_sample time base s h in
      (now, paused_readings time (sample speeds s base).1 calls paused k.1)

  -- From a pause on, every time that the clock shows is the one at the pause, along any calls other
  -- than `resume`, changes of speed included, until it is resumed.
  pub pause_freezes :
      (s : State speeds) (base : FrameworkTime) (calls : List (Call speeds × FrameworkTime))
      → All (λ c. KeepsPaused c.0) calls
      → All (λ t. t ≡ (sample speeds s base).0) (readings speeds (pause speeds s base) calls)
  unfolding pause
  pause_freezes s base calls k =
      paused_readings (sample speeds s base).0 (pause speeds s base) calls (refl, refl) k
