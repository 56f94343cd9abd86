-- ===== src/ReplayClock/Laws.antt =====
-- clock.rs: the time of a replay never falls back, and stands still while it is paused.
use cfw.Prelude.{
  ◌≡◌, refl, sym, subst, Bool, true, false, not, ◌||◌, inl, inr, List, [], ◌∷◌, if◌then◌else◌,
  arith, Bool-cases,
}
use cfw.Prelude.Result.{Result, ok, guard-ok}
use cfw.Schema.{same_time}
use cfw.Time.{FrameworkTime, time_le, invalid}
use cfw.ReplayClock.{
  ClockError, Speeds, max_time, State, new, scaled_time, sample, start, pause, resume, set_speed,
  Call, do_start, do_pause, do_resume, read_now, do_set_speed, readings,
}

-- Times that never fall, from a first one on.
abbrev pub Rising : FrameworkTime → List FrameworkTime → Type 0
Rising t [] = Unit {0}
Rising t (x ∷ xs) = (time_le t x ≡ true) × Rising x xs

le_trans : (a b c : FrameworkTime) → time_le a b ≡ true → time_le b c ≡ true → time_le a c ≡ true
le_trans a b c h k = ground (arith, h, k)

le_refl : (a : FrameworkTime) → time_le a a ≡ true
le_refl a = ground arith

le-max : (a b : FrameworkTime) → time_le a (max_time a b) ≡ true
le-max a b = ground arith

Rising-le :
    (a b : FrameworkTime) (l : List FrameworkTime) → time_le a b ≡ true → Rising b l → Rising a l
Rising-le a b [] h r = tt
Rising-le a b (x ∷ l) h r = (le_trans a b x h r.0, r.1)

pub pick_true : {A : Type 0} (b : Bool) (x y : A) → b ≡ true → (if b then x else y) ≡ x
pick_true b x y e = rw e refl

pub pick_false : {A : Type 0} (b : Bool) (x y : A) → b ≡ false → (if b then x else y) ≡ y
pick_false b x y e = rw e refl

ok_inj : {A : Type 0} {a b : A} → ◌≡◌ {A = Result ClockError A} (ok a) (ok b) → a ≡ b
ok_inj h = cc

module _ (speeds : Speeds) where
  open speeds use {Speed, is_finite_positive}

  abbrev is_still : State speeds → Bool
  is_still s = not s.started || s.paused

  -- A clock that stands still shows the last time that it gave.
  abbrev pub IsClock : State speeds → Type 0
  IsClock s = is_still s ≡ true → s.last ≡ s.anchor_log

  pub frozen_sample :
      (s : State speeds) (base : FrameworkTime)
      → is_still s ≡ true
      → sample speeds s base ≡ (s.anchor_log, s)
  unfolding sample
  frozen_sample s base e = pick_true _ _ _ e

  running_sample :
      (s : State speeds) (base : FrameworkTime)
      → is_still s ≡ false
      → sample speeds s base ≡ (
        max_time s.last (scaled_time speeds s base),
        record s { last = max_time s.last (scaled_time speeds s base) },
      )
  unfolding sample
  running_sample s base e = pick_false _ _ _ e

  -- A reading is the last time of the clock after it, and not earlier than the one before.
  abbrev IsSample : State speeds → FrameworkTime × State speeds → Type 0
  IsSample s (now, t) = (now ≡ t.last) × (time_le s.last t.last ≡ true) × IsClock t

  sample_lem :
      (s : State speeds) (base : FrameworkTime) → IsClock s → IsSample s (sample speeds s base)
  sample_lem s base i = elim (Bool-cases (is_still s)) [
    | inl still ↦
        subst (IsSample s) (sym (frozen_sample s base still)) (sym (i still), le_refl s.last, i)
    | inr runs ↦
        subst (IsSample s) (sym (running_sample s base runs))
          (refl, le-max s.last (scaled_time speeds s base), λ still. cc)
  ]

  -- A change of the clock that keeps its last time, or moves it on.
  abbrev Keeps : State speeds → State speeds → Type 0
  Keeps s t = (time_le s.last t.last ≡ true) × IsClock t

  start-Keeps :
      (s : State speeds) (base : FrameworkTime) → IsClock s → Keeps s (start speeds s base)
  unfolding start
  start-Keeps s base i = elim (Bool-cases s.started) [
    | inl on ↦ subst (Keeps s) (sym (pick_true _ _ _ on)) (le_refl s.last, i)
    | inr off ↦
        subst (Keeps s) (sym (pick_false _ _ _ off))
          (le_refl s.last, λ still. i (ground (arith, off)))
  ]

  pause-Keeps :
      (s : State speeds) (base : FrameworkTime) → IsClock s → Keeps s (pause speeds s base)
  unfolding pause
  pause-Keeps s base i = let (now, on, clock) = sample_lem s base i in (on, λ still. sym now)

  resume-Keeps :
      (s : State speeds) (base : FrameworkTime) → IsClock s → Keeps s (resume speeds s base)
  unfolding resume
  resume-Keeps s base i = elim (Bool-cases s.paused) [
    | inl p ↦
        subst (Keeps s) (sym (pick_true _ _ _ p)) (le_refl s.last, λ still. i (ground (arith, p)))
    | inr r ↦ subst (Keeps s) (sym (pick_false _ _ _ r)) (le_refl s.last, i)
  ]

  abbrev KeepsAfter : State speeds → Result ClockError (Unit {0}) × State speeds → Type 0
  KeepsAfter s (result, t) = Keeps s t

  set_speed-Keeps :
      (s : State speeds) (base : FrameworkTime) (speed : Speed)
      → IsClock s
      → Keeps s (set_speed speeds s base speed).1
  unfolding set_speed
  set_speed-Keeps s base speed i = elim (Bool-cases (is_finite_positive speed)) [
    | inl valid ↦
        let (now, on, clock) = sample_lem s base i in
        subst (KeepsAfter s) (sym (pick_true _ _ _ valid)) (on, λ still. sym now)
    | inr bad ↦ subst (KeepsAfter s) (sym (pick_false _ _ _ bad)) (le_refl s.last, i)
  ]

  readings-Rising :
      (s : State speeds) (calls : List (Call speeds × FrameworkTime))
      → IsClock s
      → Rising s.last (readings speeds s calls)
  unfolding readings
  readings-Rising s [] i = tt
  readings-Rising s ((do_start, base) ∷ calls) i =
      let (on, clock) = start-Keeps s base i in
      Rising-le s.last _ _ on (readings-Rising (start speeds s base) calls clock)
  readings-Rising s ((do_pause, base) ∷ calls) i =
      let (on, clock) = pause-Keeps s base i in
      Rising-le s.last _ _ on (readings-Rising (pause speeds s base) calls clock)
  readings-Rising s ((do_resume, base) ∷ calls) i =
      let (on, clock) = resume-Keeps s base i in
      Rising-le s.last _ _ on (readings-Rising (resume speeds s base) calls clock)
  readings-Rising s ((do_set_speed speed, base) ∷ calls) i =
      let (on, clock) = set_speed-Keeps s base speed i in
      Rising-le s.last _ _ on (readings-Rising (set_speed speeds s base speed).1 calls clock)
  readings-Rising s ((read_now, base) ∷ calls) i =
      let (now, on, clock) = sample_lem s base i in
      let rest = readings-Rising (sample speeds s base).1 calls clock in
      (
        subst (λ t. time_le s.last t ≡ true) (sym now) on,
        subst (λ t. Rising t (readings speeds (sample speeds s base).1 calls)) (sym now) rest,
      )

  new-IsClock :
      (base first : FrameworkTime) (speed : Speed) (paused : Bool) (s : State speeds)
      → new speeds base first speed paused ≡ ok s
      → IsClock s × (s.last ≡ first)
  unfolding new
  new-IsClock base first speed paused s h =
      let (_, h1) = guard-ok (is_finite_positive speed) _ _ h in
      let (_, h2) = guard-ok (not (same_time first invalid)) _ _ h1 in
      let (_, is) = guard-ok (not (same_time base invalid)) _ _ h2 in
      let fresh : State speeds = record {
        started = false;
        paused = paused;
        speed = speed;
        anchor_base = base;
        anchor_log = first;
        last = first;
      } in
      let same : fresh ≡ s = ok_inj is in
      subst (λ t. IsClock t × (t.last ≡ first)) same (λ _. refl, refl)

  -- A new clock never shows a time before its start, and the times that it shows never fall,
  -- whatever the calls of `start`, `pause`, `resume`, `set_speed` and `now`, their order, the speeds,
  -- and what the underlying clock says at each of them, also where that falls back.
  pub readings_rise :
      (base first : FrameworkTime) (speed : Speed) (paused : Bool) (s : State speeds)
      (calls : List (Call speeds × FrameworkTime))
      → new speeds base first speed paused ≡ ok s
      → Rising first (readings speeds s calls)
  readings_rise base first speed paused s calls h =
      let (clock, at) = new-IsClock base first speed paused s h in
      subst (λ t. Rising t (readings speeds s calls)) at (readings-Rising s calls clock)
