-- ===== src/Simulation/Step/Ends.antt =====
-- state.rs: what holds where a part of a step ends, with or without an error.
use cfw.Prelude.{◌≡◌, refl, sym, subst, Bool, true, false, if◌then◌else◌, some, arith}
use cfw.Prelude.Result.{Result, ok, err, ◌>>=◌}
use cfw.Time.{FrameworkTime, time_le}
use cfw.Simulation.{
  StepError, bad_config, callback_failed, timing, panicked, poisoned, action_failed, past_action,
  step_limit_exceeded, SimulationState,
}
use cfw.Simulation.Frame.{IsWellFormed, SameFrame, SameFrame-IsWellFormed}
use cfw.Simulation.Phases.{Step, and_then, check_with}

-- An error that is not a panic of the executor's own code.
abbrev pub IsNoPanic : StepError → Type 0
IsNoPanic bad_config = Unit {0}
IsNoPanic (callback_failed index failure) = Unit {0}
IsNoPanic (timing index e) = Unit {0}
IsNoPanic panicked = ⊥
IsNoPanic poisoned = Unit {0}
IsNoPanic (action_failed reason) = Unit {0}
IsNoPanic past_action = Unit {0}
IsNoPanic step_limit_exceeded = Unit {0}

abbrev pub IsFine {ℓ} : {R : Type ℓ} → Result StepError R → Type 0
IsFine (ok r) = Unit {0}
IsFine (err e) = IsNoPanic e

pub time_le_refl : (t : FrameworkTime) → time_le t t ≡ true
time_le_refl t = ground arith

pub time_le_trans :
    (a b c : FrameworkTime) → time_le a b ≡ true → time_le b c ≡ true → time_le a c ≡ true
time_le_trans a b c h k = ground arith

pub bind-IsFine :
    {Q R : Type 0} (m : Result StepError Q) (k : Q → Result StepError R)
    → IsFine m
    → ((q : Q) → IsFine (k q))
    → IsFine (m >>= k)
bind-IsFine (ok q) k f h = h q
bind-IsFine (err e) k f h = f

module _ {W A : Type 0} where
  pub record IsAfter (time : FrameworkTime) (s : SimulationState W A) : Type 0 where
    pub well_formed : IsWellFormed s
    pub not_before : time_le time s.time ≡ true

  -- A part of a step that began at `time` ends: the executor does not panic, the state is
  -- well-formed, and time did not go back.
  abbrev pub Ends : {R : Type 0} → FrameworkTime → Step (SimulationState W A) R → Type 0
  Ends {R = R} time m =
      (r : Result StepError R) × (s : SimulationState W A) × (m ≡ some (r, s))
      × IsFine r
      × IsAfter time s

  pub SameFrame-IsAfter :
      (time : FrameworkTime) (s s' : SimulationState W A)
      → SameFrame s s'
      → IsAfter time s
      → IsAfter time s'
  SameFrame-IsAfter time s s' f a = record {
    well_formed = SameFrame-IsWellFormed f a.well_formed;
    not_before = subst (λ t. time_le time t ≡ true) (sym f.same_time) a.not_before;
  }

  pub check_with-Ends :
      {Q R : Type 0} (time : FrameworkTime) (s : SimulationState W A) (c : Result StepError Q)
      (k : Q → Step (SimulationState W A) R)
      → IsAfter time s
      → IsFine c
      → ((q : Q) → c ≡ ok q → Ends time (k q))
      → Ends time (check_with s c k)
  check_with-Ends time s (ok q) k a fine h = h q refl
  check_with-Ends time s (err e) k a fine h = (err e, s, refl, fine, a)

  pub and_then-Ends :
      {Q R : Type 0} (time : FrameworkTime) (m : Step (SimulationState W A) Q)
      (k : Q → SimulationState W A → Step (SimulationState W A) R)
      → Ends time m
      → ((q : Q) (s : SimulationState W A)
          → m ≡ some (ok q, s)
          → IsAfter time s
          → Ends time (k q s))
      → Ends time (and_then m k)
  and_then-Ends time m k (ok q, s, e, fine, a) h = rw e (h q s e a)
  and_then-Ends time m k (err x, s, e, fine, a) h = (err x, s, rw e refl, fine, a)

  pub if-Ends :
      {R : Type 0} (time : FrameworkTime) (b : Bool) (m n : Step (SimulationState W A) R)
      → (b ≡ true → Ends time m)
      → (b ≡ false → Ends time n)
      → Ends time (if b then m else n)
  if-Ends time true m n h k = h refl
  if-Ends time false m n h k = k refl
