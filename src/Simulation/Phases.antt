-- ===== src/Simulation/Phases.antt =====
-- state.rs, `step_inner`: what its phases compute from the callbacks: the timing of a batch, what is
-- runnable, and the next event.
use cfw.Prelude.{
  ℕ, ◌==◌, Bool, true, false, not, ◌||◌, Option, none, some, List, [], ◌∷◌, get_elem?,
  if◌then◌else◌,
}
use cfw.Prelude.Result.{Result, ok, err, ◌>>=◌}
use cfw.Time.{FrameworkTime, time_le, time_lt, checked_add_duration}
use cfw.Schedule.{TimingError, overflow, duration, next_after}
use cfw.Simulation.{StepError, timing, panicked, Node, Entry}
use cfw.Simulation.Refresh.{update_at}

-- The states of a step: an error ends it, and keeps the state that it reached.
abbrev pub Step : Type 0 → Type 0 → Type 0
Step S R = Option (Result StepError R × S)

abbrev pub and_then : {S Q R : Type 0} → Step S Q → (Q → S → Step S R) → Step S R
and_then none k = none
and_then (some (err e, s)) k = some (err e, s)
and_then (some (ok q, s)) k = k q s

-- A part of a step that can fail and leaves the state.
abbrev pub check_with : {S Q R : Type 0} → S → Result StepError Q → (Q → Step S R) → Step S R
check_with s (err e) k = some (err e, s)
check_with s (ok q) k = k q

abbrev pub clear_ready : Node → Node
clear_ready node = record node { ready_since = none }

abbrev pub clear_all : List ℕ → List Node → List Node
clear_all [] nodes = nodes
clear_all (index ∷ selected) nodes = clear_all selected (update_at clear_ready index nodes)

-- When an executed callback is free again, and its next deadline.
pub record Timing : Type 0 where
  pub finish : FrameworkTime
  pub next : Option FrameworkTime

abbrev pub named {ℓ} : {R : Type ℓ} → ℕ → Result TimingError R → Result StepError R
named index (err e) = err (timing index e)
named index (ok r) = ok r

abbrev pub finish_at : Option FrameworkTime → Result TimingError FrameworkTime
finish_at none = err overflow
finish_at (some finish) = ok finish

abbrev pub timing_of_node : Bool → FrameworkTime → ℕ → Option Node → Result StepError Timing
timing_of_node timers time index none = err panicked
timing_of_node timers time index (some node) = do
  length_of_run ← named index (duration node.schedule)
  finish ← named index (finish_at (checked_add_duration time length_of_run))
  next ← if timers then named index (next_after node.schedule finish) else ok none
  ok (record { finish = finish; next = next })

unfoldable pub batch_timing :
    Bool → FrameworkTime → List Node → List ℕ → Result StepError (List Timing)
batch_timing timers time nodes [] = ok []
batch_timing timers time nodes (index ∷ executed) = do
  first ← timing_of_node timers time index (get_elem? nodes index)
  rest ← batch_timing timers time nodes executed
  ok (first ∷ rest)

abbrev pub settle_node : Timing → Node → Node
settle_node t node = record node {
  requested = false;
  input_requested = false;
  busy_until = t.finish;
  next = t.next;
}

unfoldable pub settle_all : List ℕ → List Timing → List Node → List Node
settle_all [] timings nodes = nodes
settle_all (index ∷ executed) [] nodes = nodes
settle_all (index ∷ executed) (t ∷ timings) nodes =
    settle_all executed timings (update_at (settle_node t) index nodes)

-- Whether a ready callback's pool has a thread; an error where the index is out of range.
abbrev pub is_ready : Option FrameworkTime → Bool
is_ready none = false
is_ready (some since) = true

abbrev pub positive : Option ℕ → Result StepError Bool
positive none = err panicked
positive (some n) = ok (not (n == 0))

abbrev pub is_runnable : Node → List ℕ → Result StepError Bool
is_runnable node free =
    if is_ready node.ready_since then positive (get_elem? free node.schedule.pool) else ok false

unfoldable pub any_runnable : List Node → List ℕ → Result StepError Bool
any_runnable [] free = ok false
any_runnable (node ∷ nodes) free =
    let rest = any_runnable nodes free in
    is_runnable node free >>= λ here. if here then ok true else rest

-- The earliest of the times after the present.
abbrev pub later_min : FrameworkTime → FrameworkTime → Option FrameworkTime → Option FrameworkTime
later_min time t none = if time_lt time t then some t else none
later_min time t (some best) =
    if time_lt time t then some (if time_le t best then t else best) else some best

abbrev pub later_min_of :
    FrameworkTime → Option FrameworkTime → Option FrameworkTime → Option FrameworkTime
later_min_of time none best = best
later_min_of time (some t) best = later_min time t best

abbrev pub first_at : {A : Type 0} → List (Entry A) → Option FrameworkTime
first_at [] = none
first_at (entry ∷ actions) = some entry.at

unfoldable pub next_event : FrameworkTime → List Node → Option FrameworkTime → Option FrameworkTime
next_event time [] action_time = later_min_of time action_time none
next_event time (node ∷ nodes) action_time =
    later_min time node.busy_until (later_min_of time node.next (next_event time nodes action_time))

abbrev pub is_future : FrameworkTime → Option FrameworkTime → Bool
is_future time none = false
is_future time (some next) = time_lt time next

unfoldable pub any_future : FrameworkTime → List Node → Bool
any_future time [] = false
any_future time (node ∷ nodes) =
    (time_lt time node.busy_until || is_future time node.next) || any_future time nodes
