-- ===== src/Simulation/Refresh.antt =====
-- state.rs: notifications, and `refresh`, which finds out which callbacks are ready.
use cfw.Prelude.{
  ℕ, zero, suc, ◌+◌, ◌/◌, ◌%◌, ◌==◌, Bool, false, ◌&&◌, ◌||◌, Option, none, some, List, [], ◌∷◌,
  if◌then◌else◌,
}
use cfw.Time.{FrameworkTime, time_le}
use cfw.Simulation.{Node, Wakeup, wake, readiness_changed, SimulationState, Environment}

-- The bits TRIGGER = 1 and READINESS = 2 of a notification byte.
abbrev pub has_trigger : ℕ → Bool
has_trigger n = n % 2 == 1

abbrev pub has_readiness : ℕ → Bool
has_readiness n = n / 2 % 2 == 1

abbrev pub notify_node : Wakeup → Node → Node
notify_node (wake index) node =
    if has_trigger node.notification
    then node
    else record node { notification = node.notification + 1 }
notify_node (readiness_changed index) node =
    if has_readiness node.notification
    then node
    else record node { notification = node.notification + 2 }

abbrev pub update_at : (Node → Node) → ℕ → List Node → List Node
update_at f index [] = []
update_at f zero (node ∷ nodes) = f node ∷ nodes
update_at f (suc index) (node ∷ nodes) = node ∷ update_at f index nodes

abbrev pub target : Wakeup → ℕ
target (wake index) = index
target (readiness_changed index) = index

unfoldable pub deliver : List Wakeup → List Node → List Node
deliver [] nodes = nodes
deliver (w ∷ wakeups) nodes = deliver wakeups (update_at (notify_node w) (target w) nodes)

abbrev pub due_by : FrameworkTime → Option FrameworkTime → Bool
due_by time none = false
due_by time (some next) = time_le next time

-- `get_or_insert`.
abbrev pub or_since : FrameworkTime → Option FrameworkTime → Option FrameworkTime
or_since time none = some time
or_since time (some since) = some since

-- The body of the loop of `refresh`, for one callback: `swap` takes its notification.
unfoldable pub refresh_node : Bool → FrameworkTime → Bool → Node → Node
refresh_node timers time available node =
    let triggered = has_trigger node.notification in
    let input_requested = node.input_requested || triggered in
    let next = if timers then node.next else none in
    let kept = if timers then node.requested else input_requested in
    let requested = kept || (triggered || due_by time next) in
    let ready = requested && (time_le node.busy_until time && available) in
    record node {
      notification = 0;
      input_requested = input_requested;
      next = next;
      requested = requested;
      ready_since = if ready then or_since time node.ready_since else none;
    }

module _ {W A Job Done : Type 0} (env : Environment W A Job Done) where
  unfoldable pub refresh_from : Bool → FrameworkTime → W → ℕ → List Node → List Node
  unfolding refresh_node
  refresh_from timers time world index [] = []
  refresh_from timers time world index (node ∷ nodes) =
      refresh_node timers time (env.required_inputs_available index world) node
      ∷ refresh_from timers time world (index + 1) nodes

  unfoldable pub refresh : SimulationState W A → SimulationState W A
  unfolding refresh_from
  refresh s = record s { nodes = refresh_from s.timers s.time s.world 0 s.nodes }
