-- ===== src/Scheduler/Weights.antt =====
-- The scheduler's accounting. A thread, a pool and a node each carry a weight for every question
-- that the invariant asks; the invariant says that the sums agree.
use cfw.Prelude.{
  ℕ, ◌+◌, ◌-◌, ◌≤◌, ◌<◌, ◌≡◌, Bool, Option, none, some, List, [], ◌∷◌, length, get_elem?, ◌==◌,
  if◌then◌else◌, total, ltb, All,
}
use cfw.Scheduler.{
  Phase, idle, queued, running, retriggered, waiting, readiness_changed, PoolState, NodeState,
  new_work, usize_mod,
}
use cfw.Scheduler.Threads.{Pc, System}

abbrev pub one_if : Bool → ℕ
one_if b = if b then 1 else 0

-- Phases with outstanding work, counted by `active`.
abbrev pub is_active : Phase → ℕ
is_active idle = 0
is_active waiting = 0
is_active _ = 1

abbrev pub is_queued : Phase → ℕ
is_queued queued = 1
is_queued _ = 0

-- Phases of a node that a worker has claimed.
abbrev pub is_claimed : Phase → ℕ
is_claimed running = 1
is_claimed retriggered = 1
is_claimed readiness_changed = 1
is_claimed _ = 0

abbrev pub node_active : NodeState → ℕ
node_active d = is_active d.phase

abbrev pub queued_at : Option NodeState → ℕ
queued_at none = 0
queued_at (some d) = is_queued d.phase

abbrev pub claimed_at : Option NodeState → ℕ
claimed_at none = 0
claimed_at (some d) = is_claimed d.phase

abbrev pub queued_in : ℕ → NodeState → ℕ
queued_in p d = if p == d.pool then is_queued d.phase else 0

abbrev pub in_pool : ℕ → NodeState → ℕ
in_pool p d = one_if (p == d.pool)

-- How often a node stands in a queue.
unfoldable pub occurrences : ℕ → List ℕ → ℕ
occurrences n [] = 0
occurrences n (m ∷ ms) = one_if (n == m) + occurrences n ms

abbrev pub waiting_in : ℕ → PoolState → ℕ
waiting_in n pool = occurrences n pool.work

-- A thread whose next move brings `active` down, or that has brought it up ahead of its exchange.
unfoldable pub holds_active : Pc → ℕ
unfolding new_work
holds_active (Pc.counted n t current) = one_if (new_work current t)
holds_active (Pc.uncounting n t actual) = 1
holds_active (Pc.completing n) = 1
holds_active (Pc.deactivating n) = 1
holds_active _ = 0

-- A thread that carries the queue entry of node `n`: about to send it, or having received it.
abbrev pub holds_entry : ℕ → Pc → ℕ
holds_entry n (Pc.enqueuing m) = one_if (n == m)
holds_entry n (Pc.received m) = one_if (n == m)
holds_entry n (Pc.accepted m) = one_if (n == m)
holds_entry n (Pc.abandoned m) = one_if (n == m)
holds_entry n _ = 0

-- The same, by the pool of the node.
abbrev pub holds_entry_in : (ℕ → ℕ) → ℕ → Pc → ℕ
holds_entry_in pool_of p (Pc.enqueuing m) = one_if (p == pool_of m)
holds_entry_in pool_of p (Pc.received m) = one_if (p == pool_of m)
holds_entry_in pool_of p (Pc.accepted m) = one_if (p == pool_of m)
holds_entry_in pool_of p (Pc.abandoned m) = one_if (p == pool_of m)
holds_entry_in pool_of p _ = 0

-- A thread that has claimed node `n` and not yet let go of it.
abbrev pub holds_claim : ℕ → Pc → ℕ
holds_claim n (Pc.executing m) = one_if (n == m)
holds_claim n (Pc.failed m) = one_if (n == m)
holds_claim n (Pc.finishing m e) = one_if (n == m)
holds_claim n (Pc.released m e current) = one_if (n == m)
holds_claim n _ = 0

abbrev pub beyond : ℕ → ℕ → ℕ
beyond limit n = if ltb n limit then 0 else 1

-- A thread about a node that is not in the graph, or one that would reach `unreachable!`.
abbrev pub astray : ℕ → Pc → ℕ
astray limit Pc.rest = 0
astray limit (Pc.entered n t) = beyond limit n
astray limit (Pc.checked n t) = beyond limit n
astray limit (Pc.examined n t current) = beyond limit n
astray limit (Pc.counted n t current) = beyond limit n
astray limit (Pc.uncounting n t actual) = beyond limit n
astray limit (Pc.enqueuing n) = beyond limit n
astray limit (Pc.received n) = beyond limit n
astray limit (Pc.accepted n) = beyond limit n
astray limit (Pc.abandoned n) = 0
astray limit (Pc.executing n) = beyond limit n
astray limit (Pc.failed n) = 0
astray limit (Pc.finishing n e) = beyond limit n
astray limit (Pc.released n e current) = beyond limit n + (1 - is_claimed current)
astray limit (Pc.completing n) = 0
astray limit (Pc.deactivating n) = 0

-- The entries of a pool's queue are nodes of that pool.
abbrev pub Placed : (ℕ → ℕ) → ℕ → ℕ → List ℕ → Type 0
Placed pool_of limit p = All (λ m. (pool_of m ≡ p) × (m < limit))

-- What holds of every reachable state. `pool_of` is the pool of each node, which never changes.
pub record Inv (pool_of : ℕ → ℕ) (y : System) : Type 0 where
  pub small : length y.scheduler.nodes + length y.threads < usize_mod
  pub active_eq :
      y.scheduler.active ≡ total node_active y.scheduler.nodes + total holds_active y.threads
  pub entries :
      (n : ℕ)
      → total (holds_entry n) y.threads + total (waiting_in n) y.scheduler.pools
        ≡ queued_at (get_elem? y.scheduler.nodes n)
  pub claims :
      (n : ℕ) → total (holds_claim n) y.threads ≡ claimed_at (get_elem? y.scheduler.nodes n)
  pub backlog :
      (p : ℕ) (pool : PoolState)
      → get_elem? y.scheduler.pools p ≡ some pool
      → length pool.work + total (holds_entry_in pool_of p) y.threads
        ≡ total (queued_in p) y.scheduler.nodes
  pub room :
      (p : ℕ) (pool : PoolState)
      → get_elem? y.scheduler.pools p ≡ some pool
      → total (in_pool p) y.scheduler.nodes ≤ pool.capacity
  pub placed :
      (p : ℕ) (pool : PoolState)
      → get_elem? y.scheduler.pools p ≡ some pool
      → Placed pool_of (length y.scheduler.nodes) p pool.work
  pub assigned :
      (n : ℕ) (d : NodeState)
      → get_elem? y.scheduler.nodes n ≡ some d
      → (d.pool ≡ pool_of n) × (pool_of n < length y.scheduler.pools)
  pub on_course : total (astray (length y.scheduler.nodes)) y.threads ≡ 0
