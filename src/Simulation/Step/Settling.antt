-- ===== src/Simulation/Step/Settling.antt =====
-- state.rs: settling a batch occupies at most one thread of its pool for every callback executed.
use cfw.Prelude.{
  ℕ, zero, suc, ◌+◌, ◌≤◌, ◌<◌, ◌≡◌, refl, ap, sym, ◌∙◌, Option, none, some, List, [], ◌∷◌, length,
  get_elem?, arith, All,
}
use cfw.Time.{FrameworkTime}
use cfw.Simulation.{Node}
use cfw.Simulation.Frame.{Seat, seats, seats-update_at}
use cfw.Simulation.Refresh.{update_at}
use cfw.Simulation.Threads.{pool_of}
use cfw.Simulation.Threads.Laws.{busy_in}
use cfw.Simulation.Select.{chosen_in, is_pool}
use cfw.Simulation.Phases.{Timing, settle_node, settle_all, clear_ready, clear_all}

-- A busy callback more at most for every callback that is settled.
settle_one :
    (time : FrameworkTime) (pool : ℕ) (t : Timing) (index : ℕ) (nodes : List Node)
    → busy_in time pool (update_at (settle_node t) index nodes)
      ≤ busy_in time pool nodes + is_pool (pool_of nodes index) pool
settle_one time pool t index [] = ground arith
settle_one time pool t zero (node ∷ nodes) = ground arith
settle_one time pool t (suc index) (node ∷ nodes) =
    ground (arith, settle_one time pool t index nodes)

pool_of-settle :
    (t : Timing) (index i : ℕ) (nodes : List Node)
    → pool_of (update_at (settle_node t) index nodes) i ≡ pool_of nodes i
pool_of-settle t index i [] = refl
pool_of-settle t zero zero (node ∷ nodes) = refl
pool_of-settle t zero (suc i) (node ∷ nodes) = refl
pool_of-settle t (suc index) zero (node ∷ nodes) = refl
pool_of-settle t (suc index) (suc i) (node ∷ nodes) = pool_of-settle t index i nodes

chosen_in-settle :
    (t : Timing) (index pool : ℕ) (nodes : List Node) (chosen : List ℕ)
    → chosen_in (update_at (settle_node t) index nodes) pool chosen ≡ chosen_in nodes pool chosen
chosen_in-settle t index pool nodes [] = refl
chosen_in-settle t index pool nodes (i ∷ chosen) =
    rw (pool_of-settle t index i nodes, chosen_in-settle t index pool nodes chosen) refl

pub settle_all_busy :
    (time : FrameworkTime) (pool : ℕ) (executed : List ℕ) (timings : List Timing)
    (nodes : List Node)
    → busy_in time pool (settle_all executed timings nodes)
      ≤ busy_in time pool nodes + chosen_in nodes pool executed
unfolding settle_all
settle_all_busy time pool [] timings nodes = ground arith
settle_all_busy time pool (index ∷ executed) [] nodes = ground arith
settle_all_busy time pool (index ∷ executed) (t ∷ timings) nodes = ground (
  arith,
  settle_all_busy time pool executed timings (update_at (settle_node t) index nodes),
  settle_one time pool t index nodes,
  chosen_in-settle t index pool nodes executed,
)

pub settle_all_pools :
    (count : ℕ) (executed : List ℕ) (timings : List Timing) (nodes : List Node)
    → All (λ node. node.schedule.pool < count) nodes
    → All (λ node. node.schedule.pool < count) (settle_all executed timings nodes)
unfolding settle_all
settle_all_pools count [] timings nodes a = a
settle_all_pools count (index ∷ executed) [] nodes a = a
settle_all_pools count (index ∷ executed) (t ∷ timings) nodes a =
    settle_all_pools count executed timings (update_at (settle_node t) index nodes)
      (keep index nodes a)
  where
    keep :
        (index : ℕ) (nodes : List Node)
        → All (λ node. node.schedule.pool < count) nodes
        → All (λ node. node.schedule.pool < count) (update_at (settle_node t) index nodes)
    keep index [] a = a
    keep zero (node ∷ nodes) a = a
    keep (suc index) (node ∷ nodes) a = (a.0, keep index nodes a.1)

pub seats-clear_all :
    (selected : List ℕ) (nodes : List Node) → seats (clear_all selected nodes) ≡ seats nodes
seats-clear_all [] nodes = refl
seats-clear_all (index ∷ selected) nodes =
    seats-clear_all selected (update_at clear_ready index nodes)
    ∙ seats-update_at clear_ready index nodes (λ node. refl)

-- What depends on the seats alone.
length-seats : (nodes : List Node) → length nodes ≡ length (seats nodes)
length-seats [] = refl
length-seats (node ∷ nodes) = ground (arith, length-seats nodes)

pub length_same :
    (nodes nodes' : List Node) → seats nodes' ≡ seats nodes → length nodes' ≡ length nodes
length_same nodes nodes' e = length-seats nodes' ∙ ap length e ∙ sym (length-seats nodes)

abbrev pool_seat : Option Seat → Option ℕ
pool_seat none = none
pool_seat (some a) = some a.schedule.pool

pool_of-seats :
    (nodes : List Node) (i : ℕ) → pool_of nodes i ≡ pool_seat (get_elem? (seats nodes) i)
pool_of-seats [] i = refl
pool_of-seats (node ∷ nodes) zero = refl
pool_of-seats (node ∷ nodes) (suc i) = pool_of-seats nodes i

pub pool_of_same :
    (nodes nodes' : List Node) (i : ℕ)
    → seats nodes' ≡ seats nodes
    → pool_of nodes' i ≡ pool_of nodes i
pool_of_same nodes nodes' i e =
    pool_of-seats nodes' i ∙ ap (λ l. pool_seat (get_elem? l i)) e ∙ sym (pool_of-seats nodes i)

pub chosen_in_same :
    (nodes nodes' : List Node) (pool : ℕ) (chosen : List ℕ)
    → seats nodes' ≡ seats nodes
    → chosen_in nodes' pool chosen ≡ chosen_in nodes pool chosen
chosen_in_same nodes nodes' pool [] e = refl
chosen_in_same nodes nodes' pool (i ∷ chosen) e =
    rw (pool_of_same nodes nodes' i e, chosen_in_same nodes nodes' pool chosen e) refl
