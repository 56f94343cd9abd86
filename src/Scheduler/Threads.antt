-- ===== src/Scheduler/Threads.antt =====
-- live_executor/src/pool_state.rs and pool_worker.rs as threads: `notify`, `finish` and the worker
-- loop, cut at each access of a shared atomic or channel. An event says which thread moves and
-- what its environment chooses, so a list of events is an interleaving. The atomics are read as
-- sequentially consistent. A notification sent by a callback that is running stands in a thread of
-- its own: it shares no local state with the worker.
use cfw.Prelude.{
  ℕ, Bool, true, Option, none, some, List, [], ◌∷◌, ◌++◌, length, get_elem?, set, ltb,
  if◌then◌else◌,
}
use cfw.Scheduler.{
  Phase, queued, running, phase_eq, PoolState, NodeState, Scheduler, wrapping_inc, wrapping_dec,
  next_notify, new_work, next_finish, set_phase,
}

pub data Pc : Type 0 where
  rest : Pc
  -- in `notify`
  entered : ℕ → Bool → Pc
  checked : ℕ → Bool → Pc
  examined : ℕ → Bool → Phase → Pc
  counted : ℕ → Bool → Phase → Pc
  uncounting : ℕ → Bool → Phase → Pc
  -- in `enqueue`
  enqueuing : ℕ → Pc
  -- in `work`
  received : ℕ → Pc
  accepted : ℕ → Pc
  abandoned : ℕ → Pc
  executing : ℕ → Pc
  failed : ℕ → Pc
  -- in `finish`
  finishing : ℕ → Bool → Pc
  released : ℕ → Bool → Phase → Pc
  completing : ℕ → Pc
  deactivating : ℕ → Pc

pub data Event : Type 0 where
  call : ℕ → Bool → Event
  stop : Event
  receive : ℕ → Event
  proceed : Event
  spurious : Event
  ran : Bool → Event
  fail : Event

pub data Outcome : Type 0 where
  moved : Pc → Scheduler → Outcome
  blocked : Outcome
  panicked : Outcome

-- The failed `compare_exchange_weak` of `notify`.
unfoldable pub retry : ℕ → Bool → Phase → Phase → Scheduler → Outcome
unfolding new_work
retry n t current actual s =
    if new_work current t then moved (uncounting n t actual) s else moved (examined n t actual) s

unfoldable pub exchange : ℕ → Bool → Phase → Scheduler → Option NodeState → Outcome
unfolding phase_eq new_work next_notify retry
exchange n t current s none = panicked
exchange n t current s (some node) =
    if phase_eq node.phase current
    then moved (if new_work current t then enqueuing n else rest)
        (set_phase s n node (next_notify current t))
    else retry n t current node.phase s

-- `try_send(node).expect(..)` on the node's pool.
unfoldable pub send : ℕ → ℕ → Scheduler → Option PoolState → Outcome
send n p s none = panicked
send n p s (some pool) =
    if ltb (length pool.work) pool.capacity
    then moved rest
        (record s { pools = set s.pools p (record pool { work = pool.work ++ n ∷ [] }) })
    else panicked

unfoldable pub enqueue : ℕ → Scheduler → Option NodeState → Outcome
unfolding send
enqueue n s none = panicked
enqueue n s (some node) = send n node.pool s (get_elem? s.pools node.pool)

unfoldable pub take_work : ℕ → List ℕ → Scheduler → PoolState → Outcome
take_work p [] s pool = blocked
take_work p (n ∷ rest_work) s pool =
    moved (received n) (record s { pools = set s.pools p (record pool { work = rest_work }) })

unfoldable pub receive_from : ℕ → Scheduler → Option PoolState → Outcome
unfolding take_work
receive_from p s none = blocked
receive_from p s (some pool) = take_work p pool.work s pool

unfoldable pub claim : ℕ → Scheduler → Option NodeState → Outcome
unfolding phase_eq
claim n s none = panicked
claim n s (some node) =
    if phase_eq node.phase queued
    then moved (executing n) (set_phase s n node running)
    else panicked

unfoldable pub load_notify : ℕ → Bool → Scheduler → Option NodeState → Outcome
load_notify n t s none = panicked
load_notify n t s (some node) = moved (examined n t node.phase) s

unfoldable pub load_finish : ℕ → Bool → Scheduler → Option NodeState → Outcome
load_finish n e s none = panicked
load_finish n e s (some node) = moved (released n e node.phase) s

unfoldable pub retry_notify : ℕ → Bool → Phase → Scheduler → Option NodeState → Outcome
unfolding retry
retry_notify n t current s none = panicked
retry_notify n t current s (some node) = retry n t current node.phase s

unfoldable pub release : ℕ → Bool → Phase → Scheduler → Option Phase → Option NodeState → Outcome
unfolding phase_eq
release n e current s none _ = panicked
release n e current s (some next) none = panicked
release n e current s (some next) (some node) =
    if phase_eq node.phase current
    then moved (if phase_eq next queued then enqueuing n else completing n)
        (set_phase s n node next)
    else moved (released n e node.phase) s

-- The next access of a thread, where its environment has no choice.
unfoldable pub continue : Pc → Scheduler → Outcome
unfolding load_notify new_work exchange enqueue claim load_finish next_finish release
continue (entered n t) s = if s.stopped then moved rest s else moved (checked n t) s
continue (checked n t) s = load_notify n t s (get_elem? s.nodes n)
continue (examined n t current) s =
    if new_work current t
    then moved (counted n t current) (record s { active = wrapping_inc s.active })
    else moved (counted n t current) s
continue (counted n t current) s = exchange n t current s (get_elem? s.nodes n)
continue (uncounting n t actual) s =
    moved (examined n t actual) (record s { active = wrapping_dec s.active })
continue (enqueuing n) s = enqueue n s (get_elem? s.nodes n)
continue (received n) s = if s.stopped then moved (abandoned n) s else moved (accepted n) s
continue (accepted n) s = claim n s (get_elem? s.nodes n)
continue (finishing n e) s = load_finish n e s (get_elem? s.nodes n)
continue (released n e current) s =
    release n e current s (next_finish current e) (get_elem? s.nodes n)
continue (completing n) s =
    moved (deactivating n) (record s { completed = wrapping_inc s.completed })
continue (deactivating n) s = moved rest (record s { active = wrapping_dec s.active })
continue _ s = blocked

-- A weak exchange may fail without a reason.
unfoldable pub fail_exchange : Pc → Scheduler → Outcome
unfolding retry_notify load_finish
fail_exchange (counted n t current) s = retry_notify n t current s (get_elem? s.nodes n)
fail_exchange (released n e current) s = load_finish n e s (get_elem? s.nodes n)
fail_exchange _ s = blocked

unfoldable pub begin : Event → Scheduler → Outcome
unfolding receive_from
begin (call n t) s = if ltb n (length s.nodes) then moved (entered n t) s else blocked
begin stop s = moved rest (record s { stopped = true })
begin (receive p) s = receive_from p s (get_elem? s.pools p)
begin _ s = blocked

unfoldable pub returned : Event → ℕ → Scheduler → Outcome
returned (ran e) n s = moved (finishing n e) s
returned fail n s = moved (failed n) s
returned _ n s = blocked

-- One move of a thread. Wakers exist only for nodes of the graph, so `call` names one of these.
unfoldable pub advance : Event → Pc → Scheduler → Outcome
unfolding continue fail_exchange begin returned
advance proceed pc s = continue pc s
advance spurious pc s = fail_exchange pc s
advance e rest s = begin e s
advance e (executing n) s = returned e n s
advance _ _ s = blocked

pub record System : Type 0 where
  pub scheduler : Scheduler
  pub threads : List Pc

pub data Progress : Type 0 where
  next : System → Progress
  stuck : Progress
  panic : Progress

unfoldable pub settle : List Pc → ℕ → Outcome → Progress
settle ts i (moved pc s) = next (record { scheduler = s; threads = set ts i pc })
settle ts i blocked = stuck
settle ts i panicked = panic

unfoldable pub pick : ℕ → Event → System → Option Pc → Progress
unfolding settle advance
pick i e y none = stuck
pick i e y (some pc) = settle y.threads i (advance e pc y.scheduler)

unfoldable pub step : ℕ → Event → System → Progress
unfolding pick
step i e y = pick i e y (get_elem? y.threads i)

abbrev pub then_run : (System → Progress) → Progress → Progress
then_run f (next y) = f y
then_run f stuck = stuck
then_run f panic = panic

-- An interleaving: each entry names a thread and its event.
unfoldable pub run : List (ℕ × Event) → System → Progress
unfolding step
run [] y = next y
run ((i, e) ∷ es) y = then_run (run es) (step i e y)
