-- ===== src/Simulation/Threads.antt =====
-- state.rs: the free threads of the virtual pools, and the selection of a batch in the order of
-- readiness.
pub mod Laws
use cfw.Prelude.{
  ℕ, zero, suc, ◌+◌, ◌-◌, ◌==◌, Bool, true, false, Option, none, some, List, [], ◌∷◌, ◌++◌,
  get_elem?, map, if◌then◌else◌, leb, ◌||◌, ◌&&◌,
}
use cfw.Prelude.Result.{Result, ok, err, ◌>>=◌}
use cfw.Sort.{sort}
use cfw.Time.{FrameworkTime, time_le, time_lt}
use cfw.Schedule.{CallbackSchedule}
use cfw.Simulation.{Node, StepError, panicked}

abbrev pub take_one : ℕ → List ℕ → Result StepError (List ℕ)
take_one zero free = err panicked
take_one (suc n) free = ok (n ∷ free)

-- `free[pool] -= 1`; an error where the source panics, outside the list or at zero.
unfoldable pub take_thread : List ℕ → ℕ → Result StepError (List ℕ)
take_thread [] pool = err panicked
take_thread (n ∷ free) zero = take_one n free
take_thread (n ∷ free) (suc pool) = take_thread free pool >>= λ rest. ok (n ∷ rest)

abbrev pub is_busy : FrameworkTime → Node → Bool
is_busy time node = time_lt time node.busy_until

abbrev pub take_if : Bool → List ℕ → ℕ → Result StepError (List ℕ)
take_if false free pool = ok free
take_if true free pool = take_thread free pool

unfoldable pub free_threads_from : FrameworkTime → List Node → List ℕ → Result StepError (List ℕ)
unfolding take_thread
free_threads_from time [] free = ok free
free_threads_from time (node ∷ nodes) free =
    take_if (is_busy time node) free node.schedule.pool >>= λ rest.
    free_threads_from time nodes rest

unfoldable pub free_threads : FrameworkTime → List Node → List ℕ → Result StepError (List ℕ)
unfolding free_threads_from
free_threads time nodes virtual_pool_threads = free_threads_from time nodes virtual_pool_threads

-- A callback that may run: since when it is ready, and its index.
pub record Candidate : Type 0 where
  pub since : FrameworkTime
  pub index : ℕ

-- The order of the pairs `(since, index)`.
abbrev pub candidate_le : Candidate → Candidate → Bool
candidate_le a b = time_lt a.since b.since || (time_le a.since b.since && leb a.index b.index)

abbrev pub candidate_of : Option FrameworkTime → ℕ → List Candidate → List Candidate
candidate_of none index rest = rest
candidate_of (some since) index rest = record { since = since; index = index } ∷ rest

unfoldable pub ready_from : ℕ → List Node → List Candidate
ready_from index [] = []
ready_from index (node ∷ nodes) = candidate_of node.ready_since index (ready_from (index + 1) nodes)

unfoldable pub candidates : List Node → List Candidate
unfolding ready_from sort
candidates nodes = sort candidate_le (ready_from 0 nodes)

abbrev pool_in : Option Node → Option ℕ
pool_in none = none
pool_in (some node) = some node.schedule.pool

abbrev pub pool_of : List Node → ℕ → Option ℕ
pool_of nodes index = pool_in (get_elem? nodes index)

-- What is left free, and what was chosen so far, in the order of the choice.
pub record Selection : Type 0 where
  pub free : List ℕ
  pub selected : List ℕ

abbrev pub nonzero : Option ℕ → Result StepError Bool
nonzero none = err panicked
nonzero (some zero) = ok false
nonzero (some (suc n)) = ok true

abbrev pub claim_in : Bool → List ℕ → ℕ → ℕ → List ℕ → Result StepError Selection
claim_in false free pool index selected = ok (record { free = free; selected = selected })
claim_in true free pool index selected =
    take_thread free pool >>= λ rest. ok (record { free = rest; selected = selected ++ index ∷ [] })

-- One turn of the selection: the pool must have a free thread.
unfoldable pub claim_thread : Option ℕ → ℕ → Selection → Result StepError Selection
unfolding take_thread
claim_thread none index s = err panicked
claim_thread (some pool) index s =
    nonzero (get_elem? s.free pool) >>= λ positive. claim_in positive s.free pool index s.selected

unfoldable pub select : List Node → List Candidate → Selection → Result StepError Selection
unfolding claim_thread
select nodes [] s = ok s
select nodes (c ∷ cs) s =
    claim_thread (pool_of nodes c.index) c.index s >>= λ s'. select nodes cs s'
