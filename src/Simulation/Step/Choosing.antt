-- ===== src/Simulation/Step/Choosing.antt =====
-- state.rs: the batch that a step chooses.
use cfw.Prelude.{
  ℕ, zero, suc, ◌+◌, ◌<◌, ◌≡◌, ap, sym, subst, Option, none, some, List, [], ◌∷◌, length, arith,
  All,
}
use cfw.Prelude.Result.{ok}
use cfw.Sort.{TotalOrder, All-sort}
use cfw.Time.{FrameworkTime}
use cfw.Simulation.{Node, SimulationState, Environment}
use cfw.Simulation.Frame.{IsWellFormed}
use cfw.Simulation.Threads.{
  Candidate, candidate_le, candidate_of, ready_from, candidates, pool_of, Selection, select,
  free_threads,
}
use cfw.Simulation.Threads.Laws.{free_threads_from_lem}
use cfw.Simulation.Select.{HasPool, IsServed, IsChosenFrom, kept, passed, select_lem}
use cfw.Simulation.Step.Executing.{Fits}

candidate_le-TotalOrder : TotalOrder candidate_le
candidate_le-TotalOrder = record { total = λ a b. ground arith; trans = λ a b c. ground arith }

-- The pools of the candidates are there.
candidate_of-HasPool :
    (all : List Node) (count : ℕ) (since : Option FrameworkTime) (index : ℕ) (rest : List Candidate)
    → ((pool : ℕ) × (pool_of all index ≡ some pool) × (pool < count))
    → All (HasPool all count) rest
    → All (HasPool all count) (candidate_of since index rest)
candidate_of-HasPool all count none index rest h a = a
candidate_of-HasPool all count (some since) index rest h a = (h, a)

ready_from-HasPool :
    (all nodes : List Node) (index count : ℕ)
    → ((i : ℕ) → pool_of all (index + i) ≡ pool_of nodes i)
    → All (λ node. node.schedule.pool < count) nodes
    → All (HasPool all count) (ready_from index nodes)
unfolding ready_from
ready_from-HasPool all [] index count at a = tt
ready_from-HasPool all (node ∷ nodes) index count at a =
    candidate_of-HasPool all count node.ready_since index (ready_from (index + 1) nodes)
      (
        node.schedule.pool,
        subst (λ i. pool_of all i ≡ some node.schedule.pool) (omega arith) (at 0),
        a.0,
      )
      (ready_from-HasPool all nodes (index + 1) count
        (λ i. subst (λ k. pool_of all k ≡ pool_of nodes i) (omega arith) (at (suc i))) a.1)

candidates-HasPool :
    (nodes : List Node) (count : ℕ)
    → All (λ node. node.schedule.pool < count) nodes
    → All (HasPool nodes count) (candidates nodes)
unfolding candidates
candidates-HasPool nodes count a =
    All-sort candidate_le candidate_le-TotalOrder (HasPool nodes count) (ready_from 0 nodes)
      (ready_from-HasPool nodes nodes 0 count (λ i. ap (pool_of nodes) (omega arith)) a)

pool_of-lt : (nodes : List Node) (i pool : ℕ) → pool_of nodes i ≡ some pool → i < length nodes
pool_of-lt [] i pool e = cc
pool_of-lt (node ∷ nodes) zero pool e = ground arith
pool_of-lt (node ∷ nodes) (suc i) pool e = ground (arith, pool_of-lt nodes i pool e)

chosen-lt :
    (nodes : List Node) (count : ℕ) (chosen : List ℕ) (cs : List Candidate)
    → IsChosenFrom chosen cs
    → All (HasPool nodes count) cs
    → All (λ i. i < length nodes) chosen
chosen-lt nodes count [] cs c a = tt
chosen-lt nodes count (i ∷ chosen) [] c a = elim c [ ]
chosen-lt nodes count (i ∷ chosen) (d ∷ cs) (kept c) ((pool, e, lt), a) =
    (pool_of-lt nodes d.index pool e, chosen-lt nodes count chosen cs c a)
chosen-lt nodes count (i ∷ chosen) (d ∷ cs) (passed c) (h, a) =
    chosen-lt nodes count (i ∷ chosen) cs c a

module _ {W A Job Done : Type 0} (env : Environment W A Job Done) where
  -- The batch that a step chooses from a well-formed state: the choice never fails, fits the threads
  -- that the busy callbacks leave, names callbacks that are there, keeps the order in which the
  -- callbacks became ready, and passes over only callbacks of pools that are full.
  pub record IsBatch (s : SimulationState W A) : Type 0 where
    pub free : List ℕ
    pub chosen : Selection
    pub counted : free_threads s.time s.nodes s.virtual_pool_threads ≡ ok free
    pub choice :
        select s.nodes (candidates s.nodes) (record { free = free; selected = [] }) ≡ ok chosen
    pub fits : Fits env s chosen.selected
    pub inside : All (λ i. i < length s.nodes) chosen.selected
    pub in_order : IsChosenFrom chosen.selected (candidates s.nodes)
    pub served : All (IsServed s.nodes chosen.selected chosen.free) (candidates s.nodes)

  pub batch_lem : (s : SimulationState W A) → IsWellFormed s → IsBatch s
  unfolding free_threads
  batch_lem s w =
      let (free, counted, len, at) =
        free_threads_from_lem s.time s.nodes s.virtual_pool_threads w.within_pools in
      let have : All (HasPool s.nodes (length free)) (candidates s.nodes) =
        candidates-HasPool s.nodes (length free) (
          subst (λ count. All (λ node. node.schedule.pool < count) s.nodes) (sym len)
            w.pools_exist) in
      let (chosen, e, i) =
        select_lem s.nodes (candidates s.nodes) (record { free = free; selected = [] }) have in
      let same : i.chosen ≡ chosen.selected = sym i.appended in
      record {
        free = free;
        chosen = chosen;
        counted = counted;
        choice = e;
        fits = subst (Fits env s) same (λ pool. ground (arith, i.capacity pool, at pool));
        inside =
            subst (All (λ j. j < length s.nodes)) same
              (chosen-lt s.nodes (length free) i.chosen (candidates s.nodes) i.in_order have);
        in_order = subst (λ l. IsChosenFrom l (candidates s.nodes)) same i.in_order;
        served =
            subst (λ l. All (IsServed s.nodes l chosen.free) (candidates s.nodes)) same i.maximal;
      }
