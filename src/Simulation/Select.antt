-- ===== src/Simulation/Select.antt =====
-- state.rs: the batch that is chosen respects the pools, leaves no ready callback out whose pool has
-- a free thread, and keeps the order of the candidates.
use mathlib.Core.List.{append_assoc, append-nil}
use cfw.Prelude.{
  ℕ, zero, suc, ◌+◌, ◌<◌, ◌==◌, ◌≡◌, refl, ◌∙◌, ◌⊎◌, inl, inr, Option, none, some, List, [], ◌∷◌,
  ◌++◌, get_elem?, if◌then◌else◌, All, All-map, arith, length,
}
use cfw.Prelude.Result.{ok}
use cfw.Simulation.{Node}
use cfw.Simulation.Threads.{Candidate, pool_of, Selection, claim_thread, select}
use cfw.Simulation.Threads.Laws.{threads_of, take_thread_lem}

-- The chosen callbacks of a pool.
abbrev pub is_pool : Option ℕ → ℕ → ℕ
is_pool none pool = 0
is_pool (some q) pool = if q == pool then 1 else 0

abbrev pub chosen_in : List Node → ℕ → List ℕ → ℕ
chosen_in nodes pool [] = 0
chosen_in nodes pool (index ∷ chosen) =
    is_pool (pool_of nodes index) pool + chosen_in nodes pool chosen

-- `chosen` is what is left of the candidates when some are passed over.
pub data IsChosenFrom : List ℕ → List Candidate → Type 0 where
  nothing : IsChosenFrom [] []
  kept :
      {c : Candidate} {chosen : List ℕ} {cs : List Candidate}
      → IsChosenFrom chosen cs
      → IsChosenFrom (c.index ∷ chosen) (c ∷ cs)
  passed :
      {c : Candidate} {chosen : List ℕ} {cs : List Candidate}
      → IsChosenFrom chosen cs
      → IsChosenFrom chosen (c ∷ cs)

abbrev pub Among : ℕ → List ℕ → Type 0
Among index [] = ⊥
Among index (i ∷ chosen) = (index ≡ i) ⊎ Among index chosen

-- A candidate is chosen, or its pool has no thread left.
abbrev pub IsServed : List Node → List ℕ → List ℕ → Candidate → Type 0
IsServed nodes chosen free c =
    Among c.index chosen
    ⊎ ((pool : ℕ) × (pool_of nodes c.index ≡ some pool) × (threads_of free pool ≡ 0))

abbrev pub HasPool : List Node → ℕ → Candidate → Type 0
HasPool nodes count c = (pool : ℕ) × (pool_of nodes c.index ≡ some pool) × (pool < count)

pub record IsSelected (nodes : List Node) (cs : List Candidate) (s s' : Selection) : Type 0 where
  pub chosen : List ℕ
  pub appended : s'.selected ≡ s.selected ++ chosen
  pub same_pools : length s'.free ≡ length s.free
  pub capacity : (p : ℕ) → threads_of s'.free p + chosen_in nodes p chosen ≡ threads_of s.free p
  pub in_order : IsChosenFrom chosen cs
  pub maximal : All (IsServed nodes chosen s'.free) cs

get_elem?-threads :
    (free : List ℕ) (pool : ℕ)
    → pool < length free
    → get_elem? free pool ≡ some (threads_of free pool)
get_elem?-threads [] pool lt = elim lt [ ]
get_elem?-threads (n ∷ free) zero lt = refl
get_elem?-threads (n ∷ free) (suc pool) lt = get_elem?-threads free pool (omega arith)

-- How a turn of the selection ends on a pool that is there.
abbrev Turns : ℕ → ℕ → Selection → Type 0
Turns pool index s =
    ((threads_of s.free pool ≡ 0) × (claim_thread (some pool) index s ≡ ok s))
    ⊎ ((rest : List ℕ) × (claim_thread (some pool) index s
          ≡ ok (record { free = rest; selected = s.selected ++ index ∷ [] }))
        × (length rest ≡ length s.free)
        × ((p : ℕ) → threads_of rest p + (if pool == p then 1 else 0) ≡ threads_of s.free p))

claim_thread_lem : (pool index : ℕ) (s : Selection) → pool < length s.free → Turns pool index s
unfolding claim_thread
claim_thread_lem pool index s lt = go (threads_of s.free pool) refl
  where
    go : (n : ℕ) → threads_of s.free pool ≡ n → Turns pool index s
    go zero e = inl (e, rw (get_elem?-threads s.free pool lt, e) refl)
    go (suc n) e =
        let (rest, taken, len, at) = take_thread_lem s.free pool (omega (arith, e)) in
        inr (rest, rw (get_elem?-threads s.free pool lt, e, taken) refl, len, at)

All-IsServed :
    (nodes : List Node) (index : ℕ) (chosen free : List ℕ) (c : Candidate)
    → IsServed nodes chosen free c
    → IsServed nodes (index ∷ chosen) free c
All-IsServed nodes index chosen free c (inl among) = inl (inr among)
All-IsServed nodes index chosen free c (inr full) = inr full

-- Choosing from candidates whose pools are there never fails. It takes from each pool as many
-- threads as it chooses callbacks of it and never more than the pool has free; it keeps the order of
-- the candidates; and a candidate that it passes over belongs to a pool with no thread left.
pub select_lem :
    (nodes : List Node) (cs : List Candidate) (s : Selection)
    → All (HasPool nodes (length s.free)) cs
    → (s' : Selection) × (select nodes cs s ≡ ok s') × IsSelected nodes cs s s'
unfolding select
select_lem nodes [] s h = (
  s,
  refl,
  record {
    chosen = [];
    appended = rw append-nil refl;
    same_pools = refl;
    capacity = λ p. ground arith;
    in_order = nothing;
    maximal = tt;
  },
)
select_lem nodes (c ∷ cs) s ((pool, e, lt), h) = elim (claim_thread_lem pool c.index s lt) [
  | inl (none_left, same) ↦
      let (s', f, i) = select_lem nodes cs s h in
      (
        s',
        rw (e, same) f,
        record {
          chosen = i.chosen;
          appended = i.appended;
          same_pools = i.same_pools;
          capacity = i.capacity;
          in_order = passed i.in_order;
          maximal = (inr (pool, e, omega (arith, i.capacity pool)), i.maximal);
        },
      )
  | inr (rest, claimed, len, at) ↦
      let s1 : Selection = record { free = rest; selected = s.selected ++ c.index ∷ [] } in
      let (s', f, i) =
        select_lem nodes cs s1 (All-map (λ d (q, g, m). (q, g, omega (arith, len))) cs h) in
      (
        s',
        rw (e, claimed) f,
        record {
          chosen = c.index ∷ i.chosen;
          appended = i.appended ∙ append_assoc s.selected (c.index ∷ []) i.chosen;
          same_pools = i.same_pools ∙ len;
          capacity = λ p. rw e (ground (arith, i.capacity p, at p));
          in_order = kept i.in_order;
          maximal =
              (inl (inl refl), All-map (All-IsServed nodes c.index i.chosen s'.free) cs i.maximal);
        },
      )
]
