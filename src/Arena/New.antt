-- ===== src/Arena/New.antt =====
-- arena.rs, `reallocate_slots` and `new`: each slot is free, and its index is on the free list once.
use mathlib.Core.List.{append_assoc, append-nil}
use cfw.Prelude.{
  ℕ, zero, suc, ◌+◌, ◌≤◌, ◌≡◌, ◌&&◌, refl, ap, sym, subst, true, false, none, List, [], ◌∷◌, ◌++◌,
  ◌∙◌, max, length, length-append, length-replicate, get_elem?, replicate, ltb, leb, total, arith,
}
use cfw.Prelude.Result.{ok, err}
use cfw.Buffers.{ArrayQueue}
use cfw.Arena.{
  push_indices, reallocate_slots, update_capacity, all_gone, Holder, taken, loan, pointer,
  destroying, clearing, returning, dropping, gone, Arena, empty_slot, new,
}
use cfw.Arena.Weights.{
  one_if, solo, shared, parked, needing, occurrences, count_at, Facts, all-Facts,
}
use cfw.Arena.Safety.{IsSound}

-- The indices from a first one.
abbrev indices : ℕ → ℕ → List ℕ
indices first zero = []
indices first (suc n) = first ∷ indices (first + 1) n

occurrences-indices :
    (i first n : ℕ) → occurrences i (indices first n) ≡ one_if (leb first i && ltb i (first + n))
unfolding occurrences
occurrences-indices i first zero = ground arith
occurrences-indices i first (suc n) = ground (arith, occurrences-indices i (first + 1) n)

count_at-replicate : (n i : ℕ) → count_at (get_elem? (replicate n empty_slot) i) ≡ 0
count_at-replicate zero i = refl
count_at-replicate (suc n) zero = refl
count_at-replicate (suc n) (suc i) = count_at-replicate n i

pub total-gone :
    (w : Holder → ℕ) (xs : List Holder) → w gone ≡ 0 → all_gone xs ≡ true → total w xs ≡ 0
unfolding total
total-gone w [] z h = refl
total-gone w (gone ∷ xs) z h = omega (arith, z, total-gone w xs z h)
total-gone w (taken i ∷ xs) z h = cc
total-gone w (loan i ∷ xs) z h = cc
total-gone w (pointer i ∷ xs) z h = cc
total-gone w (destroying i ∷ xs) z h = cc
total-gone w (clearing i ∷ xs) z h = cc
total-gone w (returning i ∷ xs) z h = cc
total-gone w (dropping i c ∷ xs) z h = cc

module _ ⦃queue : ArrayQueue ℕ⦄ where
  -- What a loop of pushes leaves in a queue.
  record Filled (first n : ℕ) (free : queue.Queue) : Type 0 where
    filled : queue.Queue
    is_ok : push_indices first n free ≡ ok filled
    holds : queue.elements filled ≡ queue.elements free ++ indices first n
    same : queue.capacity filled ≡ queue.capacity free

  push_indices_lem :
      (n first : ℕ) (free : queue.Queue)
      → length (queue.elements free) + n ≤ queue.capacity free
      → Filled first n free
  unfolding push_indices
  push_indices_lem zero first free h = record {
    filled = free;
    is_ok = refl;
    holds = sym (append-nil (queue.elements free));
    same = refl;
  }
  push_indices_lem (suc n) first free h =
      let next = (queue.push first free).1 in
      let not_full : leb (queue.capacity free) (length (queue.elements free)) ≡ false =
        ground (arith, h) in
      let kept : (queue.push first free).0 ≡ none =
        rw (queue.push_result first free, not_full) refl in
      let more : queue.elements next ≡ queue.elements free ++ first ∷ [] =
        rw (queue.push_elements first free, not_full) refl in
      let longer = length-append (queue.elements free) (first ∷ []) in
      let rest =
        push_indices_lem n (first + 1) next
          (omega (arith, h, ap length more, longer, queue.push_capacity first free)) in
      record {
        filled = rest.filled;
        is_ok = rw kept rest.is_ok;
        holds =
            rest.holds
            ∙ ap (λ l. l ++ indices (first + 1) n) more
            ∙ append_assoc (queue.elements free) (first ∷ []) (indices (first + 1) n);
        same = rest.same ∙ queue.push_capacity first free;
      }

  abbrev arena_of : Arena → queue.Queue → Arena
  arena_of a free = record a { slots = replicate a.capacity empty_slot; free_list = free }

  reallocated :
      (a : Arena) (free : queue.Queue)
      → push_indices 0 a.capacity (queue.make (max a.capacity 1)) ≡ ok free
      → reallocate_slots a ≡ ok (arena_of a free)
  unfolding reallocate_slots
  reallocated a free e = ap (λ r. elim r [ err f ↦ err f | ok q ↦ ok (arena_of a q) ]) e

  pub reallocate_slots-IsSound :
      (a : Arena) → all_gone a.holders ≡ true → IsSound (reallocate_slots a)
  unfolding solo shared parked needing
  reallocate_slots-IsSound a idle =
      let n = a.capacity in
      let made = queue.make_elements (max n 1) in
      let wide = queue.make_capacity (max n 1) (λ e. ground (arith, e)) in
      let f = push_indices_lem n 0 (queue.make (max n 1)) (ground (arith, ap length made, wide)) in
      let l = length-replicate n empty_slot in
      let free = f.holds ∙ ap (λ q. q ++ indices 0 n) made in
      subst IsSound (sym (reallocated a f.filled f.is_ok)) (record {
        facts = λ i. all-Facts (arena_of a f.filled) i (
            ground (
              arith,
              l,
              count_at-replicate n i,
              ap (occurrences i) free,
              occurrences-indices i 0 n,
              total-gone (solo i) a.holders refl idle,
              total-gone (shared i) a.holders refl idle,
              total-gone (parked i) a.holders refl idle,
              total-gone (needing i) a.holders refl idle,
            ));
        roomy = f.same ∙ wide ∙ ap (λ k. max k 1) (sym l);
      })

  pub resize-Facts : (a : Arena) (n i : ℕ) → Facts a i → Facts (update_capacity a n) i
  resize-Facts a n i f = record {
    counted = f.counted;
    placed = f.placed;
    sole = f.sole;
    alive = f.alive;
  }

  pub new-IsSound : (n : ℕ) → IsSound (new n)
  unfolding new
  new-IsSound n =
      reallocate_slots-IsSound
        (record { slots = []; free_list = queue.make (max n 1); capacity = n; holders = [] }) refl
