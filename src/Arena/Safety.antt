-- ===== src/Arena/Safety.antt =====
-- arena.rs: no operation of any holder fails, in any order of their steps, but for a count of 2^63.
use cfw.Prelude.{
  ℕ, ◌+◌, ◌-◌, ◌≤◌, ◌<◌, ◌≡◌, ◌==◌, refl, ap, sym, subst, ◌∙◌, Bool, true, false, Option, none,
  some, List, [], ◌∷◌, ◌++◌, length, length-set, get_elem?, get_elem?-of_lt, leb, is_some,
  if◌then◌else◌, max, total-get_elem?-le, arith,
}
use cfw.Prelude.Result.{Result, ok, err}
use cfw.Buffers.{ArrayQueue, front_of, rest_of}
use cfw.Arena.{
  dead, Slot, Holder, taken, loan, destroying, clearing, returning, dropping, gone, Arena, Fault,
  too_many_pointers, out_of_range, is_live, on_slot, with_holder, swap_count, exchange, destroy,
  push_index, try_new, take_index,
}
use cfw.Arena.Weights.{solo, shared, parked, needing, Facts, IsArena, moved}
use cfw.Arena.Moves.{claim-Facts, leave-Facts, destroy-Facts}
use cfw.Arena.Places.{reload-Facts, give_back-Facts, take-Facts}
use cfw.Arena.Pigeonhole.{length-free_lt}

module _ ⦃queue : ArrayQueue ℕ⦄ where
  pub record IsWhole (a : Arena) : Type 0 where
    pub facts : IsArena a
    pub roomy : queue.capacity a.free_list ≡ max (length a.slots) 1

  -- What a step may end with: an arena with the invariant, or the panic of a clone.
  abbrev pub IsSound : Result Fault Arena → Type 0
  IsSound (ok a) = IsWhole a
  IsSound (err e) = e ≡ too_many_pointers

  pub slot-IsSound :
      (a : Arena) (j : ℕ) (f : Slot → Result Fault Arena)
      → j < length a.slots
      → ((s : Slot) → get_elem? a.slots j ≡ some s → IsSound (f s))
      → IsSound (on_slot a j f)
  slot-IsSound a j f l k =
      let (s, e) = get_elem?-of_lt a.slots j l in
      subst (λ o. IsSound (elim o [ none ↦ err out_of_range | some t ↦ f t ])) (sym e) (k s e)

  pub holder-IsSound :
      (a : Arena) (h : ℕ) (f : Holder → Result Fault Arena)
      → IsWhole a
      → ((x : Holder) → get_elem? a.holders h ≡ some x → IsSound (f x))
      → IsSound (with_holder a h f)
  holder-IsSound a h f w k = go (get_elem? a.holders h) refl
    where
      go :
          (o : Option Holder)
          → get_elem? a.holders h ≡ o
          → IsSound (elim o [ none ↦ ok a | some x ↦ f x ])
      go none e = w
      go (some x) e = k x e

  pub if-IsSound :
      (c : Bool) (r q : Result Fault Arena)
      → (c ≡ true → IsSound r)
      → (c ≡ false → IsSound q)
      → IsSound (if c then r else q)
  if-IsSound true r q h k = h refl
  if-IsSound false r q h k = k refl

  -- A holder of an index holds one of the arena's slots.
  pub index_lt :
      (a : Arena) (h j : ℕ) (x : Holder)
      → IsArena a
      → get_elem? a.holders h ≡ some x
      → 1 ≤ solo j x + shared j x + parked j x
      → j < length a.slots
  index_lt a h j x w e l =
      let f = w j in
      ground (
        arith,
        f.placed,
        total-get_elem?-le (solo j) a.holders h x e,
        total-get_elem?-le (shared j) a.holders h x e,
        total-get_elem?-le (parked j) a.holders h x e,
      )

  -- After one holder has moved, on a slot or not.
  pub moved-IsWhole :
      (a : Arena) (h j : ℕ) (y : Holder) (s : Slot)
      → IsWhole a
      → ((i : ℕ) → Facts (moved a h y j s) i)
      → IsWhole (moved a h y j s)
  moved-IsWhole a h j y s w f = record {
    facts = f;
    roomy = w.roomy ∙ ap (λ n. max n 1) (sym (length-set a.slots j s));
  }

  same_free-Facts :
      (a : Arena) (free : queue.Queue) (i : ℕ)
      → queue.elements free ≡ queue.elements a.free_list
      → Facts a i
      → Facts (record a { free_list = free }) i
  same_free-Facts a free i is f = record {
    counted = f.counted;
    placed = rw is f.placed;
    sole = f.sole;
    alive = f.alive;
  }

  pub try_new-IsWhole : (a : Arena) → IsWhole a → IsWhole (try_new a)
  unfolding try_new
  try_new-IsWhole a w =
      go (queue.elements a.free_list) refl (queue.pop a.free_list).0 (queue.pop_result a.free_list)
    where
      rest : queue.Queue
      rest = (queue.pop a.free_list).1

      roomy : queue.capacity rest ≡ max (length a.slots) 1
      roomy = queue.pop_capacity a.free_list ∙ w.roomy

      go :
          (free : List ℕ)
          → queue.elements a.free_list ≡ free
          → (out : Option ℕ) → out ≡ front_of (queue.elements a.free_list)
          → IsWhole (take_index a out rest)
      go [] e none o =
          let same = queue.pop_elements a.free_list ∙ ap rest_of e ∙ sym e in
          record { facts = λ i. same_free-Facts a rest i same (w.facts i); roomy = roomy }
      go [] e (some i) o = cc
      go (j ∷ js) e none o = cc
      go (j ∷ js) e (some i) o =
          let left = queue.pop_elements a.free_list ∙ ap rest_of e in
          let same : j ≡ i = cc in
          record {
            facts = λ k. take-Facts a i js rest k (e ∙ ap (λ n. n ∷ js) same) left (w.facts k);
            roomy = roomy;
          }

  pub swap_count-IsSound :
      (a : Arena) (h j : ℕ) (s : Slot)
      → IsWhole a
      → get_elem? a.holders h ≡ some (taken j)
      → get_elem? a.slots j ≡ some s
      → IsSound (swap_count a h j s)
  unfolding swap_count solo shared parked
  swap_count-IsSound a h j s w e es =
      let f = w.facts j in
      let zero? : s.ref_count ≡ 0 =
        ground
          (arith, es, f.counted, f.placed, total-get_elem?-le (parked j) a.holders h (taken j) e) in
      if-IsSound (s.ref_count == 0) _ _
        (λ yes.
          moved-IsWhole a h j (loan j) (record s { ref_count = 1 }) w
            (λ i. claim-Facts a h j i s e es zero? (w.facts i)))
        (λ no. ground (arith, zero?, no))

  pub exchange-IsSound :
      (a : Arena) (h j c : ℕ) (s : Slot)
      → IsWhole a
      → get_elem? a.holders h ≡ some (dropping j c)
      → get_elem? a.slots j ≡ some s
      → (c == 1) ≡ false
      → IsSound (exchange a h j c s)
  unfolding exchange
  exchange-IsSound a h j c s w e es n =
      if-IsSound (s.ref_count == c) _ _
        (λ yes.
          moved-IsWhole a h j gone (record s { ref_count = c - 1 }) w
            (λ i. leave-Facts a h j c i s e es (ground (arith, yes)) n (w.facts i)))
        (λ no. record { facts = λ i. reload-Facts a h j c i s e es n (w.facts i); roomy = w.roomy })

  pub destroy-IsSound :
      (a : Arena) (h j : ℕ) (s : Slot)
      → IsWhole a
      → get_elem? a.holders h ≡ some (destroying j)
      → get_elem? a.slots j ≡ some s
      → IsSound (destroy a h j s)
  unfolding destroy needing
  destroy-IsSound a h j s w e es =
      let f = w.facts j in
      let there : is_live s.payload ≡ true =
        ground (arith, es, f.alive, total-get_elem?-le (needing j) a.holders h (destroying j) e) in
      if-IsSound (is_live s.payload) _ _
        (λ yes.
          moved-IsWhole a h j (clearing j) (record s { payload = dead }) w
            (λ i. destroy-Facts a h j i s e es (w.facts i)))
        (λ no. cc)

  pub push_index-IsSound :
      (a : Arena) (h j : ℕ)
      → IsWhole a
      → get_elem? a.holders h ≡ some (returning j)
      → IsSound (push_index a h j)
  unfolding push_index solo shared parked
  push_index-IsSound a h j w e =
      let f = w.facts j in
      let held = total-get_elem?-le (parked j) a.holders h (returning j) e in
      let room =
        length-free_lt (length a.slots) j (queue.elements a.free_list)
          (λ i. let g = w.facts i in ground (arith, g.placed)) (ground (arith, f.placed, held))
          (ground (arith, f.placed, held)) in
      let not_full : leb (queue.capacity a.free_list) (length (queue.elements a.free_list))
          ≡ false =
        ground (arith, room, w.roomy) in
      let kept : (queue.push j a.free_list).0 ≡ none =
        rw (queue.push_result j a.free_list, not_full) refl in
      let more : queue.elements (queue.push j a.free_list).1
          ≡ queue.elements a.free_list ++ j ∷ [] =
        rw (queue.push_elements j a.free_list, not_full) refl in
      if-IsSound (is_some (queue.push j a.free_list).0) _ _ (λ yes. cc)
        (λ no. record {
          facts = λ i. give_back-Facts a h j i (queue.push j a.free_list).1 e more (w.facts i);
          roomy = queue.push_capacity j a.free_list ∙ w.roomy;
        })
