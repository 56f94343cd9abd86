-- ===== src/Arena/Places.antt =====
-- arena.rs: the steps that write no slot, and the clone of a pointer, keep the sums of the invariant.
use cfw.Prelude.{
  ℕ, ◌+◌, ◌≡◌, refl, ap, true, false, some, List, [], ◌∷◌, ◌++◌, get_elem?, ◌==◌,
  total-get_elem?-le, arith,
}
use cfw.Buffers.{ArrayQueue}
use cfw.Arena.{
  Slot, taken, pointer, destroying, returning, dropping, gone, Arena, at_place, with_slot,
}
use cfw.Arena.Weights.{
  solo, shared, parked, needing, occurrences, Facts, set-Change, moved-Stored, occurrences-append,
  append-Added, all-Facts,
}

module _ ⦃queue : ArrayQueue ℕ⦄ where
  -- A pointer in a drop has read the count.
  pub load-Facts :
      (a : Arena) (h j i : ℕ) (s : Slot)
      → get_elem? a.holders h ≡ some (pointer j)
      → get_elem? a.slots j ≡ some s
      → Facts a i
      → Facts (at_place a h (dropping j s.ref_count)) i
  unfolding solo shared parked needing
  load-Facts a h j i s eh es f =
      let d =
        set-Change a (at_place a h (dropping j s.ref_count)) h (pointer j) (dropping j s.ref_count)
          i eh refl in
      all-Facts _ _ (ground (arith, f, d, es))

  -- An exchange has failed, and has read the count.
  pub reload-Facts :
      (a : Arena) (h j c i : ℕ) (s : Slot)
      → get_elem? a.holders h ≡ some (dropping j c)
      → get_elem? a.slots j ≡ some s
      → (c == 1) ≡ false
      → Facts a i
      → Facts (at_place a h (dropping j s.ref_count)) i
  unfolding solo shared parked needing
  reload-Facts a h j c i s eh es h0 f =
      let d =
        set-Change a (at_place a h (dropping j s.ref_count)) h (dropping j c)
          (dropping j s.ref_count) i eh refl in
      all-Facts _ _ (ground (arith, f, d, es))

  -- A pointer in a drop that has read 1 is the last.
  pub last-Facts :
      (a : Arena) (h j c i : ℕ)
      → get_elem? a.holders h ≡ some (dropping j c)
      → (c == 1) ≡ true
      → Facts a i
      → Facts (at_place a h (destroying j)) i
  unfolding solo shared parked needing
  last-Facts a h j c i eh h0 f =
      let d =
        set-Change a (at_place a h (destroying j)) h (dropping j c) (destroying j) i eh refl in
      all-Facts _ _ (ground (arith, f, d))

  -- An index comes back to the free list.
  pub give_back-Facts :
      (a : Arena) (h j i : ℕ) (free : queue.Queue)
      → get_elem? a.holders h ≡ some (returning j)
      → queue.elements free ≡ queue.elements a.free_list ++ j ∷ []
      → Facts a i
      → Facts (record (at_place a h gone) { free_list = free }) i
  unfolding solo shared parked needing
  give_back-Facts a h j i free eh is f =
      let d = set-Change a (at_place a h gone) h (returning j) gone i eh refl in
      let o = occurrences-append i j (queue.elements a.free_list) in
      let more = ap (occurrences i) is in all-Facts _ _ (ground (arith, f, d, o, more))

  -- An index leaves the free list.
  pub take-Facts :
      (a : Arena) (j : ℕ) (rest : List ℕ) (free : queue.Queue) (i : ℕ)
      → queue.elements a.free_list ≡ j ∷ rest
      → queue.elements free ≡ rest
      → Facts a i
      → Facts (record a { free_list = free; holders = a.holders ++ taken j ∷ [] }) i
  unfolding solo shared parked needing occurrences
  take-Facts a j rest free i is left f =
      let d = append-Added a (record a { holders = a.holders ++ taken j ∷ [] }) (taken j) i refl in
      let before = ap (occurrences i) is in
      let after = ap (occurrences i) left in all-Facts _ _ (ground (arith, f, d, before, after))

  -- A pointer is cloned.
  pub clone-Facts :
      (a : Arena) (h j i n : ℕ) (s : Slot)
      → get_elem? a.holders h ≡ some (pointer j)
      → get_elem? a.slots j ≡ some s
      → n ≡ s.ref_count + 1
      → Facts a i
      → Facts
          (record (with_slot a j (record s { ref_count = n })) {
            holders = a.holders ++ pointer j ∷ [];
          })
          i
  unfolding solo shared parked needing
  clone-Facts a h j i n s eh es en f =
      let b = record (with_slot a j (record s { ref_count = n })) {
        holders = a.holders ++ pointer j ∷ [];
      } in
      let m = moved-Stored a h gone j s (record s { ref_count = n }) i es in
      let d = append-Added a b (pointer j) i refl in
      let e = total-get_elem?-le (shared i) a.holders h (pointer j) eh in
      let g = total-get_elem?-le (needing i) a.holders h (pointer j) eh in
      all-Facts _ _ (ground (arith, f, d, m, es, e, g))
