-- ===== src/Buffers/Clear.antt =====
-- mpsc_queue.rs, `clear`: the loop ends, and nothing is left.
use cfw.Prelude.{
  ℕ, zero, suc, ◌+◌, ◌<◌, ◌≡◌, refl, ap, sym, subst, ◌∙◌, Option, none, some, List, [], ◌∷◌, length,
  is_some, if◌then◌else◌, arith,
}
use cfw.Buffers.{front_of, rest_of, ArrayQueue, MpscQueue, pop_queue, clear_loop, clear}

module _ {A : Type 0} (array : ArrayQueue A) where
  open array use {elements, pop, len, pop_result, pop_elements, len_elements}

  abbrev IsCleared : MpscQueue array → MpscQueue array → Type 0
  IsCleared q q' = (elements q'.inner ≡ []) × (q'.dropped ≡ q.dropped)

  pick_left :
      {B : Type 0} (o : Option A) (x : A) (y z : B) → o ≡ some x → (if is_some o then y else z) ≡ y
  pick_left o x y z e = rw e refl

  pick_right : {B : Type 0} (o : Option A) (y z : B) → o ≡ none → (if is_some o then y else z) ≡ z
  pick_right o y z e = rw e refl

  clear_loop_lem :
      (fuel : ℕ) (q : MpscQueue array)
      → length (elements q.inner) < fuel
      → IsCleared q (clear_loop array fuel q)
  unfolding clear_loop pop_queue
  clear_loop_lem zero q h = elim h [ ]
  clear_loop_lem (suc fuel) q h =
      go (elements q.inner) refl (clear_loop_lem fuel (pop_queue array q).1)
    where
      go :
          (l : List A)
          → elements q.inner ≡ l
          → (length (elements (pop q.inner).1) < fuel
              → IsCleared (pop_queue array q).1 (clear_loop array fuel (pop_queue array q).1))
          → IsCleared q (clear_loop array (suc fuel) q)
      go [] e k =
          subst (IsCleared q)
            (sym (pick_right (pop q.inner).0 _ _ (pop_result q.inner ∙ ap front_of e)))
            (pop_elements q.inner ∙ ap rest_of e, refl)
      go (x ∷ l) e k =
          subst (IsCleared q)
            (sym (pick_left (pop q.inner).0 x _ _ (pop_result q.inner ∙ ap front_of e)))
            (k (omega (arith, h, ap length e, ap length (pop_elements q.inner ∙ ap rest_of e))))

  pub clear_lem :
      (q : MpscQueue array)
      → (elements (clear array q).inner ≡ []) × ((clear array q).dropped ≡ q.dropped)
  unfolding clear
  clear_lem q = clear_loop_lem (len q.inner + 1) q (omega (arith, len_elements q.inner))
