-- ===== src/StaticVec/Spec.antt =====
-- static_vec.rs: the operations of a `StaticVec` as commands, and what they do to a list of at most
-- the capacity.
use cfw.Prelude.{
  ℕ, ◌==◌, Bool, true, false, Option, none, some, List, [], ◌∷◌, ◌++◌, length, if◌then◌else◌,
}
use cfw.StaticVec.{StaticVec, push, pop, pop_into, back, clear, as_slice}

pub data Op (A : Type 0) : Type 0 where
  do_push : A → Op A
  do_pop do_pop_into do_clear do_back do_read : Op A

pub data Reply (A : Type 0) : Type 0 where
  pushed : Bool → Reply A
  popped : Option A → Reply A
  done : Reply A
  contents : List A → Reply A

module _ {A : Type 0} where
  abbrev pub snoc_on : A → Option (List A × A) → Option (List A × A)
  snoc_on a none = some ([], a)
  snoc_on a (some (l, b)) = some (a ∷ l, b)

  -- The last element of a list, and the others.
  abbrev pub unsnoc : List A → Option (List A × A)
  unsnoc [] = none
  unsnoc (a ∷ l) = snoc_on a (unsnoc l)

  -- The operations of the code.
  abbrev pub answer_push : Option (Bool × StaticVec A) → Option (Reply A × StaticVec A)
  answer_push none = none
  answer_push (some (b, v)) = some (pushed b, v)

  abbrev pub answer_pop : Option (Option A × StaticVec A) → Option (Reply A × StaticVec A)
  answer_pop none = none
  answer_pop (some (a, v)) = some (popped a, v)

  abbrev pub answer_clear : Option (StaticVec A) → Option (Reply A × StaticVec A)
  answer_clear none = none
  answer_clear (some v) = some (done, v)

  abbrev pub answer_back : StaticVec A → Option (Option A) → Option (Reply A × StaticVec A)
  answer_back v none = none
  answer_back v (some a) = some (popped a, v)

  abbrev pub answer_read : StaticVec A → Option (List A) → Option (Reply A × StaticVec A)
  answer_read v none = none
  answer_read v (some l) = some (contents l, v)

  abbrev pub step : Op A → StaticVec A → Option (Reply A × StaticVec A)
  step (do_push a) v = answer_push (push a v)
  step do_pop v = answer_pop (pop v)
  step do_pop_into v = answer_pop (pop_into v)
  step do_clear v = answer_clear (clear v)
  step do_back v = answer_back v (back v)
  step do_read v = answer_read v (as_slice v)

  -- The same operations on a list of at most `capacity` elements.
  abbrev pub spec_pop : List A → Option (List A × A) → Reply A × List A
  spec_pop l none = (popped none, l)
  spec_pop l (some (rest, a)) = (popped (some a), rest)

  abbrev pub spec_back : Option (List A × A) → Reply A
  spec_back none = popped none
  spec_back (some (rest, a)) = popped (some a)

  abbrev pub spec : ℕ → Op A → List A → Reply A × List A
  spec capacity (do_push a) l =
      if length l == capacity then (pushed false, l) else (pushed true, l ++ a ∷ [])
  spec capacity do_pop l = spec_pop l (unsnoc l)
  spec capacity do_pop_into l = spec_pop l (unsnoc l)
  spec capacity do_clear l = (done, [])
  spec capacity do_back l = (spec_back (unsnoc l), l)
  spec capacity do_read l = (contents l, l)

  abbrev pub after :
      Reply A → Option (List (Reply A) × StaticVec A) → Option (List (Reply A) × StaticVec A)
  after r none = none
  after r (some (replies, v)) = some (r ∷ replies, v)

  abbrev pub run_next :
      Option (Reply A × StaticVec A)
      → (StaticVec A → Option (List (Reply A) × StaticVec A))
      → Option (List (Reply A) × StaticVec A)
  run_next none k = none
  run_next (some (r, v)) k = after r (k v)

  -- A sequence of operations on a vector, and on a list.
  abbrev pub run : List (Op A) → StaticVec A → Option (List (Reply A) × StaticVec A)
  run [] v = some ([], v)
  run (op ∷ ops) v = run_next (step op v) (run ops)

  abbrev pub spec_run : ℕ → List (Op A) → List A → List (Reply A) × List A
  spec_run capacity [] l = ([], l)
  spec_run capacity (op ∷ ops) l = (
    (spec capacity op l).0 ∷ (spec_run capacity ops (spec capacity op l).1).0,
    (spec_run capacity ops (spec capacity op l).1).1,
  )
