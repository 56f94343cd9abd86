-- ===== src/StaticVec/Refine.antt =====
-- static_vec.rs: a `StaticVec` refines a list of bounded length, for every sequence of operations.
use cfw.Prelude.{
  ℕ, suc, ◌+◌, ◌-◌, ◌==◌, ◌≡◌, refl, ap, sym, subst, ◌∙◌, ◌⊎◌, inl, inr, true, false, Option, none,
  some, List, [], ◌∷◌, ◌++◌, length, length-append, length-replicate, length-set, get_elem?, set,
  ltb, if◌then◌else◌, arith, Bool-cases,
}
use cfw.StaticVec.{
  Slot, uninit, dead, live, StaticVec, new, push, pop, pop_into, back, clear, as_slice, assume_init,
  taken, found,
}
use cfw.StaticVec.Spec.{
  Op, do_push, do_pop, do_pop_into, do_clear, do_back, do_read, unsnoc, snoc_on, answer_pop,
  answer_back, answer_read, step, spec_pop, spec_back, spec, after, run_next, run, spec_run,
}
use cfw.StaticVec.Laws.{
  Represents, Holds, Holds-push, Holds-pop, Holds-length, Holds-drop_first, Holds-read_first,
  NoneLive-replicate, IsLive,
}

module _ {A : Type 0} where
  snoc_cases :
      (l : List A)
      → (l ≡ []) ⊎ ((rest : List A) × (a : A) × (l ≡ rest ++ a ∷ []) × (unsnoc l ≡ some (rest, a)))
  snoc_cases [] = inl refl
  snoc_cases (b ∷ l) = go (snoc_cases l)
    where
      go :
          (l ≡ [])
            ⊎ ((rest : List A) × (a : A) × (l ≡ rest ++ a ∷ []) × (unsnoc l ≡ some (rest, a)))
          → (b ∷ l ≡ [])
            ⊎ ((rest : List A) × (a : A) × (b ∷ l ≡ rest ++ a ∷ [])
                × (snoc_on b (unsnoc l) ≡ some (rest, a)))
      go (inl e) = inr ([], b, ap (λ m. b ∷ m) e, rw e refl)
      go (inr (rest, a, e, u)) = inr (b ∷ rest, a, ap (λ m. b ∷ m) e, rw u refl)

  -- An operation does what the specification says, and keeps the representation.
  abbrev Follows : ℕ → Op A → StaticVec A → List A → Type 0
  Follows capacity op v l =
      (v' : StaticVec A) × (step op v ≡ some ((spec capacity op l).0, v'))
      × Represents capacity v' (spec capacity op l).1

  push-Follows :
      (capacity : ℕ) (a : A) (v : StaticVec A) (l : List A)
      → Represents capacity v l
      → Follows capacity (do_push a) v l
  unfolding push
  push-Follows capacity a v l r = elim (Bool-cases (length l == capacity)) [
    | inl full ↦ (v, rw (r.len_eq, r.room, full) refl, rw full r)
    | inr more ↦
        let bound = Holds-length v.entries l r.holds in
        let index : length l + 1 - 1 ≡ length l = omega arith in
        let room : ltb (length l) capacity ≡ true = ground (arith, bound, r.room, more) in
        (
          record { entries = set v.entries (length l) (live a); len = length l + 1 },
          rw (r.len_eq, r.room, more, index, room) refl,
          rw more (record {
            room = length-set v.entries (length l) (live a) ∙ r.room;
            len_eq = sym (length-append l (a ∷ []));
            holds = Holds-push v.entries l a r.holds (ground (arith, room, r.room));
          }),
        )
  ]

  -- What `pop` and `pop_into` do, with what they leave in the slot.
  abbrev removed : Slot A → StaticVec A → ℕ → Option (Option A × StaticVec A)
  removed slot v n =
      if n == 0
      then some (none, v)
      else taken (assume_init (get_elem? v.entries (n - 1)))
          (record { entries = set v.entries (n - 1) slot; len = n - 1 })

  removed_agrees :
      (capacity : ℕ) (slot : Slot A) (v : StaticVec A) (l : List A)
      → ¬ IsLive slot
      → Represents capacity v l
      → (v' : StaticVec A) × (answer_pop (removed slot v v.len)
          ≡ some ((spec_pop l (unsnoc l)).0, v'))
        × Represents capacity v' (spec_pop l (unsnoc l)).1
  removed_agrees capacity slot v l n r = elim (snoc_cases l) [
    | inl e ↦
        let len : v.len ≡ 0 = r.len_eq ∙ ap length e in
        let nothing : unsnoc l ≡ none = ap unsnoc e in
        (v, ap (λ m. answer_pop (removed slot v m)) len ∙ rw nothing refl, rw nothing r)
    | inr (rest, a, e, u) ↦
        let len : v.len ≡ suc (length rest) =
          ground (arith, r.len_eq, ap length e, length-append rest (a ∷ [])) in
        let (at, holds) = Holds-pop v.entries rest a slot (subst (Holds v.entries) e r.holds) n in
        let index : suc (length rest) - 1 ≡ length rest = omega arith in
        let positive : (suc (length rest) == 0) ≡ false = ground arith in
        (
          record { entries = set v.entries (length rest) slot; len = length rest },
          ap (λ m. answer_pop (removed slot v m)) len ∙ rw (positive, index, at, u) refl,
          rw u (record {
            room = length-set v.entries (length rest) slot ∙ r.room;
            len_eq = refl;
            holds = holds;
          }),
        )
  ]

  clear-Follows :
      (capacity : ℕ) (v : StaticVec A) (l : List A)
      → Represents capacity v l
      → Follows capacity do_clear v l
  unfolding clear
  clear-Follows capacity v l r =
      let (entries, e, len, none_live) = Holds-drop_first v.entries l r.holds in
      (
        record { entries = entries; len = 0 },
        rw (r.len_eq, e) refl,
        record { room = len ∙ r.room; len_eq = refl; holds = none_live },
      )

  read_agrees :
      (capacity : ℕ) (v : StaticVec A) (l : List A) → Represents capacity v l → as_slice v ≡ some l
  unfolding as_slice
  read_agrees capacity v l r = rw r.len_eq (Holds-read_first v.entries l r.holds)

  back_agrees :
      (capacity : ℕ) (v : StaticVec A) (l : List A)
      → Represents capacity v l
      → answer_back v (back v) ≡ some (spec_back (unsnoc l), v)
  unfolding back
  back_agrees capacity v l r = elim (snoc_cases l) [
    | inl e ↦
        let len : v.len ≡ 0 = r.len_eq ∙ ap length e in
        let nothing : unsnoc l ≡ none = ap unsnoc e in
        ap (λ m. answer_back v (last_of v m)) len ∙ rw nothing refl
    | inr (rest, a, e, u) ↦
        let len : v.len ≡ suc (length rest) =
          ground (arith, r.len_eq, ap length e, length-append rest (a ∷ [])) in
        let (at, holds) =
          Holds-pop v.entries rest a uninit (subst (Holds v.entries) e r.holds) (λ h. h) in
        let index : suc (length rest) - 1 ≡ length rest = omega arith in
        let positive : (suc (length rest) == 0) ≡ false = ground arith in
        ap (λ m. answer_back v (last_of v m)) len ∙ rw (positive, index, at, u) refl
  ]
    where
      last_of : StaticVec A → ℕ → Option (Option A)
      last_of v n = if n == 0 then some none else found (assume_init (get_elem? v.entries (n - 1)))

  step-Follows :
      (capacity : ℕ) (op : Op A) (v : StaticVec A) (l : List A)
      → Represents capacity v l
      → Follows capacity op v l
  unfolding pop pop_into
  step-Follows capacity (do_push a) v l r = push-Follows capacity a v l r
  step-Follows capacity do_pop v l r = removed_agrees capacity uninit v l (λ h. h) r
  step-Follows capacity do_pop_into v l r = removed_agrees capacity dead v l (λ h. h) r
  step-Follows capacity do_clear v l r = clear-Follows capacity v l r
  step-Follows capacity do_back v l r = (v, back_agrees capacity v l r, r)
  step-Follows capacity do_read v l r = (v, ap (answer_read v) (read_agrees capacity v l r), r)

  run_agrees :
      (capacity : ℕ) (ops : List (Op A)) (v : StaticVec A) (l : List A)
      → Represents capacity v l
      → (v' : StaticVec A) × (run ops v ≡ some ((spec_run capacity ops l).0, v'))
        × Represents capacity v' (spec_run capacity ops l).1
  run_agrees capacity [] v l r = (v, refl, r)
  run_agrees capacity (op ∷ ops) v l r =
      let (v1, e, r1) = step-Follows capacity op v l r in
      let (v2, f, r2) = run_agrees capacity ops v1 (spec capacity op l).1 r1 in
      (v2, ap (λ m. run_next m (run ops)) e ∙ ap (after (spec capacity op l).0) f, r2)

  -- Any sequence of pushes, removals, clears and reads, begun on a new vector, behaves as it does on
  -- a list of at most the capacity: every reply is the same, no slot that is not live is ever read,
  -- nothing panics, and the slots that are live at the end are exactly those of the list.
  pub run_refines :
      (capacity : ℕ) (ops : List (Op A))
      → (v : StaticVec A) × (run ops (new capacity) ≡ some ((spec_run capacity ops []).0, v))
        × Represents capacity v (spec_run capacity ops []).1
  run_refines capacity ops = run_agrees capacity ops (new capacity) [] (record {
    room = length-replicate capacity uninit;
    len_eq = refl;
    holds = NoneLive-replicate A capacity;
  })
