-- ===== src/StaticVec/Cloned.antt =====
-- static_vec.rs, `push_cloned`: it writes before it counts.
use cfw.Prelude.{
  subst, get_elem?, length-set, ◌≢◌, ℕ, suc, ◌+◌, ◌-◌, ◌==◌, ◌<◌, ◌≡◌, refl, ◌⊎◌, inl, inr, true,
  false, none, some, List, [], ◌∷◌, length, set, ltb, arith,
}
use cfw.StaticVec.{Slot, uninit, dead, live, StaticVec, read_first, as_slice, push_cloned}
use cfw.StaticVec.Laws.{Holds, Represents, Holds-set, Holds-read_first}

one_more : (n m : ℕ) → n ≡ suc m → suc n ≡ suc m + 1
one_more n m e = omega (arith, e)

module _ {A : Type 0} where
  read_past :
      (entries : List (Slot A)) (l : List A)
      → Holds entries l
      → read_first (suc (length l)) entries ≡ none
  unfolding read_first
  read_past [] [] h = refl
  read_past (uninit ∷ entries) [] h = refl
  read_past (dead ∷ entries) [] h = refl
  read_past (live b ∷ entries) [] h = elim (h.0 tt) [ ]
  read_past [] (a ∷ l) h = elim h [ ]
  read_past (uninit ∷ entries) (a ∷ l) h = elim h [ ]
  read_past (dead ∷ entries) (a ∷ l) h = elim h [ ]
  read_past (live b ∷ entries) (a ∷ l) h = rw (read_past entries l h.1) refl

  past_live :
      (entries : List (Slot A)) (l : List A) (b : A)
      → Holds entries l
      → get_elem? entries (length l) ≢ some (live b)
  past_live [] [] b h = λ e. cc
  past_live (uninit ∷ entries) [] b h = λ e. cc
  past_live (dead ∷ entries) [] b h = λ e. cc
  past_live (live c ∷ entries) [] b h = elim (h.0 tt) [ ]
  past_live [] (a ∷ l) b h = elim h [ ]
  past_live (uninit ∷ entries) (a ∷ l) b h = elim h [ ]
  past_live (dead ∷ entries) (a ∷ l) b h = elim h [ ]
  past_live (live c ∷ entries) (a ∷ l) b h = past_live entries l b h.1

  -- What `push_cloned` makes of a vector that holds elements: the last of them is overwritten, and
  -- the length counts a slot that is not live.
  pub record Overwrites (a : A) (v v' : StaticVec A) (l : List A) : Type 0 where
    pub slots_eq : v'.entries ≡ set v.entries (length l - 1) (live a)
    pub counted : v'.len ≡ length l + 1
    pub contents : read_first (length l) v'.entries ≡ some (set l (length l - 1) a)
    pub not_live : (b : A) → get_elem? v'.entries (length l) ≢ some (live b)
    pub unreadable : as_slice v' ≡ none

  -- On a vector that is not full, `push_cloned` never appends its element. On an empty vector its
  -- index is out of range. On any other it reports success, and changes only the slot of the last
  -- element, which then holds the new one, so that the first slots, as many as there were elements,
  -- read as the old list with its last element replaced. The length goes up by one all the same: the
  -- slot that it counts is not live, and reading the contents afterwards reads that slot.
  pub push_cloned_unsound :
      (capacity : ℕ) (a : A) (v : StaticVec A) (l : List A)
      → Represents capacity v l
      → length l < capacity
      → ((l ≡ []) × (push_cloned a v ≡ none))
        ⊎ ((v' : StaticVec A) × (push_cloned a v ≡ some (true, v')) × Overwrites a v v' l)
  unfolding push_cloned as_slice
  push_cloned_unsound capacity a v [] r lt =
      let more : (0 == capacity) ≡ false = ground arith in
      inl (refl, rw (r.len_eq, r.room, more) refl)
  push_cloned_unsound capacity a v (b ∷ l) r lt =
      let more : (suc (length l) == capacity) ≡ false = ground arith in
      let index : suc (length l) - 1 ≡ length l = omega arith in
      let positive : (suc (length l) == 0) ≡ false = ground arith in
      let room : ltb (length l) capacity ≡ true = ground arith in
      let entries = set v.entries (length l) (live a) in
      let new_list = set (b ∷ l) (length l) a in
      let same : length new_list ≡ suc (length l) = length-set (b ∷ l) (length l) a in
      let holds : Holds entries new_list =
        Holds-set v.entries (b ∷ l) (length l) a r.holds (omega arith) in
      inr (
        record { entries = entries; len = suc (length l) + 1 },
        rw (r.len_eq, r.room, more, positive, index, room) refl,
        record {
          slots_eq = rw index refl;
          counted = refl;
          contents = rw index (
              subst (λ n. read_first n entries ≡ some new_list) same
                (Holds-read_first entries new_list holds));
          not_live = λ c.
              subst (λ n. get_elem? entries n ≢ some (live c)) same
                (past_live entries new_list c holds);
          unreadable =
              subst (λ n. read_first n entries ≡ none) (one_more (length new_list) (length l) same)
                (read_past entries new_list holds);
        },
      )
