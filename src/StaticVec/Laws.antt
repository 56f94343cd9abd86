-- ===== src/StaticVec/Laws.antt =====
-- static_vec.rs: a vector represents a list, and every operation acts on that list.
use cfw.Prelude.{
  ℕ, zero, suc, ◌≤◌, ◌<◌, ◌≡◌, refl, ap, some, List, [], ◌∷◌, ◌++◌, length, get_elem?, set,
  replicate, arith,
}
use cfw.StaticVec.{Slot, uninit, dead, live, StaticVec, drop_first, read_first}

module _ {A : Type 0} where
  abbrev pub IsLive : Slot A → Type 0
  IsLive uninit = ⊥
  IsLive dead = ⊥
  IsLive (live a) = Unit {0}

  abbrev pub NoneLive : List (Slot A) → Type 0
  NoneLive [] = Unit {0}
  NoneLive (slot ∷ entries) = (¬ IsLive slot) × NoneLive entries

  -- The live slots are the first ones, and hold the list.
  abbrev pub Holds : List (Slot A) → List A → Type 0
  Holds entries [] = NoneLive entries
  Holds [] (a ∷ l) = ⊥
  Holds (uninit ∷ entries) (a ∷ l) = ⊥
  Holds (dead ∷ entries) (a ∷ l) = ⊥
  Holds (live b ∷ entries) (a ∷ l) = (b ≡ a) × Holds entries l

  pub record Represents (capacity : ℕ) (v : StaticVec A) (l : List A) : Type 0 where
    pub room : length v.entries ≡ capacity
    pub len_eq : v.len ≡ length l
    pub holds : Holds v.entries l

  pub Holds-push :
      (entries : List (Slot A)) (l : List A) (a : A)
      → Holds entries l
      → length l < length entries
      → Holds (set entries (length l) (live a)) (l ++ a ∷ [])
  Holds-push [] l a h lt = elim lt [ ]
  Holds-push (slot ∷ entries) [] a h lt = (refl, h.1)
  Holds-push (uninit ∷ entries) (b ∷ l) a h lt = elim h [ ]
  Holds-push (dead ∷ entries) (b ∷ l) a h lt = elim h [ ]
  Holds-push (live c ∷ entries) (b ∷ l) a h lt = (h.0, Holds-push entries l a h.1 (omega arith))

  pub Holds-pop :
      (entries : List (Slot A)) (l : List A) (a : A) (slot : Slot A)
      → Holds entries (l ++ a ∷ [])
      → ¬ IsLive slot
      → (get_elem? entries (length l) ≡ some (live a)) × Holds (set entries (length l) slot) l
  Holds-pop [] [] a slot h n = elim h [ ]
  Holds-pop [] (b ∷ l) a slot h n = elim h [ ]
  Holds-pop (uninit ∷ entries) [] a slot h n = elim h [ ]
  Holds-pop (dead ∷ entries) [] a slot h n = elim h [ ]
  Holds-pop (live c ∷ entries) [] a slot h n = (ap (λ x. some (live x)) h.0, (n, h.1))
  Holds-pop (uninit ∷ entries) (b ∷ l) a slot h n = elim h [ ]
  Holds-pop (dead ∷ entries) (b ∷ l) a slot h n = elim h [ ]
  Holds-pop (live c ∷ entries) (b ∷ l) a slot h n =
      let (at, rest) = Holds-pop entries l a slot h.1 n in (at, (h.0, rest))

  pub Holds-length :
      (entries : List (Slot A)) (l : List A) → Holds entries l → length l ≤ length entries
  Holds-length entries [] h = ground arith
  Holds-length [] (a ∷ l) h = elim h [ ]
  Holds-length (uninit ∷ entries) (a ∷ l) h = elim h [ ]
  Holds-length (dead ∷ entries) (a ∷ l) h = elim h [ ]
  Holds-length (live b ∷ entries) (a ∷ l) h = ground (arith, Holds-length entries l h.1)

  pub Holds-drop_first :
      (entries : List (Slot A)) (l : List A)
      → Holds entries l
      → (entries' : List (Slot A)) × (drop_first (length l) entries ≡ some entries')
        × (length entries' ≡ length entries)
        × NoneLive entries'
  unfolding drop_first
  Holds-drop_first entries [] h = (entries, refl, refl, h)
  Holds-drop_first [] (a ∷ l) h = elim h [ ]
  Holds-drop_first (uninit ∷ entries) (a ∷ l) h = elim h [ ]
  Holds-drop_first (dead ∷ entries) (a ∷ l) h = elim h [ ]
  Holds-drop_first (live b ∷ entries) (a ∷ l) h =
      let (rest, e, len, none_live) = Holds-drop_first entries l h.1 in
      (dead ∷ rest, rw e refl, ground (arith, len), ((λ x. x), none_live))

  pub Holds-read_first :
      (entries : List (Slot A)) (l : List A)
      → Holds entries l
      → read_first (length l) entries ≡ some l
  unfolding read_first
  Holds-read_first entries [] h = refl
  Holds-read_first [] (a ∷ l) h = elim h [ ]
  Holds-read_first (uninit ∷ entries) (a ∷ l) h = elim h [ ]
  Holds-read_first (dead ∷ entries) (a ∷ l) h = elim h [ ]
  Holds-read_first (live b ∷ entries) (a ∷ l) h =
      rw (Holds-read_first entries l h.1) (ap (λ x. some (x ∷ l)) h.0)

pub Holds-set :
    {A : Type 0} (entries : List (Slot A)) (l : List A) (i : ℕ) (a : A)
    → Holds entries l
    → i < length l
    → Holds (set entries i (live a)) (set l i a)
Holds-set entries [] i a h lt = elim lt [ ]
Holds-set [] (b ∷ l) i a h lt = elim h [ ]
Holds-set (uninit ∷ entries) (b ∷ l) i a h lt = elim h [ ]
Holds-set (dead ∷ entries) (b ∷ l) i a h lt = elim h [ ]
Holds-set (live c ∷ entries) (b ∷ l) zero a h lt = (refl, h.1)
Holds-set (live c ∷ entries) (b ∷ l) (suc i) a h lt =
    (h.0, Holds-set entries l i a h.1 (omega arith))

pub NoneLive-replicate : (A : Type 0) (n : ℕ) → NoneLive (replicate {A = Slot A} n uninit)
NoneLive-replicate A zero = tt
NoneLive-replicate A (suc n) = ((λ h. h), NoneLive-replicate A n)
