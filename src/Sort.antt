-- ===== src/Sort.antt =====
-- The standard library's stable sort (`sort_by_key`, and `sort_unstable` where no two keys are
-- equal), over a Boolean order, and the merge of two sorted sequences.
use mathlib.Core.List.{append_assoc, append-nil}
use cfw.Prelude.{
  ◌≡◌, refl, ap, sym, ◌∙◌, inl, inr, Bool, true, false, List, [], ◌∷◌, ◌++◌, if◌then◌else◌, All,
  All-append, All-map, arith, Bool-cases,
}

-- A total preorder, as a test.
pub record TotalOrder {ℓ} {A : Type ℓ} (le : A → A → Bool) : Type ℓ where
  pub total : (a b : A) → le a b ≡ false → le b a ≡ true
  pub trans : (a b c : A) → le a b ≡ true → le b c ≡ true → le a c ≡ true

module _ {ℓ} {A : Type ℓ} (le : A → A → Bool) where
  unfoldable pub insert : A → List A → List A
  insert x [] = x ∷ []
  insert x (y ∷ l) = if le x y then x ∷ y ∷ l else y ∷ insert x l

  unfoldable pub sort : List A → List A
  unfolding insert
  sort [] = []
  sort (x ∷ l) = insert x (sort l)

  unfoldable pub merge : List A → List A → List A
  merge [] m = m
  merge (a ∷ l) [] = a ∷ l
  merge (a ∷ l) (b ∷ m) = elim (le a b) [ true ↦ a ∷ merge l (b ∷ m) | false ↦ b ∷ merge (a ∷ l) m ]

  abbrev pub IsSorted : List A → Type 0
  IsSorted [] = Unit
  IsSorted (x ∷ l) = All (λ y. le x y ≡ true) l × IsSorted l

module _ {ℓ} {A : Type ℓ} (le : A → A → Bool) (o : TotalOrder le) where
  pub All-insert {κ} : (P : A → Type κ) (x : A) (l : List A) → P x → All P l → All P (insert le x l)
  unfolding insert
  All-insert P x [] p a = (p, tt)
  All-insert P x (y ∷ l) p a = elim (Bool-cases (le x y)) [
    | inl e ↦ rw e (p, a)
    | inr e ↦ rw e (a.0, All-insert P x l p a.1)
  ]

  pub All-sort {κ} : (P : A → Type κ) (l : List A) → All P l → All P (sort le l)
  unfolding sort
  All-sort P [] a = tt
  All-sort P (x ∷ l) a = All-insert P x (sort le l) a.0 (All-sort P l a.1)

  insert-IsSorted : (x : A) (l : List A) → IsSorted le l → IsSorted le (insert le x l)
  unfolding insert
  insert-IsSorted x [] s = (tt, tt)
  insert-IsSorted x (y ∷ l) s = elim (Bool-cases (le x y)) [
    | inl e ↦ rw e ((e, All-map (λ z h. o.trans x y z e h) l s.0), s)
    | inr e ↦
        rw e (All-insert (λ z. le y z ≡ true) x l (o.total x y e) s.0, insert-IsSorted x l s.1)
  ]

  pub sort-IsSorted : (l : List A) → IsSorted le (sort le l)
  unfolding sort
  sort-IsSorted [] = tt
  sort-IsSorted (x ∷ l) = insert-IsSorted x (sort le l) (sort-IsSorted l)

  -- A least element goes in front.
  insert_least : (x : A) (l : List A) → All (λ y. le x y ≡ true) l → insert le x l ≡ x ∷ l
  unfolding insert
  insert_least x [] h = refl
  insert_least x (y ∷ l) h = rw h.0

  pub sort_sorted : (l : List A) → IsSorted le l → sort le l ≡ l
  unfolding sort
  sort_sorted [] s = refl
  sort_sorted (x ∷ l) s = rw (sort_sorted l s.1) (insert_least x l s.0)

  merge-nil : (l : List A) → merge le l [] ≡ l
  unfolding merge
  merge-nil [] = refl
  merge-nil (a ∷ l) = refl

  merge-insert : (x : A) (l m : List A) → merge le (insert le x l) m ≡ insert le x (merge le l m)
  unfolding merge insert
  merge-insert x [] [] = refl
  merge-insert x [] (b ∷ m) = ground (arith, merge-insert x [] m)
  merge-insert x (a ∷ l) [] = rw (merge-nil (if le x a then x ∷ a ∷ l else a ∷ insert le x l))
  merge-insert x (a ∷ l) (b ∷ m) = ground (
    arith,
    merge-insert x l (b ∷ m),
    merge-insert x (a ∷ l) m,
    o.total a b,
    o.total x a,
    o.total x b,
    o.trans x a b,
    o.trans x b a,
  )

  -- Merging two sorted halves is sorting the whole: elements that tie keep their order, the left
  -- half's first.
  pub merge-sort : (xs ys : List A) → merge le (sort le xs) (sort le ys) ≡ sort le (xs ++ ys)
  unfolding sort merge
  merge-sort [] ys = refl
  merge-sort (x ∷ xs) ys = rw (merge-insert x (sort le xs) (sort le ys), merge-sort xs ys)

-- Where two elements that satisfy `P` tie only if they are equal, the order of the input is
-- forgotten.
module _ {ℓ κ} {A : Type ℓ} (le : A → A → Bool) (o : TotalOrder le) (P : A → Type κ)
    (antisym : (a b : A) → P a → P b → le a b ≡ true → le b a ≡ true → a ≡ b) where
  insert_comm :
      (x y : A) (l : List A) → P x → P y → insert le x (insert le y l) ≡ insert le y (insert le x l)
  unfolding insert
  insert_comm x y [] p q = ground (arith, o.total x y, o.total y x, antisym x y p q)
  insert_comm x y (z ∷ l) p q = ground (
    arith,
    insert_comm x y l p q,
    o.total x y,
    o.total y x,
    antisym x y p q,
    o.total x z,
    o.total y z,
    o.trans x y z,
    o.trans y x z,
  )

  pub sort-middle :
      (xs : List A) (y : A) (zs : List A)
      → All P xs
      → P y
      → sort le (xs ++ y ∷ zs) ≡ insert le y (sort le (xs ++ zs))
  unfolding sort
  sort-middle [] y zs a p = refl
  sort-middle (x ∷ xs) y zs a p =
      rw (sort-middle xs y zs a.1 p) (insert_comm x y (sort le (xs ++ zs)) a.0 p)

  pub sort-append_comm :
      (xs ys : List A) → All P xs → All P ys → sort le (xs ++ ys) ≡ sort le (ys ++ xs)
  unfolding sort
  sort-append_comm xs [] a b = rw append-nil
  sort-append_comm xs (y ∷ ys) a b = rw (sort-middle xs y ys a b.0, sort-append_comm xs ys a b.1)

  -- An element may move over part of the input.
  pub sort-move_left :
      (pre post : List A) (x : A) (rest : List A)
      → All P pre
      → All P post
      → P x
      → sort le ((pre ++ x ∷ post) ++ rest) ≡ sort le ((pre ++ post) ++ x ∷ rest)
  sort-move_left pre post x rest a b p = rw (append_assoc pre (x ∷ post) rest) (
      sort-middle pre x (post ++ rest) a p
      ∙ ap (λ l. insert le x (sort le l)) (sym (append_assoc pre post rest))
      ∙ sym (sort-middle (pre ++ post) x rest (All-append P pre post a b) p))
