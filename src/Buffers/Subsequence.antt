-- ===== src/Buffers/Subsequence.antt =====
-- double_buffer.rs: what a queue or a buffer keeps of a list, in its order.
use cfw.Prelude.{ℕ, ◌+◌, ◌≤◌, arith, inl, inr, List, [], ◌∷◌, ◌++◌, length, leb, Bool-cases}
use cfw.Buffers.{rest_of}
use cfw.Buffers.DoubleBuffer.{kept_before, without_last}
use cfw.Buffers.Laws.{keep_last}

-- Some elements of a list, in their order.
pub data Subsequence {A : Type 0} : List A → List A → Type 0 where
  nothing : Subsequence [] []
  taken : (x : A) {xs ys : List A} → Subsequence xs ys → Subsequence (x ∷ xs) (x ∷ ys)
  lost : (y : A) {xs ys : List A} → Subsequence xs ys → Subsequence xs (y ∷ ys)

module _ {A : Type 0} where
  pub Subsequence-refl : (xs : List A) → Subsequence xs xs
  Subsequence-refl [] = nothing
  Subsequence-refl (x ∷ xs) = taken x (Subsequence-refl xs)

  pub Subsequence-trans :
      {ys zs : List A} → Subsequence ys zs → {xs : List A} → Subsequence xs ys → Subsequence xs zs
  Subsequence-trans nothing p = p
  Subsequence-trans (lost z q) p = lost z (Subsequence-trans q p)
  Subsequence-trans (taken y q) (taken x p) = taken y (Subsequence-trans q p)
  Subsequence-trans (taken y q) (lost x p) = lost y (Subsequence-trans q p)

  pub Subsequence-append :
      {xs xs' : List A} (ys ys' : List A)
      → Subsequence xs xs'
      → Subsequence ys ys'
      → Subsequence (xs ++ ys) (xs' ++ ys')
  Subsequence-append ys ys' nothing q = q
  Subsequence-append ys ys' (taken x p) q = taken x (Subsequence-append ys ys' p q)
  Subsequence-append ys ys' (lost x p) q = lost x (Subsequence-append ys ys' p q)

  pub rest-Subsequence : (xs : List A) → Subsequence (rest_of xs) xs
  rest-Subsequence [] = nothing
  rest-Subsequence (x ∷ xs) = lost x (Subsequence-refl xs)

  pub keep_last-Subsequence : (n : ℕ) (xs : List A) → Subsequence (keep_last n xs) xs
  keep_last-Subsequence n [] = nothing
  keep_last-Subsequence n (x ∷ xs) = elim (Bool-cases (leb (length xs + 1) n)) [
    | inl short ↦ rw short (Subsequence-refl (x ∷ xs))
    | inr long ↦ rw long (lost x (keep_last-Subsequence n xs))
  ]

  kept_before-Subsequence : (x : A) (xs : List A) → Subsequence (kept_before x xs) (x ∷ xs)
  kept_before-Subsequence x [] = lost x nothing
  kept_before-Subsequence x (y ∷ ys) = taken x (kept_before-Subsequence y ys)

  pub without_last-Subsequence : (xs : List A) → Subsequence (without_last xs) xs
  without_last-Subsequence [] = nothing
  without_last-Subsequence (x ∷ xs) = kept_before-Subsequence x xs

  pub Subsequence-length : {xs ys : List A} → Subsequence xs ys → length xs ≤ length ys
  Subsequence-length nothing = omega arith
  Subsequence-length (taken x p) = omega (arith, Subsequence-length p)
  Subsequence-length (lost y p) = omega (arith, Subsequence-length p)

  pub nothing-Subsequence : (xs : List A) → Subsequence [] xs
  nothing-Subsequence [] = nothing
  nothing-Subsequence (x ∷ xs) = lost x (nothing-Subsequence xs)
