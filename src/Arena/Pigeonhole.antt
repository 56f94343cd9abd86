-- ===== src/Arena/Pigeonhole.antt =====
-- arena.rs: an index that is not on a free list without repetitions leaves it a place.
use cfw.Prelude.{
  ℕ, zero, suc, ◌+◌, ◌≤◌, ◌<◌, ◌≡◌, ltb, List, [], ◌∷◌, length, arith, subst, Bool, true, false,
  refl,
}
use cfw.Arena.Weights.{one_if, occurrences}

abbrev sum_below : (ℕ → ℕ) → ℕ → ℕ
sum_below f zero = 0
sum_below f (suc n) = f n + sum_below f n

sum_below_le : (f : ℕ → ℕ) (n : ℕ) → ((i : ℕ) → f i ≤ 1) → sum_below f n ≤ n
sum_below_le f zero h = omega arith
sum_below_le f (suc n) h = omega (arith, h n, sum_below_le f n h)

sum_below_lt : (f : ℕ → ℕ) (n j : ℕ) → ((i : ℕ) → f i ≤ 1) → f j ≡ 0 → j < n → sum_below f n < n
sum_below_lt f zero j h z l = elim l [ ]
sum_below_lt f (suc n) j h z l = go (sum_below_lt f n j h z) (ltb j n) refl
  where
    go : (j < n → sum_below f n < n) → (b : Bool) → ltb j n ≡ b → sum_below f (suc n) < suc n
    go k true e = omega (arith, h n, k (ground (arith, e)))
    go k false e =
        let same : j ≡ n = ground (arith, e, l) in
        omega (arith, subst (λ k. f k ≡ 0) same z, sum_below_le f n h)

sum_below-occurrences :
    (n j : ℕ) (js : List ℕ)
    → sum_below (λ i. occurrences i (j ∷ js)) n
      ≡ one_if (ltb j n) + sum_below (λ i. occurrences i js) n
unfolding occurrences
sum_below-occurrences zero j js = ground arith
sum_below-occurrences (suc n) j js = ground (arith, sum_below-occurrences n j js)

length-sum_below :
    (n : ℕ) (js : List ℕ)
    → ((i : ℕ) → n ≤ i → occurrences i js ≡ 0)
    → length js ≡ sum_below (λ i. occurrences i js) n
unfolding occurrences
length-sum_below zero [] h = refl
length-sum_below (suc n) [] h = omega (arith, length-sum_below n [] (λ i l. refl))
length-sum_below n (j ∷ js) h =
    ground (
      arith,
      sum_below-occurrences n j js,
      h j,
      length-sum_below n js (λ i l. ground (arith, h i l)),
    )

-- A free list of indices below n, each at most once, without the index j below n, is shorter than n.
pub length-free_lt :
    (n j : ℕ) (free : List ℕ)
    → ((i : ℕ) → occurrences i free ≤ one_if (ltb i n))
    → occurrences j free ≡ 0
    → j < n
    → length free < n
length-free_lt n j free h z l = omega (
  arith,
  length-sum_below n free (λ i m. ground (arith, h i)),
  sum_below_lt (λ i. occurrences i free) n j (λ i. ground (arith, h i)) z l,
)
