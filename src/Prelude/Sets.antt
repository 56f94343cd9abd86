-- ===== src/Prelude/Sets.antt =====
-- Sets as lists, over a Boolean equality; lists none of whose elements repeats one before it.
use mathlib.Core.Path.{◌≡◌, refl}
use mathlib.Core.Logic.{◌↔◌}
use mathlib.Core.Bool.{Bool, true, false, ◌||◌}
use mathlib.Core.Option.{Option, none, some}
use mathlib.Core.List.{List, [], ◌∷◌, ◌++◌}

abbrev pub is_some {ℓ} : {A : Type ℓ} → Option A → Bool
is_some none = false
is_some (some a) = true

module _ {A : Type 0} (same : A → A → Bool) where
  abbrev pub contains : A → List A → Bool
  contains a [] = false
  contains a (x ∷ xs) = same x a || contains a xs

  abbrev pub NoRepeat : List A → List A → Type 0
  NoRepeat seen [] = Unit {0}
  NoRepeat seen (x ∷ xs) = (contains x seen ≡ false) × NoRepeat (x ∷ seen) xs

-- The elements of a list, put in front one by one.
abbrev pub push_all : {A : Type 0} → List A → List A → List A
push_all [] seen = seen
push_all (x ∷ xs) seen = push_all xs (x ∷ seen)

pub NoRepeat-append :
    {A : Type 0} (same : A → A → Bool) (xs ys seen : List A)
    → NoRepeat same seen (xs ++ ys) ↔ (NoRepeat same seen xs × NoRepeat same (push_all xs seen) ys)
NoRepeat-append same [] ys seen = (λ h. (tt, h), λ h. h.1)
NoRepeat-append same (x ∷ xs) ys seen =
    let (there, back) = NoRepeat-append same xs ys (x ∷ seen) in
    (λ h. ((h.0, (there h.1).0), (there h.1).1), λ h. (h.0.0, back (h.0.1, h.1)))

pub push_all-append :
    {A : Type 0} (xs ys seen : List A) → push_all (xs ++ ys) seen ≡ push_all ys (push_all xs seen)
push_all-append [] ys seen = refl
push_all-append (x ∷ xs) ys seen = push_all-append xs ys (x ∷ seen)
