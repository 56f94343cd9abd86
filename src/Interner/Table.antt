-- ===== src/Interner/Table.antt =====
-- string_interner.rs: a table is a list of distinct names, and an identifier is a place in it.
use Prim.Native.String.{String}
use text.Mathlib.Text.{◌==◌ as ◌≐◌}
use text.Mathlib.TextEquality.{eq_iff}
use cfw.Prelude.{
  ℕ, zero, suc, ◌+◌, ◌%◌, ◌^◌, ◌==◌, ◌<◌, ◌≡◌, refl, ap, sym, subst, ◌∙◌, ◌⊎◌, inl, inr, false,
  Option, none, some, List, [], ◌∷◌, ◌++◌, length, get_elem?, if◌then◌else◌, arith, Bool-cases,
}
use cfw.Interner.{
  get, put, same_id, same_text, StringInterner, lookup_by_value, intern_new, known_or_new, intern,
}

abbrev pub number : ℕ → List String → List (ℕ × String)
number n [] = []
number n (s ∷ ns) = (n, s) ∷ number (n + 1) ns

abbrev pub places : ℕ → List String → List (String × ℕ)
places n [] = []
places n (s ∷ ns) = (s, n) ∷ places (n + 1) ns

-- The table of some names.
abbrev pub table_of : List String → StringInterner
table_of ns = record { id_to_data = number 0 ns; data_to_id = places 0 ns }

-- Where a name first stands.
abbrev pub index_from : ℕ → String → List String → Option ℕ
index_from n v [] = none
index_from n v (s ∷ ns) = if s ≐ v then some n else index_from (n + 1) v ns

abbrev pub IsNew : String → List String → Type 0
IsNew v [] = Unit {0}
IsNew v (s ∷ ns) = ((s ≐ v) ≡ false) × IsNew v ns

pub get-places :
    (n : ℕ) (v : String) (ns : List String) → get same_text v (places n ns) ≡ index_from n v ns
get-places n v [] = refl
get-places n v (s ∷ ns) = ap (λ r. if s ≐ v then some n else r) (get-places (n + 1) v ns)

pub length-places : (n : ℕ) (ns : List String) → length (places n ns) ≡ length ns
length-places n [] = refl
length-places n (s ∷ ns) = ground (arith, length-places (n + 1) ns)

pub length-number : (n : ℕ) (ns : List String) → length (number n ns) ≡ length ns
length-number n [] = refl
length-number n (s ∷ ns) = ground (arith, length-number (n + 1) ns)

pub get-number : (n i : ℕ) (ns : List String) → get same_id (n + i) (number n ns) ≡ get_elem? ns i
get-number n i [] = refl
get-number n zero (s ∷ ns) = ground arith
get-number n (suc i) (s ∷ ns) =
    let away : (n == n + suc i) ≡ false = ground arith in
    rw away (
      subst (λ k. get same_id k (number (n + 1) ns) ≡ get_elem? ns i) (omega arith)
        (get-number (n + 1) i ns))

put-number :
    (n : ℕ) (v : String) (ns : List String)
    → put same_id (n + length ns) v (number n ns) ≡ number n (ns ++ v ∷ [])
put-number n v [] = ap (λ k. (k, v) ∷ []) (omega arith)
put-number n v (s ∷ ns) =
    let away : (n == n + suc (length ns)) ≡ false = ground arith in
    rw away (
      ap (λ l. (n, s) ∷ l)
        (subst (λ k. put same_id k v (number (n + 1) ns) ≡ number (n + 1) (ns ++ v ∷ []))
          (omega arith) (put-number (n + 1) v ns)))

put-places :
    (n i : ℕ) (v : String) (ns : List String)
    → IsNew v ns
    → n + length ns ≡ i
    → put same_text v i (places n ns) ≡ places n (ns ++ v ∷ [])
put-places n i v [] h e = ap (λ k. (v, k) ∷ []) (omega (arith, e))
put-places n i v (s ∷ ns) h e =
    rw h.0 (ap (λ l. (s, n) ∷ l) (put-places (n + 1) i v ns h.1 (omega (arith, e))))

index_cases :
    (n : ℕ) (v : String) (ns : List String)
    → (IsNew v ns × (index_from n v ns ≡ none))
      ⊎ ((i : ℕ) × (index_from n v ns ≡ some (n + i)) × (get_elem? ns i ≡ some v))
index_cases n v [] = inl (tt, refl)
index_cases n v (s ∷ ns) = elim (Bool-cases (s ≐ v)) [
  | inl same ↦ inr (0, rw same (ap some (omega arith)), ap some ((eq_iff s v).0 same))
  | inr other ↦ elim (index_cases (n + 1) v ns) [
    | inl (fresh, e) ↦ inl ((other, fresh), rw other e)
    | inr (i, e, at) ↦ inr (suc i, rw other (e ∙ ap some (omega arith)), at)
  ]
]

abbrev pub Distinct : List String → Type 0
Distinct [] = Unit {0}
Distinct (s ∷ ns) = IsNew s ns × Distinct ns

pub text_sym : (a b : String) → (a ≐ b) ≡ false → (b ≐ a) ≡ false
text_sym a b e = elim (Bool-cases (b ≐ a)) [
  | inl same ↦
      let p : b ≡ a = (eq_iff b a).0 same in
      subst (λ x. (b ≐ x) ≡ false) p (subst (λ x. (x ≐ b) ≡ false) (sym p) e)
  | inr other ↦ other
]

IsNew-append :
    (s v : String) (ns : List String) → IsNew s ns → (v ≐ s) ≡ false → IsNew s (ns ++ v ∷ [])
IsNew-append s v [] h e = (e, tt)
IsNew-append s v (a ∷ ns) h e = (h.0, IsNew-append s v ns h.1 e)

Distinct-append :
    (v : String) (ns : List String) → Distinct ns → IsNew v ns → Distinct (ns ++ v ∷ [])
Distinct-append v [] d n = (tt, tt)
Distinct-append v (s ∷ ns) d n =
    (IsNew-append s v ns d.0 (text_sym s v n.0), Distinct-append v ns d.1 n.1)

-- How a name is interned in the table of some names.
abbrev pub Interns : String → List String → Type 0
Interns v ns =
    ((i : ℕ) × (get_elem? ns i ≡ some v) × (intern v (table_of ns) ≡ (i, table_of ns)))
    ⊎ (IsNew v ns
        × (intern v (table_of ns) ≡ (length ns, table_of (ns ++ v ∷ [])))
        × Distinct (ns ++ v ∷ []))

pub intern_fresh :
    (v : String) (ns : List String)
    → IsNew v ns
    → length ns < 2 ^ 32
    → index_from 0 v ns ≡ none
    → intern v (table_of ns) ≡ (length ns, table_of (ns ++ v ∷ []))
unfolding intern lookup_by_value
intern_fresh v ns fresh lt e =
    let id : length (places 0 ns) % 2 ^ 32 ≡ length ns = ground (arith, length-places 0 ns) in
    let ids : put same_id (length ns) v (number 0 ns) ≡ number 0 (ns ++ v ∷ []) =
      subst (λ k. put same_id k v (number 0 ns) ≡ number 0 (ns ++ v ∷ [])) (omega arith)
        (put-number 0 v ns) in
    let values : put same_text v (length ns) (places 0 ns) ≡ places 0 (ns ++ v ∷ []) =
      put-places 0 (length ns) v ns fresh (omega arith) in
    ap (λ o. known_or_new o v (table_of ns)) (get-places 0 v ns ∙ e)
    ∙ ap (λ k. intern_new v k (table_of ns)) id
    ∙ rw (ids, values) refl

pub intern_cases : (v : String) (ns : List String) → Distinct ns → length ns < 2 ^ 32 → Interns v ns
unfolding intern lookup_by_value
intern_cases v ns d lt = elim (index_cases 0 v ns) [
  | inl (fresh, e) ↦ inr (fresh, intern_fresh v ns fresh lt e, Distinct-append v ns d fresh)
  | inr (i, e, at) ↦ inl (
    i,
    at,
    ap (λ o. known_or_new o v (table_of ns)) (get-places 0 v ns ∙ e ∙ ap some (omega arith)),
  )
]
