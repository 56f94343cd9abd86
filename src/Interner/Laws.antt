-- ===== src/Interner/Laws.antt =====
-- string_interner.rs: identifiers are stable, and a written table is read back.
use Prim.Native.String.{String}
use text.Mathlib.Text.{◌==◌ as ◌≐◌}
use mathlib.Core.List.{append_assoc, append-nil}
use cfw.Prelude.{
  ℕ, zero, suc, ◌+◌, ◌%◌, ◌^◌, ◌≤◌, ◌<◌, ◌≡◌, refl, ap, sym, subst, ◌∙◌, inl, inr, false, none,
  some, List, [], ◌∷◌, ◌++◌, length, length-append, get_elem?, if◌then◌else◌, arith,
}
use cfw.Prelude.Result.{ok, err}
use cfw.Interner.Table.{
  number, table_of, index_from, IsNew, Distinct, get-places, length-number, get-number, text_sym,
  intern_fresh, intern_cases,
}
use cfw.Interner.{
  get, same_id, StringInterner, new, lookup_by_value, try_lookup_by_id, intern, names_from, names,
  is_known, load, deserialize,
}

-- A table that any interning builds.
abbrev pub intern_all : List String → StringInterner → StringInterner
intern_all [] t = t
intern_all (v ∷ vs) t = intern_all vs (intern v t).1

interned_from :
    (vs ns : List String)
    → Distinct ns
    → length ns + length vs ≤ 2 ^ 32
    → (ns' : List String) × (intern_all vs (table_of ns) ≡ table_of ns')
      × Distinct ns'
      × (length ns' ≤ 2 ^ 32)
interned_from [] ns d le = (ns, refl, d, omega (arith, le))
interned_from (v ∷ vs) ns d le = elim (intern_cases v ns d (omega (arith, le))) [
  | inl (i, at, e) ↦
      let (ns', f, d', le') = interned_from vs ns d (omega (arith, le)) in
      (ns', ap (λ r. intern_all vs r.1) e ∙ f, d', le')
  | inr (fresh, e, d1) ↦
      let (ns', f, d', le') =
        interned_from vs (ns ++ v ∷ []) d1 (ground (arith, le, length-append ns (v ∷ []))) in
      (ns', ap (λ r. intern_all vs r.1) e ∙ f, d', le')
]

get_elem?-middle :
    (pre ns : List String) (s : String) → get_elem? (pre ++ s ∷ ns) (length pre) ≡ some s
get_elem?-middle [] ns s = refl
get_elem?-middle (a ∷ pre) ns s = get_elem?-middle pre ns s

lookup_at :
    (pre ns : List String) (s : String)
    → length pre < 2 ^ 32
    → try_lookup_by_id (length pre % 2 ^ 32) (table_of (pre ++ s ∷ ns)) ≡ some s
unfolding try_lookup_by_id
lookup_at pre ns s lt =
    let index : length pre % 2 ^ 32 ≡ 0 + length pre = ground arith in
    ap (λ k. get same_id k (number 0 (pre ++ s ∷ ns))) index
    ∙ get-number 0 (length pre) (pre ++ s ∷ ns)
    ∙ get_elem?-middle pre ns s

index_from-IsNew : (n : ℕ) (v : String) (ns : List String) → IsNew v ns → index_from n v ns ≡ none
index_from-IsNew n v [] h = refl
index_from-IsNew n v (s ∷ ns) h = rw h.0 (index_from-IsNew (n + 1) v ns h.1)

IsNew-middle :
    (s v : String) (done rest : List String) → IsNew s (done ++ v ∷ rest) → (v ≐ s) ≡ false
IsNew-middle s v [] rest h = h.0
IsNew-middle s v (a ∷ done) rest h = IsNew-middle s v done rest h.1

Distinct-middle :
    (done rest : List String) (v : String) → Distinct (done ++ v ∷ rest) → IsNew v done
Distinct-middle [] rest v d = tt
Distinct-middle (s ∷ done) rest v d =
    (text_sym v s (IsNew-middle s v done rest d.0), Distinct-middle done rest v d.1)

-- Writing a table gives its names.
names_from_lem :
    (pre ns : List String)
    → length pre + length ns ≤ 2 ^ 32
    → names_from (length pre) (length ns) (table_of (pre ++ ns)) ≡ some ns
unfolding names_from try_lookup_by_id
names_from_lem pre [] le = refl
names_from_lem pre (s ∷ ns) le =
    let longer : length (pre ++ s ∷ []) ≡ length pre + 1 = length-append pre (s ∷ []) in
    let same : (pre ++ s ∷ []) ++ ns ≡ pre ++ s ∷ ns = append_assoc pre (s ∷ []) ns in
    let rest : names_from (length pre + 1) (length ns) (table_of (pre ++ s ∷ ns)) ≡ some ns =
      subst (λ k. names_from k (length ns) (table_of (pre ++ s ∷ ns)) ≡ some ns) longer
        (subst (λ l. names_from (length (pre ++ s ∷ [])) (length ns) (table_of l) ≡ some ns) same
          (names_from_lem (pre ++ s ∷ []) ns (ground (arith, le, longer)))) in
    rw (lookup_at pre ns s (omega (arith, le)), rest) refl

-- Loading distinct names gives their table.
load_lem :
    (done rest : List String)
    → Distinct (done ++ rest)
    → length done + length rest ≤ 2 ^ 32
    → load rest (table_of done) ≡ ok (table_of (done ++ rest))
unfolding load lookup_by_value
load_lem done [] d le = rw append-nil refl
load_lem done (v ∷ rest) d le =
    let fresh = Distinct-middle done rest v d in
    let lt : length done < 2 ^ 32 = omega (arith, le) in
    let none_yet = index_from-IsNew 0 v done fresh in
    let same : (done ++ v ∷ []) ++ rest ≡ done ++ v ∷ rest = append_assoc done (v ∷ []) rest in
    ap (λ o. if is_known o then err tt else load rest (intern v (table_of done)).1)
      (get-places 0 v done ∙ none_yet)
    ∙ ap (λ r. load rest r.1) (intern_fresh v done fresh lt none_yet)
    ∙ subst (λ l. load rest (table_of (done ++ v ∷ [])) ≡ ok (table_of l)) same
        (load_lem (done ++ v ∷ []) rest (subst Distinct (sym same) d)
          (ground (arith, le, length-append done (v ∷ []))))

-- Interning any values, at most 2^32 of them, into an empty table builds a table that is written
-- without a panic, and reading back what was written gives exactly that table again, with the same
-- identifier for every name.
pub intern_all_roundtrip :
    (vs : List String)
    → length vs ≤ 2 ^ 32
    → (ns : List String) × (names (intern_all vs new) ≡ some ns)
      × (deserialize ns ≡ ok (intern_all vs new))
unfolding names deserialize
intern_all_roundtrip vs le =
    let (ns, e, d, bound) = interned_from vs [] tt (omega (arith, le)) in
    let written : names (table_of ns) ≡ some ns =
      ap (λ k. names_from 0 k (table_of ns)) (length-number 0 ns)
      ∙ names_from_lem [] ns (omega (arith, bound)) in
    let loaded : load ns new ≡ ok (table_of ns) = load_lem [] ns d (omega (arith, bound)) in
    (ns, ap names e ∙ written, loaded ∙ ap ok (sym e))

get-number_zero : (i : ℕ) (ns : List String) → get same_id i (number 0 ns) ≡ get_elem? ns i
get-number_zero i ns =
    subst (λ k. get same_id k (number 0 ns) ≡ get_elem? ns i) (omega arith) (get-number 0 i ns)

get_elem?-extend :
    (ns more : List String) (i : ℕ) (s : String)
    → get_elem? ns i ≡ some s
    → get_elem? (ns ++ more) i ≡ some s
get_elem?-extend [] more i s e = cc
get_elem?-extend (a ∷ ns) more zero s e = e
get_elem?-extend (a ∷ ns) more (suc i) s e = get_elem?-extend ns more i s e

-- An identifier and a table in which it stands for a value, and which keeps all earlier names.
abbrev Keeps : String → List String → ℕ × StringInterner → Type 0
Keeps v ns r =
    (try_lookup_by_id r.0 r.1 ≡ some v)
    × ((i : ℕ) (s : String)
        → try_lookup_by_id i (table_of ns) ≡ some s
        → try_lookup_by_id i r.1 ≡ some s)

-- Interning a value into any table of fewer than 2^32 distinct names gives an identifier that is
-- looked up as that value; every identifier that stood for a
-- name before stands for the same name after.
pub intern_lem :
    (v : String) (ns : List String)
    → Distinct ns
    → length ns < 2 ^ 32
    → (try_lookup_by_id (intern v (table_of ns)).0 (intern v (table_of ns)).1 ≡ some v)
      × ((i : ℕ) (s : String)
          → try_lookup_by_id i (table_of ns) ≡ some s
          → try_lookup_by_id i (intern v (table_of ns)).1 ≡ some s)
unfolding try_lookup_by_id
intern_lem v ns d lt = elim (intern_cases v ns d lt) [
  | inl (i, at, e) ↦ subst (Keeps v ns) (sym e) (get-number_zero i ns ∙ at, λ j s h. h)
  | inr (fresh, e, d1) ↦ subst (Keeps v ns) (sym e) (
    get-number_zero (length ns) (ns ++ v ∷ []) ∙ get_elem?-middle ns [] v,
    λ j s h.
        get-number_zero j (ns ++ v ∷ [])
        ∙ get_elem?-extend ns (v ∷ []) j s (sym (get-number_zero j ns) ∙ h),
  )
]
