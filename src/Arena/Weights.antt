-- ===== src/Arena/Weights.antt =====
-- arena.rs: what each holder counts for at an index, and the invariant that the sums obey.
use cfw.Prelude.{
  ℕ, zero, suc, ◌+◌, ◌≤◌, ◌≡◌, Bool, true, ◌&&◌, Option, none, some, List, [], ◌∷◌, ◌++◌, length,
  length-set, get_elem?, set, ◌==◌, ltb, if◌then◌else◌, total, total-set, total-append, arith,
}
use cfw.Buffers.{ArrayQueue}
use cfw.Arena.{
  Payload, uninit, Slot, Holder, taken, loan, pointer, destroying, clearing, returning, dropping,
  gone, Arena, is_live, at_place, with_slot,
}

abbrev pub one_if : Bool → ℕ
one_if b = if b then 1 else 0

-- A holder that must be the only one of its slot, and one that may share it.
unfoldable pub solo : ℕ → Holder → ℕ
solo i (loan j) = one_if (i == j)
solo i (destroying j) = one_if (i == j)
solo i (clearing j) = one_if (i == j)
solo i (dropping j c) = one_if (i == j && c == 1)
solo i (taken j) = 0
solo i (pointer j) = 0
solo i (returning j) = 0
solo i gone = 0

unfoldable pub shared : ℕ → Holder → ℕ
shared i (pointer j) = one_if (i == j)
shared i (dropping j c) = if c == 1 then 0 else one_if (i == j)
shared i (loan j) = 0
shared i (destroying j) = 0
shared i (clearing j) = 0
shared i (taken j) = 0
shared i (returning j) = 0
shared i gone = 0

-- A holder of an index that counts for no reference.
unfoldable pub parked : ℕ → Holder → ℕ
parked i (taken j) = one_if (i == j)
parked i (returning j) = one_if (i == j)
parked i (loan j) = 0
parked i (pointer j) = 0
parked i (dropping j c) = 0
parked i (destroying j) = 0
parked i (clearing j) = 0
parked i gone = 0

-- A holder that reads the payload, or destroys it.
unfoldable pub needing : ℕ → Holder → ℕ
needing i (pointer j) = one_if (i == j)
needing i (dropping j c) = one_if (i == j)
needing i (destroying j) = one_if (i == j)
needing i (loan j) = 0
needing i (clearing j) = 0
needing i (taken j) = 0
needing i (returning j) = 0
needing i gone = 0

unfoldable pub occurrences : ℕ → List ℕ → ℕ
occurrences i [] = 0
occurrences i (j ∷ js) = one_if (i == j) + occurrences i js

abbrev pub count_at : Option Slot → ℕ
count_at none = 0
count_at (some s) = s.ref_count

abbrev pub payload_at : Option Slot → Payload
payload_at none = uninit
payload_at (some s) = s.payload

abbrev pub sign : ℕ → ℕ
sign n = if n == 0 then 0 else 1

pub count-set :
    (slots : List Slot) (j i : ℕ) (s s' : Slot)
    → get_elem? slots j ≡ some s
    → count_at (get_elem? (set slots j s') i)
      ≡ (if j == i then s'.ref_count else count_at (get_elem? slots i))
count-set [] j i s s' e = cc
count-set (t ∷ slots) zero zero s s' e = ground arith
count-set (t ∷ slots) zero (suc i) s s' e = ground arith
count-set (t ∷ slots) (suc j) zero s s' e = ground arith
count-set (t ∷ slots) (suc j) (suc i) s s' e = ground (arith, count-set slots j i s s' e)

pub payload-set :
    (slots : List Slot) (j i : ℕ) (s s' : Slot)
    → get_elem? slots j ≡ some s
    → payload_at (get_elem? (set slots j s') i)
      ≡ (if j == i then s'.payload else payload_at (get_elem? slots i))
payload-set [] j i s s' e = cc
payload-set (t ∷ slots) zero zero s s' e = ground arith
payload-set (t ∷ slots) zero (suc i) s s' e = ground arith
payload-set (t ∷ slots) (suc j) zero s s' e = ground arith
payload-set (t ∷ slots) (suc j) (suc i) s s' e = ground (arith, payload-set slots j i s s' e)

pub occurrences-append :
    (i j : ℕ) (free : List ℕ)
    → occurrences i (free ++ j ∷ []) ≡ occurrences i free + one_if (i == j)
unfolding occurrences
occurrences-append i j [] = omega arith
occurrences-append i j (k ∷ free) = omega (arith, occurrences-append i j free)

needing_le : (i : ℕ) (x : Holder) → needing i x ≤ solo i x + shared i x
unfolding needing solo shared
needing_le i (taken j) = omega arith
needing_le i (loan j) = ground arith
needing_le i (pointer j) = ground arith
needing_le i (destroying j) = ground arith
needing_le i (clearing j) = ground arith
needing_le i (returning j) = omega arith
needing_le i (dropping j c) = ground arith
needing_le i gone = omega arith

needing-total :
    (i : ℕ) (xs : List Holder) → total (needing i) xs ≤ total (solo i) xs + total (shared i) xs
unfolding total
needing-total i [] = omega arith
needing-total i (x ∷ xs) = omega (arith, needing_le i x, needing-total i xs)

total-one :
    (w : Holder → ℕ) (xs : List Holder) (y : Holder) → total w (xs ++ y ∷ []) ≡ total w xs + w y
unfolding total
total-one w xs y = omega (arith, total-append w xs (y ∷ []))

module _ ⦃queue : ArrayQueue ℕ⦄ where
  abbrev pub count_of : Arena → ℕ → ℕ
  count_of a i = count_at (get_elem? a.slots i)

  abbrev pub payload_of : Arena → ℕ → Payload
  payload_of a i = payload_at (get_elem? a.slots i)

  abbrev pub solos : Arena → ℕ → ℕ
  solos a i = total (solo i) a.holders

  abbrev pub shares : Arena → ℕ → ℕ
  shares a i = total (shared i) a.holders

  abbrev pub parks : Arena → ℕ → ℕ
  parks a i = total (parked i) a.holders

  abbrev pub needs : Arena → ℕ → ℕ
  needs a i = total (needing i) a.holders

  -- At every index: the count of a slot is the number of its holders; a slot is in use, in the hands
  -- of one thread, or on the free list, once; a holder that takes itself for the only one is; and the
  -- payload that a holder may read is there.
  pub record Facts (a : Arena) (i : ℕ) : Type 0 where
    pub counted : count_of a i ≡ solos a i + shares a i
    pub placed :
        sign (solos a i + shares a i) + parks a i + occurrences i (queue.elements a.free_list)
        ≡ one_if (ltb i (length a.slots))
    pub sole : (if solos a i == 0 then 1 else solos a i + shares a i) ≡ 1
    pub alive : (if needs a i == 0 then true else is_live (payload_of a i)) ≡ true

  abbrev pub IsArena : Arena → Type 0
  IsArena a = (i : ℕ) → Facts a i

  -- What a step does to the sums at an index, where it turns one holder into another.
  pub record Change (a b : Arena) (x y : Holder) (i : ℕ) : Type 0 where
    pub solo_eq : solos b i + solo i x ≡ solos a i + solo i y
    pub shared_eq : shares b i + shared i x ≡ shares a i + shared i y
    pub parked_eq : parks b i + parked i x ≡ parks a i + parked i y
    pub needing_eq : needs b i + needing i x ≡ needs a i + needing i y

  pub set-Change :
      (a b : Arena) (h : ℕ) (x y : Holder) (i : ℕ)
      → get_elem? a.holders h ≡ some x
      → b.holders ≡ set a.holders h y
      → Change a b x y i
  set-Change a b h x y i e is = rw is (record {
    solo_eq = total-set (solo i) a.holders h x y e;
    shared_eq = total-set (shared i) a.holders h x y e;
    parked_eq = total-set (parked i) a.holders h x y e;
    needing_eq = total-set (needing i) a.holders h x y e;
  })

  -- An arena after one holder has moved, with a new slot at its index.
  abbrev pub moved : Arena → ℕ → Holder → ℕ → Slot → Arena
  moved a h y j s = at_place (with_slot a j s) h y

  -- What such a step does to the count, the payload and the number of slots.
  pub record Stored (a b : Arena) (j : ℕ) (s' : Slot) (i : ℕ) : Type 0 where
    pub count_eq : count_of b i ≡ (if j == i then s'.ref_count else count_of a i)
    pub payload_eq : payload_of b i ≡ (if j == i then s'.payload else payload_of a i)
    pub length_eq : length b.slots ≡ length a.slots

  pub moved-Stored :
      (a : Arena) (h : ℕ) (y : Holder) (j : ℕ) (s s' : Slot) (i : ℕ)
      → get_elem? a.slots j ≡ some s
      → Stored a (moved a h y j s') j s' i
  moved-Stored a h y j s s' i e = record {
    count_eq = count-set a.slots j i s s' e;
    payload_eq = payload-set a.slots j i s s' e;
    length_eq = length-set a.slots j s';
  }

  pub needs_le : (a : Arena) (i : ℕ) → needs a i ≤ solos a i + shares a i
  needs_le a i = needing-total i a.holders

  -- What an append does to the sums at an index.
  pub record Added (a b : Arena) (y : Holder) (i : ℕ) : Type 0 where
    pub solo_eq : solos b i ≡ solos a i + solo i y
    pub shared_eq : shares b i ≡ shares a i + shared i y
    pub parked_eq : parks b i ≡ parks a i + parked i y
    pub needing_eq : needs b i ≡ needs a i + needing i y

  pub append-Added :
      (a b : Arena) (y : Holder) (i : ℕ) → b.holders ≡ a.holders ++ y ∷ [] → Added a b y i
  append-Added a b y i is = rw is (record {
    solo_eq = total-one (solo i) a.holders y;
    shared_eq = total-one (shared i) a.holders y;
    parked_eq = total-one (parked i) a.holders y;
    needing_eq = total-one (needing i) a.holders y;
  })

  -- The facts from one proof of them all.
  pub all-Facts :
      (a : Arena) (i : ℕ)
      → (count_of a i ≡ solos a i + shares a i)
        × (sign (solos a i + shares a i) + parks a i + occurrences i (queue.elements a.free_list)
            ≡ one_if (ltb i (length a.slots)))
        × ((if solos a i == 0 then 1 else solos a i + shares a i) ≡ 1)
        × ((if needs a i == 0 then true else is_live (payload_of a i)) ≡ true)
      → Facts a i
  all-Facts a i (c, p, s, l) = record { counted = c; placed = p; sole = s; alive = l }
