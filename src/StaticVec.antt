-- ===== src/StaticVec.antt =====
-- base/src/static_vec.rs, `StaticVec<T, N>`: a sequence in an array of possibly uninitialised slots.
-- A slot that was moved out of or dropped keeps its bits but is dead. `none` stands for a panic, and
-- for the undefined behaviour of reading a slot that is not live. Reads that the source makes only
-- through a pointer of the whole array are reads of its first `len` slots.
pub mod Laws
pub mod Spec
pub mod Refine
pub mod Cloned
mod Tests
use cfw.Prelude.{
  ℕ, zero, suc, ◌+◌, ◌-◌, ◌==◌, Bool, true, false, Option, none, some, List, [], ◌∷◌, ◌++◌, length,
  get_elem?, set, replicate, ltb, if◌then◌else◌,
}

pub data Slot (A : Type 0) : Type 0 where
  uninit dead : Slot A
  live : A → Slot A

pub record StaticVec (A : Type 0) : Type 0 where
  pub entries : List (Slot A)
  pub len : ℕ

module _ {A : Type 0} where
  abbrev pub new : ℕ → StaticVec A
  new capacity = record { entries = replicate capacity uninit; len = 0 }

  -- `entries[i] = slot`.
  abbrev pub write : List (Slot A) → ℕ → Slot A → Option (List (Slot A))
  write entries i slot = if ltb i (length entries) then some (set entries i slot) else none

  abbrev pub with_entries :
      Option (List (Slot A)) → (List (Slot A) → StaticVec A) → Option (Bool × StaticVec A)
  with_entries none k = none
  with_entries (some entries) k = some (true, k entries)

  unfoldable pub push : A → StaticVec A → Option (Bool × StaticVec A)
  push value v =
      if v.len == length v.entries
      then some (false, v)
      else with_entries (write v.entries (v.len + 1 - 1) (live value))
          (λ entries. record { entries = entries; len = v.len + 1 })

  -- `assume_init` of the slot at an index.
  abbrev pub assume_init : Option (Slot A) → Option A
  assume_init none = none
  assume_init (some uninit) = none
  assume_init (some dead) = none
  assume_init (some (live a)) = some a

  abbrev pub taken : Option A → StaticVec A → Option (Option A × StaticVec A)
  taken none v = none
  taken (some a) v = some (some a, v)

  unfoldable pub pop : StaticVec A → Option (Option A × StaticVec A)
  pop v =
      if v.len == 0
      then some (none, v)
      else taken (assume_init (get_elem? v.entries (v.len - 1)))
          (record { entries = set v.entries (v.len - 1) uninit; len = v.len - 1 })

  -- What `pop_into` stores; an empty vector leaves the target as it is.
  unfoldable pub pop_into : StaticVec A → Option (Option A × StaticVec A)
  pop_into v =
      if v.len == 0
      then some (none, v)
      else taken (assume_init (get_elem? v.entries (v.len - 1)))
          (record { entries = set v.entries (v.len - 1) dead; len = v.len - 1 })

  abbrev pub found : Option A → Option (Option A)
  found none = none
  found (some a) = some (some a)

  unfoldable pub front : StaticVec A → Option (Option A)
  front v = if v.len == 0 then some none else found (assume_init (get_elem? v.entries 0))

  unfoldable pub back : StaticVec A → Option (Option A)
  back v = if v.len == 0 then some none else found (assume_init (get_elem? v.entries (v.len - 1)))

  abbrev drop_slot : Slot A → Option (List (Slot A)) → Option (List (Slot A))
  drop_slot slot none = none
  drop_slot uninit (some rest) = none
  drop_slot dead (some rest) = none
  drop_slot (live a) (some rest) = some (dead ∷ rest)

  -- The loop of `clear`: the first `n` slots are dropped.
  unfoldable pub drop_first : ℕ → List (Slot A) → Option (List (Slot A))
  drop_first zero entries = some entries
  drop_first (suc n) [] = some []
  drop_first (suc n) (slot ∷ entries) = drop_slot slot (drop_first n entries)

  abbrev cleared : Option (List (Slot A)) → Option (StaticVec A)
  cleared none = none
  cleared (some entries) = some (record { entries = entries; len = 0 })

  unfoldable pub clear : StaticVec A → Option (StaticVec A)
  unfolding drop_first
  clear v = cleared (drop_first v.len v.entries)

  abbrev read_slot : Slot A → Option (List A) → Option (List A)
  read_slot slot none = none
  read_slot uninit (some rest) = none
  read_slot dead (some rest) = none
  read_slot (live a) (some rest) = some (a ∷ rest)

  unfoldable pub read_first : ℕ → List (Slot A) → Option (List A)
  read_first zero entries = some []
  read_first (suc n) [] = none
  read_first (suc n) (slot ∷ entries) = read_slot slot (read_first n entries)

  unfoldable pub as_slice : StaticVec A → Option (List A)
  unfolding read_first
  as_slice v = read_first v.len v.entries

  -- The index `len - 1` of an empty vector is out of range, as the difference wraps or panics.
  unfoldable pub push_cloned : A → StaticVec A → Option (Bool × StaticVec A)
  push_cloned value v =
      if v.len == length v.entries
      then some (false, v)
      else if v.len == 0
      then none
      else with_entries (write v.entries (v.len - 1) (live value))
          (λ entries. record { entries = entries; len = v.len + 1 })
