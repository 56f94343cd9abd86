-- ===== src/Arena/Moves.antt =====
-- arena.rs: every atomic operation keeps the sums of the arena's invariant.
use cfw.Prelude.{ℕ, ◌-◌, ◌≡◌, refl, false, some, get_elem?, ◌==◌, total-get_elem?-le, arith}
use cfw.Buffers.{ArrayQueue}
use cfw.Arena.{
  live, dead, Slot, taken, loan, pointer, destroying, clearing, returning, dropping, gone, Arena,
}
use cfw.Arena.Weights.{
  solo, shared, parked, needing, Facts, set-Change, moved, moved-Stored, all-Facts, needs_le,
}

module _ ⦃queue : ArrayQueue ℕ⦄ where
  -- A count of no holders is swapped for one.
  pub claim-Facts :
      (a : Arena) (h j i : ℕ) (s : Slot)
      → get_elem? a.holders h ≡ some (taken j)
      → get_elem? a.slots j ≡ some s
      → s.ref_count ≡ 0
      → Facts a i
      → Facts (moved a h (loan j) j (record s { ref_count = 1 })) i
  unfolding solo shared parked needing
  claim-Facts a h j i s eh es h0 f =
      let m = moved-Stored a h (loan j) j s (record s { ref_count = 1 }) i es in
      let d =
        set-Change a (moved a h (loan j) j (record s { ref_count = 1 })) h (taken j) (loan j) i eh
          refl in
      all-Facts _ _ (ground (arith, m, f, d))

  -- A holder that is not the last leaves.
  pub leave-Facts :
      (a : Arena) (h j c i : ℕ) (s : Slot)
      → get_elem? a.holders h ≡ some (dropping j c)
      → get_elem? a.slots j ≡ some s
      → s.ref_count ≡ c
      → (c == 1) ≡ false
      → Facts a i
      → Facts (moved a h gone j (record s { ref_count = c - 1 })) i
  unfolding solo shared parked needing
  leave-Facts a h j c i s eh es h0 h1 f =
      let m = moved-Stored a h gone j s (record s { ref_count = c - 1 }) i es in
      let d =
        set-Change a (moved a h gone j (record s { ref_count = c - 1 })) h (dropping j c) gone i eh
          refl in
      all-Facts _ _ (ground (arith, m, f, d))

  -- The last holder destroys the payload.
  pub destroy-Facts :
      (a : Arena) (h j i : ℕ) (s : Slot)
      → get_elem? a.holders h ≡ some (destroying j)
      → get_elem? a.slots j ≡ some s
      → Facts a i
      → Facts (moved a h (clearing j) j (record s { payload = dead })) i
  unfolding solo shared parked needing
  destroy-Facts a h j i s eh es f =
      let m = moved-Stored a h (clearing j) j s (record s { payload = dead }) i es in
      let d =
        set-Change a (moved a h (clearing j) j (record s { payload = dead })) h (destroying j)
          (clearing j) i eh refl in
      all-Facts _ _ (
        ground
          (arith, m, f, d, needs_le a i, total-get_elem?-le (solo i) a.holders h (destroying j) eh))

  -- The last holder clears the count.
  pub clear-Facts :
      (a : Arena) (h j i : ℕ) (s : Slot)
      → get_elem? a.holders h ≡ some (clearing j)
      → get_elem? a.slots j ≡ some s
      → Facts a i
      → Facts (moved a h (returning j) j (record s { ref_count = 0 })) i
  unfolding solo shared parked needing
  clear-Facts a h j i s eh es f =
      let m = moved-Stored a h (returning j) j s (record s { ref_count = 0 }) i es in
      let d =
        set-Change a (moved a h (returning j) j (record s { ref_count = 0 })) h (clearing j)
          (returning j) i eh refl in
      all-Facts _ _ (ground (arith, m, f, d))

  -- A loan is published.
  pub publish-Facts :
      (a : Arena) (h j i : ℕ) (s : Slot)
      → get_elem? a.holders h ≡ some (loan j)
      → get_elem? a.slots j ≡ some s
      → Facts a i
      → Facts (moved a h (pointer j) j (record s { payload = live })) i
  unfolding solo shared parked needing
  publish-Facts a h j i s eh es f =
      let m = moved-Stored a h (pointer j) j s (record s { payload = live }) i es in
      let d =
        set-Change a (moved a h (pointer j) j (record s { payload = live })) h (loan j) (pointer j)
          i eh refl in
      all-Facts _ _ (ground (arith, m, f, d))

  -- A loan is given up.
  pub discard-Facts :
      (a : Arena) (h j i : ℕ) (s : Slot)
      → get_elem? a.holders h ≡ some (loan j)
      → get_elem? a.slots j ≡ some s
      → Facts a i
      → Facts (moved a h (returning j) j (record s { ref_count = 0 })) i
  unfolding solo shared parked needing
  discard-Facts a h j i s eh es f =
      let m = moved-Stored a h (returning j) j s (record s { ref_count = 0 }) i es in
      let d =
        set-Change a (moved a h (returning j) j (record s { ref_count = 0 })) h (loan j)
          (returning j) i eh refl in
      all-Facts _ _ (ground (arith, m, f, d))
