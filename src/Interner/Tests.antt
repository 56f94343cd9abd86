-- ===== src/Interner/Tests.antt =====
-- string_interner.rs: runs of the model, and the theorems at inputs that meet their hypotheses.
use Prim.Native.String.{String}
use cfw.Prelude.{ℕ, ◌≡◌, refl, some, List, [], ◌∷◌, arith}
use cfw.Prelude.Result.{ok, err}
use cfw.Interner.{new, intern, lookup_by_value, try_lookup_by_id, names, load, deserialize}
use cfw.Interner.Table.{table_of}
use cfw.Interner.Laws.{intern_all, intern_all_roundtrip, intern_lem}

abbrev values : List String
values = "hello" ∷ "world" ∷ "hello" ∷ []

abbrev two : List String
two = "hello" ∷ "world" ∷ []

intern_runs : (intern "world" (table_of two)).0 ≡ 1
unfolding intern lookup_by_value
intern_runs = refl

duplicate_runs : deserialize values ≡ err tt
unfolding deserialize load lookup_by_value intern
duplicate_runs = refl

intern_all_roundtrip_example :
    (ns : List String) × (names (intern_all values new) ≡ some ns)
    × (deserialize ns ≡ ok (intern_all values new))
intern_all_roundtrip_example = intern_all_roundtrip values (ground arith)

intern_example :
    (try_lookup_by_id (intern "new" (table_of two)).0 (intern "new" (table_of two)).1 ≡ some "new")
    × ((i : ℕ) (s : String)
        → try_lookup_by_id i (table_of two) ≡ some s
        → try_lookup_by_id i (intern "new" (table_of two)).1 ≡ some s)
intern_example = intern_lem "new" two ((refl, tt), (tt, tt)) (ground arith)
