-- ===== src/Interner.antt =====
-- base/src/string_interner.rs, `StringInterner`. A hash map is the list of its entries in the order of
-- their insertion; the type that marks an identifier is left out, and an identifier is its number.
pub mod Table
pub mod Laws
mod Tests
use Prim.Native.String.{String}
use text.Mathlib.Text.{◌==◌ as ◌≐◌}
use cfw.Prelude.{
  ℕ, zero, suc, ◌+◌, ◌%◌, ◌^◌, ◌==◌, Bool, true, false, Option, none, some, List, [], ◌∷◌, length,
  ltb, if◌then◌else◌,
}
use cfw.Prelude.Result.{Result, ok, err}

-- `HashMap::get` and `HashMap::insert`.
module _ {K V : Type 0} (same : K → K → Bool) where
  abbrev pub get : K → List (K × V) → Option V
  get key [] = none
  get key ((k, v) ∷ m) = if same k key then some v else get key m

  abbrev pub put : K → V → List (K × V) → List (K × V)
  put key value [] = (key, value) ∷ []
  put key value ((k, v) ∷ m) = if same k key then (k, value) ∷ m else (k, v) ∷ put key value m

abbrev pub same_id : ℕ → ℕ → Bool
same_id a b = a == b

abbrev pub same_text : String → String → Bool
same_text a b = a ≐ b

pub record StringInterner : Type 0 where
  pub id_to_data : List (ℕ × String)
  pub data_to_id : List (String × ℕ)

abbrev pub new : StringInterner
new = record { id_to_data = []; data_to_id = [] }

-- `InternId::from_index`.
unfoldable pub from_index : ℕ → Option ℕ
from_index index = if ltb index (2 ^ 32) then some index else none

unfoldable pub lookup_by_value : String → StringInterner → Option ℕ
lookup_by_value value t = get same_text value t.data_to_id

unfoldable pub try_lookup_by_id : ℕ → StringInterner → Option String
try_lookup_by_id id t = get same_id id t.id_to_data

abbrev pub intern_new : String → ℕ → StringInterner → ℕ × StringInterner
intern_new value id t = (
  id,
  record {
    id_to_data = put same_id id value t.id_to_data;
    data_to_id = put same_text value id t.data_to_id;
  },
)

abbrev pub known_or_new : Option ℕ → String → StringInterner → ℕ × StringInterner
known_or_new (some id) value t = (id, t)
known_or_new none value t = intern_new value (length t.data_to_id % 2 ^ 32) t

unfoldable pub intern : String → StringInterner → ℕ × StringInterner
unfolding lookup_by_value
intern value t = known_or_new (lookup_by_value value t) value t

abbrev pub cons_some : Option String → Option (List String) → Option (List String)
cons_some none names = none
cons_some (some name) none = none
cons_some (some name) (some names) = some (name ∷ names)

-- `count` names from an index on; `none` is the panic of `lookup_by_id`.
unfoldable pub names_from : ℕ → ℕ → StringInterner → Option (List String)
unfolding try_lookup_by_id
names_from index zero t = some []
names_from index (suc count) t =
    cons_some (try_lookup_by_id (index % 2 ^ 32) t) (names_from (index + 1) count t)

unfoldable pub names : StringInterner → Option (List String)
unfolding names_from
names t = names_from 0 (length t.id_to_data) t

abbrev pub is_known : Option ℕ → Bool
is_known none = false
is_known (some id) = true

-- The loop of `deserialize`; the error is the one on a duplicate name.
unfoldable pub load : List String → StringInterner → Result (Unit {0}) StringInterner
unfolding lookup_by_value intern
load [] t = ok t
load (name ∷ rest) t =
    if is_known (lookup_by_value name t) then err tt else load rest (intern name t).1

unfoldable pub deserialize : List String → Result (Unit {0}) StringInterner
unfolding load
deserialize names = load names new
