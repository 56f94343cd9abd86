-- ===== src/NameTables.antt =====
-- logging/src/intern_tables.rs: the name tables of a log, in which a callback's identifier is its
-- place in the descriptor: their decoding, and their check against a descriptor.
use Prim.Native.String.{String}
use text.Mathlib.Text.{◌==◌ as ◌≐◌}
use cfw.Prelude.{ℕ, ◌+◌, Bool, false, Option, none, some, List, [], ◌∷◌, is_some}
use cfw.Prelude.Result.{Result, ok, err, ◌>>=◌, ◌>>◌, guard, or_err}
use cfw.Interner.{StringInterner, from_index, lookup_by_value, try_lookup_by_id, deserialize}
use cfw.Schema.{InternTables, ExecutionDescriptor, CallbackDescriptor, EndpointDescriptor, Decoders}

pub data TableError : Type 0 where
  missing_tables bad_tables id_out_of_range : TableError
  callback_mismatch : String → ℕ → TableError
  channel_absent : String → TableError

abbrev rename : Result (Unit {0}) StringInterner → Result TableError StringInterner
rename (ok t) = ok t
rename (err e) = err bad_tables

unfoldable pub decode_intern_tables : Decoders → Option (List ℕ) → Result TableError InternTables
unfolding deserialize
decode_intern_tables json bytes = do
  found ← or_err bytes missing_tables
  (channels, callbacks) ← or_err (json.tables found) bad_tables
  channel_table ← rename (deserialize channels)
  callback_table ← rename (deserialize callbacks)
  ok (record { channels = channel_table; callbacks = callback_table })

abbrev pub names_it : String → Option String → Bool
names_it name none = false
names_it name (some found) = found ≐ name

unfoldable pub validate_endpoints :
    InternTables → List EndpointDescriptor → Result TableError (Unit {0})
unfolding lookup_by_value
validate_endpoints tables [] = ok tt
validate_endpoints tables (endpoint ∷ endpoints) = do
  guard (is_some (lookup_by_value endpoint.channel tables.channels))
      (channel_absent endpoint.channel)
  validate_endpoints tables endpoints

-- The loop of `validate_descriptor_tables`, from an index on.
unfoldable pub validate_from :
    InternTables → ℕ → List CallbackDescriptor → Result TableError (Unit {0})
unfolding validate_endpoints from_index try_lookup_by_id
validate_from tables index [] = ok tt
validate_from tables index (callback ∷ callbacks) = do
  id ← or_err (from_index index) id_out_of_range
  guard (names_it callback.name (try_lookup_by_id id tables.callbacks))
      (callback_mismatch callback.name index)
  validate_endpoints tables callback.endpoints
  validate_from tables (index + 1) callbacks

unfoldable pub validate_descriptor_tables :
    InternTables → ExecutionDescriptor → Result TableError (Unit {0})
unfolding validate_from
validate_descriptor_tables tables descriptor = validate_from tables 0 descriptor.callbacks
