-- ===== src/ExactReplay/Descriptor.antt =====
-- replay_log.rs, `descriptor`: which descriptors of a recording an exact replay accepts.
use Prim.Native.String.{String}
use cfw.Prelude.{
  ℕ, ◌≡◌, refl, ap, sym, ◌∙◌, subst, Bool, true, false, not, ◌↔◌, Option, none, some, List, [], ◌∷◌,
  ◌++◌, map, is_some, contains, NoRepeat, push_all, push_all-append, NoRepeat-append, arith, All,
}
use cfw.Prelude.Result.{ok, guard-ok, >>=-ok}
use cfw.Interner.{same_text}
use cfw.Schema.{
  ExecutionLogMode, full, is_full, EndpointDescriptor, CallbackDescriptor, ExecutionDescriptor,
}
use cfw.ExactReplay.{
  same_place, same_bool, same_side, side, is_data_output, add_publisher, check_endpoints,
  check_callbacks,
}
use cfw.ExactReplay.Trace.{not-true}

-- The publisher that an endpoint claims.
abbrev place : String → Option ℕ → List (String × ℕ)
place channel none = []
place channel (some index) = (channel, index) ∷ []

abbrev pub places : List EndpointDescriptor → List (String × ℕ)
places [] = []
places (e ∷ es) = place e.channel e.publisher_index ++ places es

abbrev pub all_places : List CallbackDescriptor → List (String × ℕ)
all_places [] = []
all_places (c ∷ cs) = places c.endpoints ++ all_places cs

-- An endpoint has a publisher's index exactly if it is a data output.
abbrev pub IsIndexed : EndpointDescriptor → Type 0
IsIndexed e = is_some e.publisher_index ≡ is_data_output e

pub record IsRecorded (c : CallbackDescriptor) : Type 0 where
  pub mode : c.mode ≡ full
  pub indexed : All IsIndexed c.endpoints
  pub ordinals : NoRepeat same_side [] (map side c.endpoints)

same_bool-eq : (a b : Bool) → same_bool a b ≡ true → b ≡ a
same_bool-eq true b h = h
same_bool-eq false true h = cc
same_bool-eq false false h = refl

same_bool_refl : (a b : Bool) → b ≡ a → same_bool a b ≡ true
same_bool_refl a b e = ground (arith, e)

add_sound :
    (channel : String) (o : Option ℕ) (seen grown : List (String × ℕ))
    → add_publisher channel o seen ≡ ok grown
    → NoRepeat same_place seen (place channel o) × (grown ≡ push_all (place channel o) seen)
unfolding add_publisher
add_sound channel none seen grown h = (tt, cc)
add_sound channel (some index) seen grown h =
    let (fresh, h1) = guard-ok (not (contains same_place (channel, index) seen)) _ _ h in
    ((not-true _ fresh, tt), cc)

add_complete :
    (channel : String) (o : Option ℕ) (seen : List (String × ℕ))
    → NoRepeat same_place seen (place channel o)
    → add_publisher channel o seen ≡ ok (push_all (place channel o) seen)
unfolding add_publisher
add_complete channel none seen n = refl
add_complete channel (some index) seen n = rw n.0 refl

endpoints_sound :
    (name : String) (es : List EndpointDescriptor) (sides : List (Bool × ℕ))
    (seen grown : List (String × ℕ))
    → check_endpoints name es sides seen ≡ ok grown
    → All IsIndexed es
      × NoRepeat same_side sides (map side es)
      × NoRepeat same_place seen (places es)
      × (grown ≡ push_all (places es) seen)
unfolding check_endpoints
endpoints_sound name [] sides seen grown h = (tt, tt, tt, cc)
endpoints_sound name (e ∷ es) sides seen grown h =
    let (index, h1) = guard-ok (same_bool (is_data_output e) (is_some e.publisher_index)) _ _ h in
    let (one, added, h2) = >>=-ok (add_publisher e.channel e.publisher_index seen) _ h1 in
    let (fresh, h3) = guard-ok (not (contains same_side (side e) sides)) _ _ h2 in
    let (apart, is) = add_sound e.channel e.publisher_index seen one added in
    let (indexed, ordinals, others, left) =
      endpoints_sound name es (side e ∷ sides) (push_all (place e.channel e.publisher_index) seen)
        grown (subst (λ l. check_endpoints name es (side e ∷ sides) l ≡ ok grown) is h3) in
    (
      (same_bool-eq _ _ index, indexed),
      (not-true _ fresh, ordinals),
      (NoRepeat-append same_place (place e.channel e.publisher_index) (places es) seen).1
          (apart, others),
      left ∙ sym (push_all-append (place e.channel e.publisher_index) (places es) seen),
    )

endpoints_complete :
    (name : String) (es : List EndpointDescriptor) (sides : List (Bool × ℕ))
    (seen : List (String × ℕ))
    → All IsIndexed es
    → NoRepeat same_side sides (map side es)
    → NoRepeat same_place seen (places es)
    → check_endpoints name es sides seen ≡ ok (push_all (places es) seen)
unfolding check_endpoints
endpoints_complete name [] sides seen a o p = refl
endpoints_complete name (e ∷ es) sides seen a o p =
    let here = place e.channel e.publisher_index in
    let (first, others) = (NoRepeat-append same_place here (places es) seen).0 p in
    let index = same_bool_refl (is_data_output e) (is_some e.publisher_index) a.0 in
    let added = add_complete e.channel e.publisher_index seen first in
    rw (index, added, o.0)
      (endpoints_complete name es (side e ∷ sides) (push_all here seen) a.1 o.1 others
        ∙ ap ok (sym (push_all-append here (places es) seen)))

full_lem : (m : ExecutionLogMode) → is_full m ≡ true → m ≡ full
full_lem m h = ground (arith, h)

callbacks_iff :
    (cs : List CallbackDescriptor) (names : List String) (seen : List (String × ℕ))
    → (check_callbacks cs names seen ≡ ok tt) ↔ (
        All IsRecorded cs
        × NoRepeat same_text names (map (λ c. c.name) cs)
        × NoRepeat same_place seen (all_places cs))
unfolding check_callbacks
callbacks_iff [] names seen = (λ h. (tt, tt, tt), λ h. refl)
callbacks_iff (c ∷ cs) names seen =
    let (there, back) = callbacks_iff cs (c.name ∷ names) (push_all (places c.endpoints) seen) in
    let (split, join) = NoRepeat-append same_place (places c.endpoints) (all_places cs) seen in
    (
      λ h.
          let (mode, h1) = guard-ok (is_full c.mode) _ _ h in
          let (fresh, h2) = guard-ok (not (contains same_text c.name names)) _ _ h1 in
          let (grown, one, h3) = >>=-ok (check_endpoints c.name c.endpoints [] seen) _ h2 in
          let (indexed, ordinals, apart, is) =
            endpoints_sound c.name c.endpoints [] seen grown one in
          let (all, distinct, others) =
            there (subst (λ l. check_callbacks cs (c.name ∷ names) l ≡ ok tt) is h3) in
          (
            (record { mode = full_lem c.mode mode; indexed = indexed; ordinals = ordinals }, all),
            (not-true _ fresh, distinct),
            join (apart, others),
          ),
      λ h.
          let (apart, others) = split h.2 in
          let i = h.0.0 in
          let mode : is_full c.mode ≡ true = ap is_full i.mode in
          let endpoints =
            endpoints_complete c.name c.endpoints [] seen i.indexed i.ordinals apart in
          rw (mode, h.1.0, endpoints) (back (h.0.1, h.1.1, others)),
    )

-- The checks on a descriptor succeed exactly when every callback was fully recorded, no two have
-- one name, an endpoint has a publisher's index exactly if it is an output that carries data, no
-- two endpoints of one callback have the same side and ordinal, and no two endpoints of the whole
-- descriptor claim the same publisher of a channel.
pub check_callbacks_iff :
    (d : ExecutionDescriptor)
    → (check_callbacks d.callbacks [] [] ≡ ok tt) ↔ (
        All IsRecorded d.callbacks
        × NoRepeat same_text [] (map (λ c. c.name) d.callbacks)
        × NoRepeat same_place [] (all_places d.callbacks))
check_callbacks_iff d = callbacks_iff d.callbacks [] []
