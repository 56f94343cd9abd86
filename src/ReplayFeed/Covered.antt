-- ===== src/ReplayFeed/Covered.antt =====
-- replay_feed.rs, the checks of `new` on its sources and on the channels of the log: what they say.
use Prim.Native.String.{String}
use text.Mathlib.Text.{◌==◌ as ◌≐◌}
use text.Mathlib.TextEquality.{eq_iff}
use mathlib.Core.List.{Memᴰ}
use mathlib.Core.List.Memᴰ.{head, tail}
use cfw.Prelude.{
  ◌≡◌, refl, sym, inl, inr, ◌⊎◌, Bool, true, false, not, ◌||◌, List, [], ◌∷◌, contains, push_all,
  NoRepeat, All, arith,
}
use cfw.Prelude.Result.{ok, guard-ok}
use cfw.ExactReplay.Trace.{not-true}
use cfw.Interner.{same_text}
use cfw.Schema.{execution_log_channel, iox2_event_record_channel}
use cfw.ReplayFeed.Inject.{is_reserved, check_channels, collect_sources}

-- The channels that the framework keeps for its own records.
abbrev pub IsReserved : String → Type 0
IsReserved c = (c ≡ execution_log_channel) ⊎ (c ≡ iox2_event_record_channel)

-- A channel of a log that a feed may meet: reserved, denied, or that of a source.
abbrev pub IsServed : List String → List String → String → Type 0
IsServed sources denied c = IsReserved c ⊎ (Memᴰ c denied ⊎ Memᴰ c sources)

or_cases : (a b : Bool) → (a || b) ≡ true → (a ≡ true) ⊎ (b ≡ true)
or_cases true b h = inl refl
or_cases false b h = inr h

contains-Memᴰ : (c : String) (l : List String) → contains same_text c l ≡ true → Memᴰ c l
contains-Memᴰ c [] h = cc
contains-Memᴰ c (x ∷ xs) h = elim (or_cases (x ≐ c) (contains same_text c xs) h) [
  | inl same ↦ head (sym ((eq_iff x c).0 same))
  | inr later ↦ tail (contains-Memᴰ c xs later)
]

is_reserved-IsReserved : (c : String) → is_reserved c ≡ true → IsReserved c
is_reserved-IsReserved c h =
    elim (or_cases (c ≐ execution_log_channel) (c ≐ iox2_event_record_channel) h) [
      | inl e ↦ inl ((eq_iff c execution_log_channel).0 e)
      | inr e ↦ inr ((eq_iff c iox2_event_record_channel).0 e)
    ]

not-IsReserved : (c : String) → is_reserved c ≡ false → ¬ IsReserved c
not-IsReserved c h (inl e) =
    let same = (eq_iff c execution_log_channel).1 e in ground (arith, same, h)
not-IsReserved c h (inr e) =
    let same = (eq_iff c iox2_event_record_channel).1 e in ground (arith, same, h)

pub check_channels-IsServed :
    (sources denied channels : List String)
    → check_channels sources denied channels ≡ ok tt
    → All (IsServed sources denied) channels
unfolding check_channels
check_channels-IsServed sources denied [] h = tt
check_channels-IsServed sources denied (c ∷ cs) h =
    let (test, rest) =
      guard-ok (is_reserved c || (contains same_text c denied || contains same_text c sources)) _ _
        h in
    (
      elim (or_cases (is_reserved c) _ test) [
        | inl own ↦ inl (is_reserved-IsReserved c own)
        | inr other ↦ inr (elim (or_cases (contains same_text c denied) _ other) [
          | inl refused ↦ inl (contains-Memᴰ c denied refused)
          | inr given ↦ inr (contains-Memᴰ c sources given)
        ])
      ],
      check_channels-IsServed sources denied cs rest,
    )

-- The map of the sources has the channels of them all, none of which is reserved or repeated.
pub collect_sources-push_all :
    (names map made : List String)
    → collect_sources names map ≡ ok made
    → (made ≡ push_all names map)
      × NoRepeat same_text map names
      × All (λ name. ¬ IsReserved name) names
unfolding collect_sources
collect_sources-push_all [] map made h = (cc, tt, tt)
collect_sources-push_all (name ∷ names) map made h =
    let (own, h1) = guard-ok (not (is_reserved name)) _ _ h in
    let (fresh, h2) = guard-ok (not (contains same_text name map)) _ _ h1 in
    let (is, apart, free) = collect_sources-push_all names (name ∷ map) made h2 in
    (is, (not-true _ fresh, apart), (not-IsReserved name (not-true _ own), free))

push_all-Memᴰ :
    (c : String) (l seen : List String) → Memᴰ c (push_all l seen) → Memᴰ c l ⊎ Memᴰ c seen
push_all-Memᴰ c [] seen h = inr h
push_all-Memᴰ c (x ∷ l) seen h = elim (push_all-Memᴰ c l (x ∷ seen) h) [
  | inl within ↦ inl (tail within)
  | inr (head same) ↦ inl (head same)
  | inr (tail before) ↦ inr before
]

pub IsServed-push_all :
    (sources denied : List String) (c : String)
    → IsServed (push_all sources []) denied c
    → IsServed sources denied c
IsServed-push_all sources denied c (inl own) = inl own
IsServed-push_all sources denied c (inr (inl refused)) = inr (inl refused)
IsServed-push_all sources denied c (inr (inr given)) = elim (push_all-Memᴰ c sources [] given) [
  | inl within ↦ inr (inr within)
  | inr absent ↦ elim absent [ ]
]
