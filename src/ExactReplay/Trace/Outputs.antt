-- ===== src/ExactReplay/Trace/Outputs.antt =====
-- replay_log.rs, `finish`: the checks on the outputs of a record, which also number them.
use cfw.Prelude.{
  ℕ, ◌+◌, ◌^◌, ◌≤◌, ◌<◌, ltb, ◌≡◌, refl, sym, ◌∙◌, subst, true, false, not, Option, none, some,
  List, [], ◌∷◌, contains, NoRepeat, push_all, length, arith, All,
}
use cfw.Prelude.Result.{ok, guard-ok, >>=-ok}
use cfw.Interner.{same_id, put}
use cfw.Schema.{
  published, EndpointDescriptor, ExecutionDescriptor, ExecutionRecord, LoggedMessage, same_time,
}
use cfw.Time.{invalid}
use cfw.ExactReplay.{same_identity, endpoint}
use cfw.ExactReplay.Load.{Progress, next_index, is_index, follows, check_output, check_outputs}
use cfw.ExactReplay.Trace.{
  same_time_iff, next_index-put, count_ordinal, Numbered, IsOutput, publications, not-true,
}

-- The map of the next batch indices counts the messages of every ordinal.
abbrev pub Counts : List (ℕ × ℕ) → List LoggedMessage → Type 0
Counts indices before = (ordinal : ℕ) → next_index ordinal indices ≡ count_ordinal ordinal before

abbrev after_output : EndpointDescriptor → LoggedMessage → Progress → Progress
after_output e m p = record {
  produced = (e.channel, m.header) ∷ p.produced;
  batch_indices = put same_id m.ordinal (next_index m.ordinal p.batch_indices + 1) p.batch_indices;
}

is_index-some : (o : Option ℕ) (n : ℕ) → is_index o n ≡ true → o ≡ some n
is_index-some none n h = cc
is_index-some (some m) n h = ground (arith, h)

after_output-Counts :
    (e : EndpointDescriptor) (m : LoggedMessage) (p : Progress) (before : List LoggedMessage)
    → Counts p.batch_indices before
    → Counts (after_output e m p).batch_indices (m ∷ before)
after_output-Counts e m p before c ordinal =
    let next = next_index m.ordinal p.batch_indices in
    ground
      (arith, next_index-put m.ordinal ordinal (next + 1) p.batch_indices, c ordinal, c m.ordinal)

module _ (r : ExecutionRecord) (e : EndpointDescriptor) (m : LoggedMessage) (p : Progress) where
  check_output-ok :
      {p' : Progress}
      → check_output r e m p ≡ ok p'
      → (contains same_identity (e.channel, m.header) p.produced ≡ false)
        × (e.publisher_index ≡ some m.header.publisher_index)
        × (m.header.batch_index ≡ next_index m.ordinal p.batch_indices)
        × (m.header.published_at ≡ r.execution_time)
        × (p' ≡ after_output e m p)
  unfolding check_output
  check_output-ok h =
      let next = next_index m.ordinal p.batch_indices in
      let (fresh, h1) =
        guard-ok (not (contains same_identity (e.channel, m.header) p.produced)) _ _ h in
      let (fits, h2) = guard-ok (follows r e m next) _ _ h1 in
      let (small, h3) = guard-ok (ltb (next + 1) (2 ^ 32)) _ _ h2 in
      (
        not-true _ fresh,
        is_index-some e.publisher_index m.header.publisher_index (ground (arith, fits)),
        ground (arith, fits),
        (same_time_iff m.header.published_at r.execution_time).0 (ground (arith, fits)),
        cc,
      )

  output_accepted :
      contains same_identity (e.channel, m.header) p.produced ≡ false
      → e.publisher_index ≡ some m.header.publisher_index
      → m.header.batch_index ≡ next_index m.ordinal p.batch_indices
      → m.header.published_at ≡ r.execution_time
      → next_index m.ordinal p.batch_indices + 1 < 2 ^ 32
      → check_output r e m p ≡ ok (after_output e m p)
  unfolding check_output
  output_accepted fresh index batch time small =
      let at_time = (same_time_iff m.header.published_at r.execution_time).1 time in
      ground (arith, fresh, index, batch, at_time, small)

count_ordinal-le : (ordinal : ℕ) (ms : List LoggedMessage) → count_ordinal ordinal ms ≤ length ms
count_ordinal-le ordinal [] = omega arith
count_ordinal-le ordinal (m ∷ ms) = ground (arith, count_ordinal-le ordinal ms)

module _ (d : ExecutionDescriptor) (r : ExecutionRecord) where
  named :
      (e : EndpointDescriptor) (m : LoggedMessage) (ms : List LoggedMessage) (p : Progress)
      → endpoint d r.callback_id published m.ordinal false ≡ ok e
      → NoRepeat same_identity p.produced (publications d r (m ∷ ms))
      → (contains same_identity (e.channel, m.header) p.produced ≡ false)
        × NoRepeat same_identity ((e.channel, m.header) ∷ p.produced) (publications d r ms)
  named e m ms p found apart = rw found at apart

  pub outputs_sound :
      (ms : List LoggedMessage) (p p' : Progress) (before : List LoggedMessage)
      → Counts p.batch_indices before
      → check_outputs d r ms p ≡ ok p'
      → All (IsOutput d r) ms
        × Numbered before ms
        × NoRepeat same_identity p.produced (publications d r ms)
        × (p'.produced ≡ push_all (publications d r ms) p.produced)
  unfolding check_outputs
  outputs_sound [] p p' before c h = (tt, tt, tt, cc)
  outputs_sound (m ∷ ms) p p' before c h =
      let (e, found, h1) = >>=-ok (endpoint d r.callback_id published m.ordinal false) _ h in
      let (valid, h2) = guard-ok (not (same_time m.header.published_at invalid)) _ _ h1 in
      let (q, one, h3) = >>=-ok (check_output r e m p) _ h2 in
      let (fresh, index, batch, time, is) = check_output-ok r e m p one in
      let (outputs, numbered, apart, left) =
        outputs_sound ms (after_output e m p) p' (m ∷ before) (after_output-Counts e m p before c)
          (subst (λ q. check_outputs d r ms q ≡ ok p') is h3) in
      (
        ((e, found, not-true _ valid, index, time), outputs),
        (batch ∙ c m.ordinal, numbered),
        rw found (fresh, apart),
        rw found left,
      )

  pub outputs_complete :
      (ms : List LoggedMessage) (p : Progress) (before : List LoggedMessage)
      → Counts p.batch_indices before
      → length before + length ms < 2 ^ 32
      → All (IsOutput d r) ms
      → Numbered before ms
      → NoRepeat same_identity p.produced (publications d r ms)
      → (p' : Progress) × (check_outputs d r ms p ≡ ok p')
        × (p'.produced ≡ push_all (publications d r ms) p.produced)
  unfolding check_outputs
  outputs_complete [] p before c small a n apart = (p, refl, refl)
  outputs_complete (m ∷ ms) p before c small a n apart =
      let (e, found, valid, index, time) = a.0 in
      let (fresh, others) = named e m ms p found apart in
      let one =
        output_accepted r e m p fresh index (n.0 ∙ sym (c m.ordinal)) time
          (ground (arith, small, c m.ordinal, count_ordinal-le m.ordinal before)) in
      let (p', rest, left) =
        outputs_complete ms (after_output e m p) (m ∷ before) (after_output-Counts e m p before c)
          (omega (arith, small)) a.1 n.1 others in
      (p', rw (found, valid, one) rest, rw found left)
