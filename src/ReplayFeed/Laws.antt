-- ===== src/ReplayFeed/Laws.antt =====
-- replay_feed.rs, `inject_due_while`: every input is delivered once, in order, when it is due.
use Prim.Native.String.{String}
use cfw.Prelude.{
  ℕ, zero, suc, ◌+◌, ◌<◌, ◌≡◌, refl, ap, sym, ◌∙◌, subst, inl, inr, ◌⊎◌, Bool, true, false, not,
  ◌&&◌, none, some, ◌++◌, length, is_some, arith, Bool-cases, Option-cases,
}
use cfw.Prelude.Result.{Result, ok, err, Result-cases}
use cfw.Schema.{Iox2EventRecord, Decoders}
use cfw.SortedLog.{OwnedLogEntry}
use cfw.SortedLog.Reader.{source_length}
use cfw.SortedLog.Reader.Laws.{remaining, length-remaining}
use cfw.Time.{FrameworkTime}
use cfw.ReplayFeed.{FeedError, ReplayFeed, next_time, Outcome, advance}
use cfw.ReplayFeed.Inject.{due, deliver, Injection, after_advance, inject_loop, inject_due_while}
use cfw.ReplayFeed.Advance.{listed, selected, size, IsFeed, Advanced, advance_lem}
use cfw.ReplayFeed.Serving.{
  due-some, due-none, starts_again, starts_on, idle_test, end_test, pending_test, deliver_all,
  after_bad, after_fine, Serves, Ended, IsAwake, left-end, stops-Serves, step-Serves,
}

module _ {S : Type 0} (inject : OwnedLogEntry → S → Result ℕ S)
    (event : String → String → Iox2EventRecord → S → Result ℕ S) where
  module _ (json : Decoders) (running : ℕ → Bool) (time : FrameworkTime) where
    inject_loop_lem :
        (fuel : ℕ) (feed : ReplayFeed) (calls : ℕ) (s : S)
        → IsFeed json feed
        → IsAwake inject event json running time feed
        → size json feed < fuel
        → (i : Injection inject event) × (inject_loop inject event json running time fuel feed calls
              s
            ≡ some i)
          × Ended inject event json running time feed s i
    unfolding inject_loop
    inject_loop_lem zero feed calls s i w lt = elim lt [ ]
    inject_loop_lem (suc fuel) feed calls s i w lt = elim (Option-cases (due time feed.pending)) [
      | inl nothing ↦ (
        record { result = ok (next_time feed); feed = feed; world = s },
        rw (nothing, inject_loop) refl,
        inr (
            stops-Serves inject event json running time feed s i (λ always. (
              due-none time feed.pending nothing,
              λ p. left-end inject event json running time feed i p (w always p),
            ))),
      )
      | inr (p, some_due) ↦ elim (Bool-cases (running calls)) [
        | inr paused ↦ (
          record { result = ok (next_time feed); feed = feed; world = s },
          rw (some_due, inject_loop, paused) refl,
          inr (stops-Serves inject event json running time feed s i (λ always. cc (always calls))),
        )
        | inl on ↦
            let (at, is_due) = due-some time feed.pending p some_due in
            elim (Result-cases (deliver inject event feed.sources p s)) [
              | inl (bad, d) ↦ (
                record {
                  result = err bad;
                  feed = record feed { pending = none; failed = true };
                  world = s;
                },
                rw (some_due, inject_loop, on, d) refl,
                inl (bad, refl, refl),
              )
              | inr (world, d) ↦
                  let (o, adv, a) = advance_lem json running feed (calls + 1) i in
                  elim (Result-cases o.result) [
                    | inl (bad, r) ↦ (
                      record {
                        result = err bad;
                        feed = record o.feed { failed = true };
                        world = world;
                      },
                      rw (some_due, inject_loop, on, d, adv)
                          (after_bad inject event o bad world
                            (λ next more.
                              inject_loop inject event json running time fuel next more world)
                            r),
                      inl (bad, refl, refl),
                    )
                    | inr (x, r) ↦
                        let fewer : length (listed feed.pending) ≡ 1 =
                          ap (λ q. length (listed q)) at in
                        let (v, loop, ended) =
                          inject_loop_lem fuel o.feed o.calls world a.is_feed
                            (λ always. a.awake always r) (omega (arith, lt, a.smaller, fewer)) in
                        (
                          v,
                          rw (some_due, inject_loop, on, d, adv)
                              (after_fine inject event o x world
                                  (λ next more.
                                    inject_loop inject event json running time fuel next more world)
                                  r
                                ∙ loop),
                          elim ended [
                            | inl failed ↦ inl failed
                            | inr serves ↦ inr (
                                step-Serves inject event json running time feed s world p o v at
                                  is_due d a r serves)
                          ],
                        )
                  ]
            ]
      ]
    ]

    -- What a feed whose last call was stopped does first.
    resumed :
        (feed : ReplayFeed) (s : S)
        → IsFeed json feed
        → feed.pending ≡ none
        → (o : Outcome (Unit {0})) × (advance json running feed 0 ≡ some o)
          × Advanced json running (record feed { pending = none }) (remaining feed.reader) o
          × (size json o.feed < source_length feed.reader.source + 3)
    resumed feed s i p =
        let (o, adv, a) = advance_lem json running feed 0 i in
        (o, adv, a, omega (arith, a.smaller, length-remaining feed.reader))

    resume-Serves :
        (feed : ReplayFeed) (s : S) (o : Outcome (Unit {0})) (i : Injection inject event)
        → feed.pending ≡ none
        → Advanced json running (record feed { pending = none }) (remaining feed.reader) o
        → o.result ≡ ok tt
        → Serves inject event json running time o.feed s i
        → Serves inject event json running time feed s i
    resume-Serves feed s o i p a fine v = record {
      delivered = v.delivered;
      result_eq = v.result_eq;
      accounts =
          ap (λ q. listed q ++ selected json feed.descriptor feed.denied (remaining feed.reader)) p
          ∙ sym (a.accounts fine)
          ∙ v.accounts;
      all_due = v.all_due;
      effect =
          subst (λ sources. deliver_all inject event sources v.delivered s ≡ ok i.world)
            a.follows.sources_eq v.effect;
      is_feed = v.is_feed;
      not_failed = v.not_failed ∙ a.follows.failed_eq;
      caught_up = v.caught_up;
    }

    straight :
        (feed : ReplayFeed) (s : S)
        → feed.failed ≡ false
        → (not (is_some feed.pending) && not feed.exhausted) ≡ false
        → inject_due_while inject event json running time feed s
          ≡ inject_loop inject event json running time
              (source_length feed.reader.source + 3)
              feed
              0
              s
    unfolding inject_due_while
    straight feed s f t =
        starts_on feed.failed (not (is_some feed.pending) && not feed.exhausted) _ _ _ f t

    resume :
        (feed : ReplayFeed) (s : S)
        → feed.pending ≡ none
        → feed.failed ≡ false
        → (not (is_some feed.pending) && not feed.exhausted) ≡ true
        → (o : Outcome (Unit {0})) → advance json running feed 0 ≡ some o
        → Advanced json running (record feed { pending = none }) (remaining feed.reader) o
        → size json o.feed < source_length feed.reader.source + 3
        → ((e : FeedError) × (o.result ≡ err e)) ⊎ ((x : Unit {0}) × (o.result ≡ ok x))
        → (i : Injection inject event) × (inject_due_while inject event json running time feed s
            ≡ some i)
          × Ended inject event json running time feed s i
    unfolding inject_due_while
    resume feed s p f t o adv a small cases =
        let again = λ (next : ReplayFeed) (more : ℕ).
          inject_loop inject event json running time (source_length feed.reader.source + 3) next
            more s in
        let start : inject_due_while inject event json running time feed s
            ≡ after_advance inject event (some o) s again =
          starts_again feed.failed (not (is_some feed.pending) && not feed.exhausted) _ _ _ f t
          ∙ ap (λ r. after_advance inject event r s again) adv in
        elim cases [
          | inl (bad, r) ↦ (
            record { result = err bad; feed = record o.feed { failed = true }; world = s },
            start ∙ after_bad inject event o bad s again r,
            inl (bad, refl, refl),
          )
          | inr (x, r) ↦
              let (v, loop, ended) =
                inject_loop_lem (source_length feed.reader.source + 3) o.feed o.calls s a.is_feed
                  (λ always. a.awake always r) small in
              (
                v,
                start ∙ after_fine inject event o x s again r ∙ loop,
                elim ended [
                  | inl failed ↦ inl failed
                  | inr serves ↦ inr (resume-Serves feed s o v p a r serves)
                ],
              )
        ]

    -- A call on a feed that has not failed ends, whenever it is stopped. Either it fails and marks
    -- the feed as failed, or it has delivered inputs from the front of those that the feed had left,
    -- in order, none of them later than the time, and leaves exactly the others, so that none is
    -- lost or given twice. If it is never stopped, the next input is later than the time, or there
    -- is none. The condition is that the feed's reader is healthy, and at its end where the feed says
    -- so; the feed that it leaves is such a feed again.
    pub inject_due_while_lem :
        (feed : ReplayFeed) (s : S)
        → IsFeed json feed
        → feed.failed ≡ false
        → (i : Injection inject event) × (inject_due_while inject event json running time feed s
            ≡ some i)
          × Ended inject event json running time feed s i
    inject_due_while_lem feed s i f =
        let fuel = source_length feed.reader.source + 3 in
        elim (Option-cases feed.pending) [
          | inr (p, at) ↦
              let one : length (listed feed.pending) ≡ 1 = ap (λ q. length (listed q)) at in
              let (v, loop, ended) =
                inject_loop_lem fuel feed 0 s i (λ _ q. cc)
                  (omega (arith, one, length-remaining feed.reader)) in
              (v, straight feed s f (pending_test feed.pending feed.exhausted p at) ∙ loop, ended)
          | inl p ↦ elim (Bool-cases feed.exhausted) [
            | inl x ↦
                let none_left : length (listed feed.pending) ≡ 0 = ap (λ q. length (listed q)) p in
                let (v, loop, ended) =
                  inject_loop_lem fuel feed 0 s i (λ _ _. x)
                    (omega (arith, none_left, length-remaining feed.reader)) in
                (v, straight feed s f (end_test feed.pending feed.exhausted x) ∙ loop, ended)
            | inr more ↦
                let test = idle_test feed.pending feed.exhausted p more in
                let (o, adv, a, small) = resumed feed s i p in
                resume feed s p f test o adv a small (Result-cases o.result)
          ]
        ]
