-- ===== src/ReplayFeed/Advance.antt =====
-- replay_feed.rs, `advance`: it moves to the next input of the log, or stops before it.
use Prim.Native.String.{String}
use cfw.Prelude.{
  ℕ, zero, suc, ◌+◌, ◌≤◌, ◌<◌, ◌≡◌, refl, ap, sym, ◌∙◌, inl, inr, Bool, true, false, Option, none,
  some, List, [], ◌∷◌, ◌++◌, length, arith, Bool-cases, Option-cases,
}
use cfw.Prelude.Result.{Result, ok, err, Result-cases}
use cfw.Schema.{ExecutionDescriptor, Decoders}
use cfw.SortedLog.{OwnedLogEntry}
use cfw.SortedLog.Reader.{SortedLogStreamReader, source_length}
use cfw.SortedLog.Reader.Laws.{remaining, IsHealthy, rest_of, next_entry_lem, length-remaining}
use cfw.ReplayFeed.{
  Pending, FeedError, ReplayFeed, Outcome, classify, take_read, advance_loop, advance,
}

abbrev pub listed : Option Pending → List Pending
listed none = []
listed (some p) = p ∷ []

abbrev pub picked : Result FeedError (Option Pending) → List Pending
picked (err e) = []
picked (ok o) = listed o

module _ (json : Decoders) where
  -- The inputs among some entries of a log.
  abbrev pub selected : Option ExecutionDescriptor → List String → List OwnedLogEntry → List Pending
  selected d denied [] = []
  selected d denied (e ∷ es) = picked (classify json d denied e) ++ selected d denied es

  -- The inputs that a feed has still to give.
  abbrev pub left : ReplayFeed → List Pending
  left feed = listed feed.pending ++ selected feed.descriptor feed.denied (remaining feed.reader)

  abbrev pub size : ReplayFeed → ℕ
  size feed = length (listed feed.pending) + length (remaining feed.reader)

  -- A feed that agrees with another but for its place in the log.
  pub record Follows (feed next : ReplayFeed) : Type 0 where
    pub sources_eq : next.sources ≡ feed.sources
    pub descriptor_eq : next.descriptor ≡ feed.descriptor
    pub denied_eq : next.denied ≡ feed.denied
    pub failed_eq : next.failed ≡ feed.failed

  pub record IsFeed (feed : ReplayFeed) : Type 0 where
    pub healthy : IsHealthy feed.reader
    pub at_end : feed.exhausted ≡ true → remaining feed.reader ≡ []

  module _ (running : ℕ → Bool) where
    pub record Advanced (feed : ReplayFeed) (es : List OwnedLogEntry) (o : Outcome (Unit {0}))
        : Type 0 where
      pub follows : Follows feed o.feed
      pub is_feed : IsFeed o.feed
      pub smaller : size o.feed ≤ length es
      pub accounts : o.result ≡ ok tt → left o.feed ≡ selected feed.descriptor feed.denied es
      pub awake :
          ((n : ℕ) → running n ≡ true)
          → o.result ≡ ok tt
          → o.feed.pending ≡ none
          → o.feed.exhausted ≡ true

    left_rest :
        (feed : ReplayFeed) (es : List OwnedLogEntry)
        → feed.pending ≡ none
        → remaining feed.reader ≡ es
        → left feed ≡ selected feed.descriptor feed.denied es
    left_rest feed es p e =
        ap (λ q. listed q ++ selected feed.descriptor feed.denied (remaining feed.reader)) p
        ∙ ap (selected feed.descriptor feed.denied) e

    size_rest :
        (feed : ReplayFeed) (es : List OwnedLogEntry)
        → feed.pending ≡ none
        → remaining feed.reader ≡ es
        → size feed ≤ length es
    size_rest feed es p e =
        let one : length (listed feed.pending) ≡ 0 = ap (λ q. length (listed q)) p in
        let rest : length (remaining feed.reader) ≡ length es = ap (λ l. length l) e in
        omega (arith, one, rest)

    -- A feed that has moved to what follows one entry, and may be at the end.
    abbrev moved : ReplayFeed → SortedLogStreamReader → ReplayFeed
    moved feed reader = record feed { reader = reader }

    Follows-refl : (feed : ReplayFeed) → Follows feed feed
    Follows-refl feed = record {
      sources_eq = refl;
      descriptor_eq = refl;
      denied_eq = refl;
      failed_eq = refl;
    }

    stopped-Advanced :
        (feed : ReplayFeed) (calls : ℕ) (es : List OwnedLogEntry)
        → IsFeed feed
        → feed.pending ≡ none
        → remaining feed.reader ≡ es
        → running calls ≡ false
        → Advanced feed es (record { result = ok tt; feed = feed; calls = calls + 1 })
    stopped-Advanced feed calls es i p e paused = record {
      follows = Follows-refl feed;
      is_feed = i;
      smaller = size_rest feed es p e;
      accounts = λ _. left_rest feed es p e;
      awake = λ always. cc (always calls);
    }

    end-Advanced :
        (feed : ReplayFeed) (reader : SortedLogStreamReader) (calls : ℕ)
        → feed.pending ≡ none
        → IsHealthy reader
        → remaining reader ≡ []
        → Advanced feed [] (record {
          result = ok tt;
          feed = record feed { reader = reader; exhausted = true };
          calls = calls;
        })
    end-Advanced feed reader calls p h e =
        let next = record feed { reader = reader; exhausted = true } in
        record {
          follows = record {
            sources_eq = refl;
            descriptor_eq = refl;
            denied_eq = refl;
            failed_eq = refl;
          };
          is_feed = record { healthy = h; at_end = λ _. e };
          smaller = size_rest next [] p e;
          accounts = λ _. left_rest next [] p e;
          awake = λ _ _ _. refl;
        }

    module _ (feed : ReplayFeed) (reader : SortedLogStreamReader) (calls : ℕ) (x : OwnedLogEntry)
        (es : List OwnedLogEntry) (healthy : IsHealthy reader) (e : remaining reader ≡ es)
        (none_left : feed.exhausted ≡ true → x ∷ es ≡ []) where
      abbrev seen : ReplayFeed
      seen = record feed { reader = reader; last_time = some x.header.published_at }

      seen-IsFeed : IsFeed seen
      seen-IsFeed = record { healthy = healthy; at_end = λ t. cc (none_left t) }

      error-Advanced :
          (bad : FeedError)
          → feed.pending ≡ none
          → Advanced feed (x ∷ es) (record { result = err bad; feed = seen; calls = calls })
      error-Advanced bad p = record {
        follows = record {
          sources_eq = refl;
          descriptor_eq = refl;
          denied_eq = refl;
          failed_eq = refl;
        };
        is_feed = seen-IsFeed;
        smaller = omega (arith, size_rest seen es p e);
        accounts = λ never. cc;
        awake = λ _ never. cc;
      }

      pending-Advanced :
          (q : Pending)
          → classify json feed.descriptor feed.denied x ≡ ok (some q)
          → Advanced feed
              (x ∷ es)
              (record { result = ok tt; feed = record seen { pending = some q }; calls = calls })
      pending-Advanced q c = record {
        follows = record {
          sources_eq = refl;
          descriptor_eq = refl;
          denied_eq = refl;
          failed_eq = refl;
        };
        is_feed = record { healthy = healthy; at_end = seen-IsFeed.at_end };
        smaller = omega (arith, ap (λ l. length l) e);
        accounts = λ _. rw (c, e) refl;
        awake = λ _ _ never. cc;
      }

      skip-Advanced :
          (o : Outcome (Unit {0}))
          → classify json feed.descriptor feed.denied x ≡ ok none
          → Advanced seen es o
          → Advanced feed (x ∷ es) o
      skip-Advanced o c a = record {
        follows = record {
          sources_eq = a.follows.sources_eq;
          descriptor_eq = a.follows.descriptor_eq;
          denied_eq = a.follows.denied_eq;
          failed_eq = a.follows.failed_eq;
        };
        is_feed = a.is_feed;
        smaller = omega (arith, a.smaller);
        accounts = λ r. rw c (a.accounts r);
        awake = a.awake;
      }

    advance_loop_lem :
        (fuel : ℕ) (feed : ReplayFeed) (calls : ℕ) (es : List OwnedLogEntry)
        → IsFeed feed
        → feed.pending ≡ none
        → remaining feed.reader ≡ es
        → length es < fuel
        → (o : Outcome (Unit {0})) × (advance_loop json running fuel feed calls ≡ some o)
          × Advanced feed es o
    unfolding advance_loop take_read
    advance_loop_lem zero feed calls es i p e lt = elim lt [ ]
    advance_loop_lem (suc fuel) feed calls [] i p e lt = elim (Bool-cases (running calls)) [
      | inr paused ↦
          (_, rw (paused, advance_loop) refl, stopped-Advanced feed calls [] i p e paused)
      | inl on ↦
          let (reader, step, rest, healthy) = next_entry_lem feed.reader i.healthy in
          (
            _,
            rw (on, advance_loop, step, e, take_read) refl,
            end-Advanced feed reader (calls + 1) p healthy (rest ∙ ap rest_of e),
          )
    ]
    advance_loop_lem (suc fuel) feed calls (x ∷ es) i p e lt = elim (Bool-cases (running calls)) [
      | inr paused ↦
          (_, rw (paused, advance_loop) refl, stopped-Advanced feed calls (x ∷ es) i p e paused)
      | inl on ↦
          let (reader, step, rest, healthy) = next_entry_lem feed.reader i.healthy in
          let e' : remaining reader ≡ es = rest ∙ ap rest_of e in
          let none_left = λ (t : feed.exhausted ≡ true). sym e ∙ i.at_end t in
          elim (Result-cases (classify json feed.descriptor feed.denied x)) [
            | inl (bad, c) ↦ (
              record {
                result = err bad;
                feed = seen feed reader (calls + 1) x es healthy e' none_left;
                calls = calls + 1;
              },
              rw (on, advance_loop, step, e, take_read, c) refl,
              error-Advanced feed reader (calls + 1) x es healthy e' none_left bad p,
            )
            | inr (o, c) ↦ elim (Option-cases o) [
              | inl skip ↦
                  let c' = c ∙ ap ok skip in
                  let seen' = seen feed reader (calls + 1) x es healthy e' none_left in
                  let (o, loop, a) =
                    advance_loop_lem fuel seen' (calls + 1) es
                      (seen-IsFeed feed reader (calls + 1) x es healthy e' none_left) p e'
                      (omega (arith, lt)) in
                  (
                    o,
                    rw (on, advance_loop, step, e, take_read, c') loop,
                    skip-Advanced feed reader (calls + 1) x es healthy e' none_left o c' a,
                  )
              | inr (q, take) ↦ (
                record {
                  result = ok tt;
                  feed = record (seen feed reader (calls + 1) x es healthy e' none_left) {
                    pending = some q;
                  };
                  calls = calls + 1;
                },
                rw (on, advance_loop, step, e, take_read, c ∙ ap ok take) refl,
                pending-Advanced feed reader (calls + 1) x es healthy e' none_left q
                    (c ∙ ap ok take),
              )
            ]
          ]
    ]

    -- Advancing ends, with the fuel that it is given.
    pub advance_lem :
        (feed : ReplayFeed) (calls : ℕ)
        → IsFeed feed
        → (o : Outcome (Unit {0})) × (advance json running feed calls ≡ some o)
          × Advanced (record feed { pending = none }) (remaining feed.reader) o
    unfolding advance
    advance_lem feed calls i =
        advance_loop_lem (source_length feed.reader.source + 2) (record feed { pending = none })
          calls (remaining feed.reader) (record { healthy = i.healthy; at_end = i.at_end }) refl
          refl (length-remaining feed.reader)
