-- ===== src/Tests/Changes.antt =====
-- Concrete inputs for the theorems about crates/mist-hostd/src/conflicts.rs and
-- crates/mistd/src/linux/journal.rs.
use mist.Prelude.{◌%◌, ◌^◌, List, [], ◌∷◌, none, length, ◌≡◌, arith}
use mist.Prelude.Result.{ok}
use mist.Proto.Validate.{All}
use mist.Proto.Msg.{overflow, self_removed, journal_batch, validate_event}
use mist.Proto.Msg.Accepts.{RecIsValid}
use mist.Mistd.Journal.{Signal, arrives, deadline, batcher}
use mist.Mistd.Journal.Batches.{received, sent, Numbered, batcher-sent, batcher-IsAccepted}
use mist.Hostd.Conflicts.{Target, default}
use mist.Hostd.Conflicts.Spec.{Note, mac, guest, run, conflicts, latest}
use mist.Hostd.Conflicts.Shows.{run-conflicts}

abbrev signals : List Signal
signals =
    arrives overflow
    ∷ deadline
    ∷ arrives (self_removed (record { ino = 7; generation = 1 }))
    ∷ arrives overflow
    ∷ []

batcher-sent_example :
    (sent (batcher 3 signals) ≡ received signals) × Numbered 1 (batcher 3 signals)
batcher-sent_example = batcher-sent 3 signals

batcher-IsAccepted_example : All (λ b. validate_event (journal_batch b) ≡ ok tt) (batcher 3 signals)
unfolding received RecIsValid
batcher-IsAccepted_example = batcher-IsAccepted 3 signals (tt, (tt, (tt, tt)))

abbrev file : Target
file = record { share = 0; node = record { ino = 7; generation = 1 } }

-- Two changes of one file, 2 seconds apart, and one of the first side 8 seconds later.
abbrev notes : List Note
notes =
    mac (record { check = 10; set = 10; prune = λ _. 11; end = 11; unix_ms = 1 }) file none "write"
    ∷ guest
        (record {
          check = 2000000000;
          set = 2000000000;
          prune = λ _. 2000000001;
          end = 2000000001;
          unix_ms = 2000;
        })
        file none
    ∷ mac
        (record {
          check = 10000000000;
          set = 10000000000;
          prune = λ _. 10000000001;
          end = 10000000001;
          unix_ms = 10000;
        })
        file none "write"
    ∷ []

run-conflicts_example :
    ((run default notes).rows ≡ latest (conflicts [] notes))
    × ((run default notes).total ≡ length (conflicts [] notes) % 2 ^ 64)
run-conflicts_example = run-conflicts 0 notes (
  omega arith,
  omega arith,
  λ k. (omega arith, omega arith),
  (
    omega arith,
    omega arith,
    λ k. (omega arith, omega arith),
    (omega arith, omega arith, λ k. (omega arith, omega arith), tt),
  ),
)
