-- ===== src/Mistd/Journal/Batches.antt =====
-- The batches of crates/mistd/src/linux/journal.rs against the records that arrive.
use mist.Prelude.{
  ℕ, zero, suc, ◌+◌, ◌%◌, ◌^◌, ◌≤◌, ◌<◌, List, [], ◌∷◌, ◌++◌, length, append_assoc, ◌≡◌, refl, ap,
  ◌∙◌, arith, inl, inr, Bool-cases, length-append,
}
use mist.Prelude.Result.{ok}
use mist.Proto.Validate.{All}
use mist.Proto.Msg.{Rec, JournalBatch, journal_batch, validate_event}
use mist.Proto.Msg.Accepts.{RecIsValid, EventIsValid, validate_event_iff}
use mist.Mistd.Journal.{
  Signal, arrives, deadline, is_open, accumulate, approx_size, rounds, batcher,
}

-- The records that arrive.
unfoldable pub received : List Signal → List Rec
received [] = []
received (arrives r ∷ signals) = r ∷ received signals
received (deadline ∷ signals) = received signals

-- The records of all batches, one batch behind the other.
unfoldable pub sent : List JournalBatch → List Rec
sent [] = []
sent (b ∷ batches) = b.records ++ sent batches

-- Each batch is numbered where the one before it ended.
abbrev pub Numbered : ℕ → List JournalBatch → Type 0
Numbered seq [] = Unit
Numbered seq (b ∷ batches) =
    (b.first_seq ≡ seq) × Numbered ((seq + length b.records) % 2 ^ 64) batches

accumulate-received :
    (records : List Rec) (bytes : ℕ) (signals : List Signal)
    → (accumulate records bytes signals).0 ++ received (accumulate records bytes signals).1
      ≡ records ++ received signals
unfolding accumulate received
accumulate-received records bytes [] = refl
accumulate-received records bytes (deadline ∷ signals) = elim (Bool-cases (is_open records bytes)) [
  | inl t ↦ rw t refl
  | inr f ↦ rw f refl
]
accumulate-received records bytes (arrives r ∷ signals) =
    elim (Bool-cases (is_open records bytes)) [
      | inl t ↦ rw t (
          accumulate-received (records ++ r ∷ []) (bytes + approx_size r) signals
          ∙ append_assoc records (r ∷ []) (received signals))
      | inr f ↦ rw f refl
    ]

length-accumulate :
    (records : List Rec) (bytes : ℕ) (signals : List Signal)
    → length (accumulate records bytes signals).1 ≤ length signals
unfolding accumulate
length-accumulate records bytes [] = omega arith
length-accumulate records bytes (deadline ∷ signals) = ground arith
length-accumulate records bytes (arrives r ∷ signals) =
    ground (arith, length-accumulate (records ++ r ∷ []) (bytes + approx_size r) signals)

accumulate_bounds :
    (records : List Rec) (bytes : ℕ) (signals : List Signal)
    → 0 < length records
    → length records ≤ 512
    → (0 < length (accumulate records bytes signals).0)
      × (length (accumulate records bytes signals).0 ≤ 512)
unfolding accumulate
accumulate_bounds records bytes [] h k = (h, k)
accumulate_bounds records bytes (deadline ∷ signals) h k = (h, k)
accumulate_bounds records bytes (arrives r ∷ signals) h k = ground (
  arith,
  length-append records (r ∷ []),
  accumulate_bounds (records ++ r ∷ []) (bytes + approx_size r) signals,
)

rounds-sent :
    (fuel share seq : ℕ) (signals : List Signal)
    → length signals ≤ fuel
    → sent (rounds fuel share seq signals) ≡ received signals
unfolding rounds sent received
rounds-sent zero share seq [] h = refl
rounds-sent zero share seq (s ∷ signals) h = absurd (omega arith)
rounds-sent (suc fuel) share seq [] h = refl
rounds-sent (suc fuel) share seq (deadline ∷ signals) h =
    rounds-sent fuel share seq signals (omega arith)
rounds-sent (suc fuel) share seq (arrives r ∷ signals) h =
    let got = accumulate (r ∷ []) 64 signals in
    ap (λ l. got.0 ++ l)
      (rounds-sent fuel share _ got.1 (omega (arith, length-accumulate (r ∷ []) 64 signals)))
    ∙ accumulate-received (r ∷ []) 64 signals

rounds-Numbered :
    (fuel share seq : ℕ) (signals : List Signal) → Numbered seq (rounds fuel share seq signals)
unfolding rounds
rounds-Numbered zero share seq signals = tt
rounds-Numbered (suc fuel) share seq [] = tt
rounds-Numbered (suc fuel) share seq (deadline ∷ signals) = rounds-Numbered fuel share seq signals
rounds-Numbered (suc fuel) share seq (arrives r ∷ signals) = (refl, rounds-Numbered fuel share _ _)

-- The batches hold all the records that arrive, in their order and no other, whenever deadlines
-- pass; the first is numbered 1, and each is numbered where the one before it ended, modulo 2^64.
pub batcher-sent :
    (share : ℕ) (signals : List Signal)
    → (sent (batcher share signals) ≡ received signals) × Numbered 1 (batcher share signals)
unfolding batcher
batcher-sent share signals = (
  rounds-sent (length signals) share 1 signals (omega arith),
  rounds-Numbered (length signals) share 1 signals,
)

All-append_right : (P : Rec → Type 0) (xs ys : List Rec) → All P (xs ++ ys) → All P xs × All P ys
All-append_right P [] ys h = (tt, h)
All-append_right P (x ∷ xs) ys h =
    let both = All-append_right P xs ys h.1 in ((h.0, both.0), both.1)

abbrev IsAccepted : JournalBatch → Type 0
IsAccepted b = validate_event (journal_batch b) ≡ ok tt

rounds-IsAccepted :
    (fuel share seq : ℕ) (signals : List Signal)
    → All RecIsValid (received signals)
    → All IsAccepted (rounds fuel share seq signals)
unfolding rounds received
rounds-IsAccepted zero share seq signals h = tt
rounds-IsAccepted (suc fuel) share seq [] h = tt
rounds-IsAccepted (suc fuel) share seq (deadline ∷ signals) h =
    rounds-IsAccepted fuel share seq signals h
rounds-IsAccepted (suc fuel) share seq (arrives r ∷ signals) h =
    let got = accumulate (r ∷ []) 64 signals in
    let all : All RecIsValid (got.0 ++ received got.1) =
      rw (accumulate-received (r ∷ []) 64 signals) h in
    let both = All-append_right RecIsValid got.0 (received got.1) all in
    let bounds = accumulate_bounds (r ∷ []) 64 signals (omega arith) (omega arith) in
    (
      (validate_event_iff (journal_batch _)).1
          (unfold EventIsValid in (bounds.0, bounds.1, both.0)),
      rounds-IsAccepted fuel share _ got.1 both.1,
    )

-- If every record that arrives is one that validation accepts, then the host's validation accepts
-- every batch: none is empty, and none has more than 512 records.
pub batcher-IsAccepted :
    (share : ℕ) (signals : List Signal)
    → All RecIsValid (received signals)
    → All (λ b. validate_event (journal_batch b) ≡ ok tt) (batcher share signals)
unfolding batcher
batcher-IsAccepted share signals h = rounds-IsAccepted (length signals) share 1 signals h
