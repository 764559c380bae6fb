-- ===== src/Mistd/Journal.antt =====
-- crates/mistd/src/linux/journal.rs: the batcher of a share's journal. What its thread sees of the
-- channel and of the clock is a list of signals; the list's end is the end of the engine. The
-- batches that it broadcasts are its result.
pub mod Batches
use mist.Prelude.{
  ℕ, zero, suc, ◌+◌, ◌*◌, ◌%◌, ◌^◌, Bool, true, false, ◌&&◌, List, [], ◌∷◌, ◌++◌, length, ltb,
  if◌then◌else◌,
}
use mist.Proto.Msg.{
  Rec, created, created_batch, removed, renamed, attr_changed, content, self_removed, overflow,
  echo_marker, JournalBatch,
}

abbrev pub max_records : ℕ
max_records = 512

abbrev pub max_batch_bytes : ℕ
max_batch_bytes = 65536

unfoldable pub approx_size : Rec → ℕ
approx_size (created _ name _ _) = 48 + length name.bytes
approx_size (created_batch _ entries) = 16 + length entries * 64
approx_size (removed _ name) = 24 + length name.bytes
approx_size (renamed _ from_name _ to_name) = 48 + length from_name.bytes + length to_name.bytes
approx_size (attr_changed _ _) = 64
approx_size (content _ _ _ _ _) = 40
approx_size (self_removed _) = 16
approx_size overflow = 8
approx_size (echo_marker _) = 8

-- A record arrives, or the deadline of the batch passes, which only a thread that waits for more
-- records notices.
pub data Signal : Type 0 where
  arrives : Rec → Signal
  deadline : Signal

abbrev is_open : List Rec → ℕ → Bool
is_open records bytes = ltb (length records) max_records && ltb bytes max_batch_bytes

-- The inner loop: the records of the batch, and the signals that are left.
unfoldable pub accumulate : List Rec → ℕ → List Signal → List Rec × List Signal
accumulate records bytes [] = (records, [])
accumulate records bytes (deadline ∷ signals) =
    (records, if is_open records bytes then signals else deadline ∷ signals)
accumulate records bytes (arrives r ∷ signals) =
    let rest = accumulate (records ++ r ∷ []) (bytes + approx_size r) signals in
    if is_open records bytes then rest else (records, arrives r ∷ signals)

-- The outer loop, on fuel: each round takes a signal at least.
unfoldable pub rounds : ℕ → ℕ → ℕ → List Signal → List JournalBatch
unfolding accumulate
rounds zero share seq signals = []
rounds (suc fuel) share seq [] = []
rounds (suc fuel) share seq (deadline ∷ signals) = rounds fuel share seq signals
rounds (suc fuel) share seq (arrives r ∷ signals) =
    let (records, left) = accumulate (r ∷ []) 64 signals in
    record { share = share; first_seq = seq; guest_mono_ns = 0; records = records }
    ∷ rounds fuel share ((seq + length records) % 2 ^ 64) left

unfoldable pub batcher : ℕ → List Signal → List JournalBatch
unfolding rounds
batcher share signals = rounds (length signals) share 1 signals
