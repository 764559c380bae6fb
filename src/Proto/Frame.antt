-- ===== src/Proto/Frame.antt =====
-- crates/mist-proto/src/frame.rs: the 16-byte frame header, little-endian, and its decoder.
pub mod Roundtrip
use mathlib.Core.List.{reverse}
use Prim.Native.Nat.{bit_and, bit_or, ◌-◌}
use mist.Prelude.{
  ℕ, zero, suc, ◌+◌, Bool, true, false, not, ◌||◌, Option, none, some, List, [], ◌∷◌, ◌++◌, take,
  drop, length, ltb, ◌==◌, if◌then◌else◌, ◌≡◌, refl,
}
use mist.Prelude.Result.{Result, ok, err, ◌>>=◌, ◌>>◌}
use mist.Bytes.{to_le_bytes, from_le_bytes}
use mist.Proto.Caps.{max_frame, max_frame_bulk}
use mist.Proto.Validate.{ValidateError, Validated, refuse_if}

abbrev pub header_len : ℕ
header_len = 16

abbrev pub flag_more : ℕ
flag_more = 1

abbrev pub flag_compressed : ℕ
flag_compressed = 2

abbrev pub known_flags : ℕ
known_flags = bit_or flag_more flag_compressed

pub data FrameKind : Type 0 where
  ctl req resp event bulk : FrameKind

-- `kind as u8`
abbrev pub to_u8 : FrameKind → ℕ
to_u8 ctl = 0
to_u8 req = 1
to_u8 resp = 2
to_u8 event = 3
to_u8 bulk = 4

unfoldable pub from_u8 : ℕ → Option FrameKind
from_u8 v =
    if v == 0
    then some ctl
    else if v == 1
    then some req
    else if v == 2
    then some resp
    else if v == 3
    then some event
    else if v == 4
    then some bulk
    else none

pub record FrameHeader : Type 0 where
  pub len : ℕ
  pub kind : FrameKind
  pub flags : ℕ
  pub seq : ℕ

unfoldable pub encode : FrameHeader → List ℕ
encode h = to_le_bytes 4 h.len ++ (to_u8 h.kind ∷ h.flags ∷ 0 ∷ 0 ∷ []) ++ to_le_bytes 8 h.seq

-- The byte of the header at an index below 16.
abbrev pub at : List ℕ → ℕ → ℕ
at b i = elim (drop i b) [ [] ↦ 0 | x ∷ _ ↦ x ]

unfoldable pub kind_of : ℕ → Result ValidateError FrameKind
unfolding from_u8
kind_of v = elim (from_u8 v) [
  | none ↦ err (record { message = "unknown frame kind" })
  | some k ↦ ok k
]

-- `flags & !KNOWN_FLAGS` over a byte
abbrev pub unknown_flags : ℕ → ℕ
unknown_flags flags = bit_and flags (255 - known_flags)

unfoldable pub decode : List ℕ → ℕ → Result ValidateError FrameHeader
unfolding kind_of
decode b max_payload =
    let len = from_le_bytes (take 4 b) in
    let flags = at b 5 in
    kind_of (at b 4) >>= λ kind.
    refuse_if (not (unknown_flags flags == 0)) "unknown frame flags" >>= λ _.
    refuse_if (not (at b 6 == 0) || not (at b 7 == 0)) "reserved header bytes nonzero" >>= λ _.
    refuse_if (ltb max_payload len) "frame exceeds lane cap" >>= λ _.
    ok (record { len = len; kind = kind; flags = flags; seq = from_le_bytes (take 8 (drop 8 b)) })

unfoldable pub cap_for_bulk : Bool → ℕ
cap_for_bulk is_bulk_lane = if is_bulk_lane then max_frame_bulk else max_frame
