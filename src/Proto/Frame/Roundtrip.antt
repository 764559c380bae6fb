-- ===== src/Proto/Frame/Roundtrip.antt =====
-- Encoding and decoding of the frame header of crates/mist-proto/src/frame.rs.
use mist.Prelude.{ℕ, zero, suc, ◌^◌, ◌<◌, ◌≡◌, refl, arith, ltb, if◌then◌else◌}
use mist.Prelude.Result.{ok, err}
use mist.Bytes.{to_le_bytes, from_le_bytes-to_le_bytes}
use mist.Proto.Frame.{FrameHeader, FrameKind, to_u8, encode, decode, kind_of, unknown_flags}

-- What the encoder is given by the type system, and the flags that it may set.
pub record IsFrame (h : FrameHeader) : Type 0 where
  pub len : h.len < 2 ^ 32
  pub flags : h.flags < 4
  pub seq : h.seq < 2 ^ 64

flags_known : (f : ℕ) → f < 4 → unknown_flags f ≡ 0
flags_known zero h = refl
flags_known (suc zero) h = refl
flags_known (suc (suc zero)) h = refl
flags_known (suc (suc (suc zero))) h = refl
flags_known (suc (suc (suc (suc n)))) h = absurd (omega arith)

kind_of-to_u8 : (k : FrameKind) → kind_of (to_u8 k) ≡ ok k
unfolding kind_of
kind_of-to_u8 FrameKind.ctl = refl
kind_of-to_u8 _ = refl

-- A header that the type admits and whose flags are known decodes to itself on every lane whose cap
-- holds its length, and is refused on every other lane.
pub header_decode-encode :
    (h : FrameHeader) (max_payload : ℕ)
    → IsFrame h
    → decode (encode h) max_payload ≡ (
        if ltb max_payload h.len then err (record { message = "frame exceeds lane cap" }) else ok h)
unfolding encode decode to_le_bytes
header_decode-encode h max_payload v =
    rw
      (
        kind_of-to_u8 h.kind,
        flags_known h.flags v.flags,
        from_le_bytes-to_le_bytes 4 h.len v.len,
        from_le_bytes-to_le_bytes 8 h.seq v.seq,
      )
      (ground arith)
