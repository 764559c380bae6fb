-- ===== src/Nfs/Xdr/Writer.antt =====
-- `XdrWriter` of crates/mist-nfs/src/xdr.rs.
use mist.Prelude.{
  ℕ, zero, suc, ◌+◌, ◌-◌, ◌%◌, ◌^◌, Bool, true, false, not, List, [], ◌∷◌, ◌++◌, length, take, drop,
  replicate, ◌==◌, if◌then◌else◌,
}
use mist.Bytes.{to_be_bytes}

pub record XdrWriter : Type 0 where
  pub buf : List ℕ

abbrev pub new : XdrWriter
new = record { buf = [] }

abbrev extend : XdrWriter → List ℕ → XdrWriter
extend w bytes = record { buf = w.buf ++ bytes }

-- `len` and `pos`
unfoldable pub pos : XdrWriter → ℕ
pos w = length w.buf

-- Rust panics where the four bytes are not there; `Patch.InRange` is the caller's side.
unfoldable pub patch_u32 : XdrWriter → ℕ → ℕ → XdrWriter
patch_u32 w at v = record { buf = take at w.buf ++ (to_be_bytes 4 v ++ drop (at + 4) w.buf) }

unfoldable pub truncate : XdrWriter → ℕ → XdrWriter
truncate w at = record { buf = take at w.buf }

unfoldable pub since : XdrWriter → ℕ → List ℕ
since w at = drop at w.buf

-- The loop pushes a zero until the length is a multiple of 4; three rounds are enough.
unfoldable pub pad_loop : ℕ → XdrWriter → XdrWriter
pad_loop zero w = w
pad_loop (suc fuel) w = elim (length w.buf % 4 == 0) [
  | true ↦ w
  | false ↦ pad_loop fuel (extend w (0 ∷ []))
]

unfoldable pub pad_to_4 : XdrWriter → XdrWriter
pad_to_4 w = pad_loop 4 w

unfoldable pub u32 : XdrWriter → ℕ → XdrWriter
u32 w v = extend w (to_be_bytes 4 v)

unfoldable pub u64 : XdrWriter → ℕ → XdrWriter
u64 w v = extend w (to_be_bytes 8 v)

unfoldable pub bool : XdrWriter → Bool → XdrWriter
unfolding u32
bool w v = u32 w (if v then 1 else 0)

unfoldable pub pad : XdrWriter → ℕ → XdrWriter
pad w len = let rem = len % 4 in if not (rem == 0) then extend w (replicate (4 - rem) 0) else w

-- The length is cast to 32 bits.
unfoldable pub opaque : XdrWriter → List ℕ → XdrWriter
unfolding u32 pad
opaque w payload = pad (extend (u32 w (length payload % 2 ^ 32)) payload) (length payload)

unfoldable pub fixed : XdrWriter → List ℕ → XdrWriter
unfolding pad
fixed w payload = pad (extend w payload) (length payload)
