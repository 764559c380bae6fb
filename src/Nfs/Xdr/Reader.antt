-- ===== src/Nfs/Xdr/Reader.antt =====
-- `XdrReader` of crates/mist-nfs/src/xdr.rs. A call returns `none` for `XdrError`, and the reader
-- as the call left it.
use mist.Prelude.{
  ℕ, ◌+◌, ◌-◌, ◌%◌, Bool, not, Option, none, some, List, length, take as take_list, drop, ltb, ◌==◌,
  if◌then◌else◌,
}
use mist.Bytes.{from_be_bytes}

pub record XdrReader : Type 0 where
  pub buf : List ℕ
  pub pos : ℕ

abbrev pub R : Type 0 → Type 0
R A = XdrReader → Option A × XdrReader

abbrev pub pure : {A : Type 0} → A → R A
pure a r = (some a, r)

abbrev pub fail : {A : Type 0} → R A
fail r = (none, r)

abbrev pub continue : {A B : Type 0} → Option A → (A → R B) → R B
continue none f r = (none, r)
continue (some a) f r = f a r

infixl 5 ◌>>=◌ ◌>>◌
unfoldable pub ◌>>=◌ : {A B : Type 0} → R A → (A → R B) → R B
◌>>=◌ m f r = let (o, r') = m r in continue o f r'

abbrev pub ◌>>◌ : {A B : Type 0} → R A → R B → R B
m >> k = m >>= λ _. k

unfoldable pub new : List ℕ → XdrReader
new buf = record { buf = buf; pos = 0 }

unfoldable pub remaining : XdrReader → ℕ
remaining r = length r.buf - r.pos

unfoldable pub take : ℕ → R (List ℕ)
take n r =
    if ltb (length r.buf) (r.pos + n)
    then (none, r)
    else (some (take_list n (drop r.pos r.buf)), record r { pos = r.pos + n })

unfoldable pub u32 : R ℕ
u32 = do bytes ← take 4; pure (from_be_bytes bytes)

unfoldable pub u64 : R ℕ
u64 = do bytes ← take 8; pure (from_be_bytes bytes)

unfoldable pub bool : R Bool
bool = do v ← u32; pure (not (v == 0))

-- The padding after `len` bytes.
unfoldable pub skip_pad : ℕ → R (Unit {0})
skip_pad len =
    let rem = len % 4 in if not (rem == 0) then (do _ ← take (4 - rem); pure tt) else pure tt

unfoldable pub opaque : ℕ → R (List ℕ)
opaque max = do
  len ← u32
  if ltb max len then fail else do payload ← take len; _ ← skip_pad len; pure payload

unfoldable pub fixed : ℕ → R (List ℕ)
fixed n = do payload ← take n; _ ← skip_pad n; pure payload

unfoldable pub skip_opaque : ℕ → R (Unit {0})
skip_opaque max = do _ ← opaque max; pure tt
