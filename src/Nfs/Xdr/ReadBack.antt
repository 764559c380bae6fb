-- ===== src/Nfs/Xdr/ReadBack.antt =====
-- The writer's methods against the reader's, of crates/mist-nfs/src/xdr.rs.
use mist.Prelude.{
  ℕ, ◌+◌, ◌-◌, ◌%◌, ◌^◌, ◌≤◌, ◌<◌, Bool, some, List, ◌++◌, length, ◌==◌, ◌≡◌, refl, sym, ap, ◌∙◌,
  arith, append_assoc, append-nil, length-append, length-replicate, Bool-cases, inl, inr,
}
use mist.Bytes.{to_be_bytes, length-to_be_bytes}
use mist.Nfs.Xdr.Reader
use mist.Nfs.Xdr.Reader.{R, ◌>>=◌}
use mist.Nfs.Xdr.Writer
use mist.Nfs.Xdr.Writer.{XdrWriter}
use mist.Nfs.Xdr.Roundtrip.{
  Reads, Reads-u32, Reads-u64, Reads-bool, Reads-opaque, Reads-fixed, padding, opaque_bytes,
}

-- A reader over the bytes of `w'` and any that follow, at the position where `w` stood, reads `a` and
-- stops where `w'` stands.
pub ReadsBack : {A : Type 0} → R A → A → XdrWriter → XdrWriter → Type 0
ReadsBack m a w w' =
    (rest : List ℕ)
    → m (record { buf = w'.buf ++ rest; pos = length w.buf })
      ≡ (some a, record { buf = w'.buf ++ rest; pos = length w'.buf })

ReadsBack-of_Reads :
    {A : Type 0} (m : R A) {a : A} {xs : List ℕ} (w w' : XdrWriter)
    → w'.buf ≡ w.buf ++ xs
    → Reads m a xs
    → ReadsBack m a w w'
unfolding ReadsBack
ReadsBack-of_Reads m {xs = xs} w w' e reads rest =
    reads.at (record { buf = w'.buf ++ rest; pos = length w.buf }) w.buf rest
      (ap (λ l. l ++ rest) e ∙ append_assoc w.buf xs rest) refl
    ∙ ground (arith, ap length e, length-append w.buf xs)

pub pad-buf : (w : XdrWriter) (n : ℕ) → (Writer.pad w n).buf ≡ w.buf ++ padding n
unfolding Writer.pad
pad-buf w n = elim (Bool-cases (n % 4 == 0)) [ inl e ↦ rw e (sym (append-nil _)) | inr e ↦ rw e ]

pub opaque-buf :
    (w : XdrWriter) (payload : List ℕ)
    → length payload < 2 ^ 32
    → (Writer.opaque w payload).buf ≡ w.buf ++ opaque_bytes payload
unfolding Writer.opaque
opaque-buf w payload h =
    let small : length payload % 2 ^ 32 ≡ length payload = omega arith in
    rw (pad-buf, small) (simp append_assoc)

pub fixed-buf :
    (w : XdrWriter) (payload : List ℕ)
    → (Writer.fixed w payload).buf ≡ w.buf ++ (payload ++ padding (length payload))
unfolding Writer.fixed
fixed-buf w payload = rw pad-buf (simp append_assoc)

-- What `u32`, `u64` and `bool` of the writer append, the methods of those names of the reader read
-- back from where the writer stood, whatever follows, and they stop where the writer stopped.
pub primitives_read_back :
    (w : XdrWriter) (v x : ℕ) (b : Bool)
    → v < 2 ^ 32
    → x < 2 ^ 64
    → ReadsBack Reader.u32 v w (Writer.u32 w v)
      × ReadsBack Reader.u64 x w (Writer.u64 w x)
      × ReadsBack Reader.bool b w (Writer.bool w b)
unfolding Writer.u32 Writer.u64 Writer.bool
primitives_read_back w v x b h k = (
  ReadsBack-of_Reads Reader.u32 w _ refl (Reads-u32 v h),
  ReadsBack-of_Reads Reader.u64 w _ refl (Reads-u64 x k),
  ReadsBack-of_Reads Reader.bool w _ refl (Reads-bool b),
)

-- What `opaque` and `fixed` of the writer append, the reader reads back, the padding skipped: an
-- opaque of less than 2^32 bytes under every cap that holds it, and a fixed opaque of any length.
pub opaques_read_back :
    (w : XdrWriter) (payload : List ℕ) (max : ℕ)
    → length payload ≤ max
    → length payload < 2 ^ 32
    → ReadsBack (Reader.opaque max) payload w (Writer.opaque w payload)
      × ReadsBack (Reader.fixed (length payload)) payload w (Writer.fixed w payload)
opaques_read_back w payload max small h = (
  ReadsBack-of_Reads (Reader.opaque max) w _ (opaque-buf w payload h)
      (Reads-opaque max payload small h),
  ReadsBack-of_Reads (Reader.fixed (length payload)) w _ (fixed-buf w payload)
      (Reads-fixed (length payload) payload refl),
)

length-padding : (n : ℕ) → (length (padding n) + n) % 4 ≡ 0
length-padding n = ground (arith, length-replicate {A = ℕ} (4 - n % 4) 0)

-- An opaque of less than 2^32 bytes, or a fixed one, leaves a writer that stood at a multiple of 4 at
-- a multiple of 4.
opaques_aligned :
    (w : XdrWriter) (payload : List ℕ)
    → length w.buf % 4 ≡ 0
    → length payload < 2 ^ 32
    → (length (Writer.opaque w payload).buf % 4 ≡ 0) × (length (Writer.fixed w payload).buf % 4 ≡ 0)
opaques_aligned w payload h small =
    let n = length payload in
    (
      rw (opaque-buf w payload small) (
          omega (
            arith,
            length-append w.buf (opaque_bytes payload),
            length-append (to_be_bytes 4 n) (payload ++ padding n),
            length-append payload (padding n),
            length-to_be_bytes 4 n,
            length-padding n,
          )),
      rw (fixed-buf w payload) (
          omega (
            arith,
            length-append w.buf (payload ++ padding n),
            length-append payload (padding n),
            length-padding n,
          )),
    )
