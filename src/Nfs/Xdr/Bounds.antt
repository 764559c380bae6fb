-- ===== src/Nfs/Xdr/Bounds.antt =====
-- The position of the reader of crates/mist-nfs/src/xdr.rs against its buffer, on success and on
-- error.
use mist.Prelude.{
  ℕ, ◌≤◌, Bool, true, false, Option, none, some, length, if◌then◌else◌, ◌≡◌, refl, ap, ◌∙◌, arith,
}
use mist.Nfs.Xdr.Reader.{
  XdrReader, R, pure, fail, continue, ◌>>=◌, take, u32, u64, bool, skip_pad, opaque, fixed,
  skip_opaque,
}

-- A call keeps the buffer, does not move back, and stays inside the buffer.
pub record Stays {A : Type 0} (m : R A) : Type 0 where
  pub buf : (r : XdrReader) → (m r).1.buf ≡ r.buf
  pub forward : (r : XdrReader) → r.pos ≤ (m r).1.pos
  pub inside : (r : XdrReader) → r.pos ≤ length r.buf → (m r).1.pos ≤ length r.buf

Stays-pure : {A : Type 0} (a : A) → Stays (pure a)
Stays-pure a = record { buf = λ r. refl; forward = λ r. omega arith; inside = λ r h. h }

Stays-fail : {A : Type 0} → Stays {A = A} fail
Stays-fail = record { buf = λ r. refl; forward = λ r. omega arith; inside = λ r h. h }

Stays-take : (n : ℕ) → Stays (take n)
unfolding take
Stays-take n = record {
  buf = λ r. ground arith;
  forward = λ r. ground arith;
  inside = λ r h. ground arith;
}

Stays-continue :
    {A B : Type 0} (o : Option A) (f : A → R B) → ((a : A) → Stays (f a)) → Stays (continue o f)
Stays-continue none f kf = Stays-fail
Stays-continue (some a) f kf = kf a

Stays-bind :
    {A B : Type 0} (m : R A) (f : A → R B) → Stays m → ((a : A) → Stays (f a)) → Stays (m >>= f)
unfolding ◌>>=◌
Stays-bind m f sm sf = record {
  buf = λ r. (Stays-continue (m r).0 f sf).buf (m r).1 ∙ sm.buf r;
  forward = λ r. omega (arith, sm.forward r, (Stays-continue (m r).0 f sf).forward (m r).1);
  inside = λ r h.
      let same = ap length (sm.buf r) in
      omega (
        arith,
        same,
        (Stays-continue (m r).0 f sf).inside (m r).1 (omega (arith, same, sm.inside r h)),
      );
}

Stays-if : {A : Type 0} (b : Bool) (m n : R A) → Stays m → Stays n → Stays (if b then m else n)
Stays-if true m n sm sn = sm
Stays-if false m n sm sn = sn

ruleset stays_rules = (Stays-pure, Stays-fail, Stays-take, Stays-bind, Stays-if)

Stays-u32 : Stays u32
unfolding u32
Stays-u32 = search stays_rules

Stays-u64 : Stays u64
unfolding u64
Stays-u64 = search stays_rules

Stays-skip_pad : (n : ℕ) → Stays (skip_pad n)
unfolding skip_pad
Stays-skip_pad n = search stays_rules

Stays-opaque : (max : ℕ) → Stays (opaque max)
unfolding opaque
Stays-opaque max = search (stays_rules, Stays-u32, Stays-skip_pad)

-- Every call of the reader, whether it returns or fails, keeps the buffer, does not move back, and
-- leaves the position inside the buffer if it was there.
pub reads_stay :
    (n : ℕ)
    → Stays u32
      × Stays u64
      × Stays bool
      × Stays (opaque n)
      × Stays (fixed n)
      × Stays (skip_opaque n)
unfolding bool fixed skip_opaque
reads_stay n = (
  Stays-u32,
  Stays-u64,
  search (stays_rules, Stays-u32),
  Stays-opaque n,
  search (stays_rules, Stays-skip_pad),
  search (stays_rules, Stays-opaque),
)
