-- ===== src/Nfs/Xdr/Roundtrip.antt =====
-- How the methods of the reader of crates/mist-nfs/src/xdr.rs consume a given string of bytes.
use mist.Prelude.{
  ℕ, ◌+◌, ◌-◌, ◌%◌, ◌^◌, ◌≤◌, ◌<◌, Bool, true, false, not, some, List, [], ◌++◌, length, replicate,
  ◌==◌, if◌then◌else◌, ◌≡◌, refl, sym, ap, ◌∙◌, arith, append_assoc, length-append, drop-append,
  take-append, length-replicate, Bool-cases, inl, inr, le→ltb-false,
}
use mist.Bytes.{to_be_bytes, from_be_bytes, length-to_be_bytes, from_be_bytes-to_be_bytes}
use mist.Nfs.Xdr.Reader.{XdrReader, R, pure, take, skip_pad, ◌>>=◌, u32, u64, bool, opaque, fixed}

-- `m` reads the bytes `xs`, wherever they stand, as `a`, and stops right behind them.
pub record Reads {A : Type 0} (m : R A) (a : A) (xs : List ℕ) : Type 0 where
  pub at :
      (r : XdrReader) (before after : List ℕ)
      → r.buf ≡ before ++ (xs ++ after)
      → r.pos ≡ length before
      → m r ≡ (some a, record { buf = r.buf; pos = r.pos + length xs })

pub Reads-pure : {A : Type 0} (a : A) → Reads (pure a) a []
Reads-pure a = record { at = λ r before after e p. ground arith }

pub Reads-bind :
    {A B : Type 0} (m : R A) (f : A → R B) {a : A} {b : B} {xs ys : List ℕ}
    → Reads m a xs
    → Reads (f a) b ys
    → Reads (m >>= f) b (xs ++ ys)
unfolding ◌>>=◌
Reads-bind m f {a} {b} {xs} {ys} rm rf = record {
  at = λ r before after e p.
      let e' : r.buf ≡ before ++ (xs ++ (ys ++ after)) =
        e ∙ ap (λ l. before ++ l) (append_assoc xs ys after) in
      let tail =
        rf.at (record { buf = r.buf; pos = r.pos + length xs }) (before ++ xs) after
          (e' ∙ sym (append_assoc before xs (ys ++ after)))
          (omega (arith, length-append before xs)) in
      rw (rm.at r before (ys ++ after) e' p) (tail ∙ ground (arith, length-append xs ys));
}

pub Reads-take : (n : ℕ) (xs : List ℕ) → length xs ≡ n → Reads (take n) xs xs
unfolding take
Reads-take n xs h = record {
  at = λ r before after e p.
      rw (p, e, ← h, drop-append before (xs ++ after), take-append xs after)
        (ground (arith, length-append before (xs ++ after), length-append xs after));
}

pub Reads-map :
    {A B : Type 0} (m : R A) (g : A → B) {a : A} {b : B} {xs : List ℕ}
    → Reads m a xs
    → g a ≡ b
    → Reads (m >>= λ x. pure (g x)) b xs
unfolding ◌>>=◌
Reads-map m g rm h = record { at = λ r before after e p. rw (rm.at r before after e p, h) }

pub Reads-u32 : (v : ℕ) → v < 2 ^ 32 → Reads u32 v (to_be_bytes 4 v)
unfolding u32
Reads-u32 v h =
    Reads-map (take 4) from_be_bytes (Reads-take 4 (to_be_bytes 4 v) (length-to_be_bytes 4 v))
      (from_be_bytes-to_be_bytes 4 v h)

pub Reads-u64 : (v : ℕ) → v < 2 ^ 64 → Reads u64 v (to_be_bytes 8 v)
unfolding u64
Reads-u64 v h =
    Reads-map (take 8) from_be_bytes (Reads-take 8 (to_be_bytes 8 v) (length-to_be_bytes 8 v))
      (from_be_bytes-to_be_bytes 8 v h)

pub Reads-bool : (b : Bool) → Reads bool b (to_be_bytes 4 (if b then 1 else 0))
unfolding bool
Reads-bool true = Reads-map u32 (λ v. not (v == 0)) (Reads-u32 1 (omega arith)) refl
Reads-bool false = Reads-map u32 (λ v. not (v == 0)) (Reads-u32 0 (omega arith)) refl

-- The zeros behind `n` bytes.
abbrev pub padding : ℕ → List ℕ
padding n = if n % 4 == 0 then [] else replicate (4 - n % 4) 0

pub Reads-skip_pad : (n : ℕ) → Reads (skip_pad n) tt (padding n)
unfolding skip_pad
Reads-skip_pad n = elim (Bool-cases (n % 4 == 0)) [
  | inl e ↦ rw e (Reads-pure tt)
  | inr e ↦ rw e (
      Reads-map (take (4 - n % 4)) (λ _. tt)
        (Reads-take (4 - n % 4) (replicate (4 - n % 4) 0) (length-replicate _ 0)) refl)
]

pub Reads-fixed :
    (n : ℕ) (payload : List ℕ) → length payload ≡ n → Reads (fixed n) payload (payload ++ padding n)
unfolding fixed
Reads-fixed n payload h =
    Reads-bind (take n) (λ p. skip_pad n >>= λ _. pure p) (Reads-take n payload h)
      (Reads-map (skip_pad n) (λ _. payload) (Reads-skip_pad n) refl)

-- The encoding of a variable-length opaque.
abbrev pub opaque_bytes : List ℕ → List ℕ
opaque_bytes payload = to_be_bytes 4 (length payload) ++ (payload ++ padding (length payload))

pub Reads-opaque :
    (max : ℕ) (payload : List ℕ)
    → length payload ≤ max
    → length payload < 2 ^ 32
    → Reads (opaque max) payload (opaque_bytes payload)
unfolding opaque
Reads-opaque max payload small h = Reads-bind u32 _ (Reads-u32 (length payload) h) (
    rw (le→ltb-false max (length payload) small)
      (unfold fixed in Reads-fixed (length payload) payload refl))
