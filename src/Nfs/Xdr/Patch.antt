-- ===== src/Nfs/Xdr/Patch.antt =====
-- Back-patching, rewinding and padding of the writer of crates/mist-nfs/src/xdr.rs.
use native.Mathlib.Omega.{arith}
use mist.Prelude.{
  ℕ, zero, suc, ◌+◌, ◌-◌, ◌%◌, ◌^◌, ◌≤◌, ◌<◌, some, List, [], ◌∷◌, ◌++◌, length, take, drop,
  replicate, ◌==◌, true, false, Bool-cases, inl, inr, ◌≡◌, refl, sym, ap, ◌∙◌, append_assoc,
  append-nil, length-append, take-append, drop-append,
}
use mist.Bytes.{to_be_bytes, length-to_be_bytes}
use mist.Nfs.Xdr.Reader
use mist.Nfs.Xdr.Writer.{XdrWriter, patch_u32, pad_to_4, pad_loop, truncate, since}
use mist.Nfs.Xdr.Roundtrip.{Reads-u32, padding}

split_at :
    (n : ℕ) (xs : List ℕ) → n ≤ length xs → (length (take n xs) ≡ n) × (take n xs ++ drop n xs ≡ xs)
split_at zero xs h = (refl, refl)
split_at (suc n) [] h = absurd (omega arith)
split_at (suc n) (x ∷ xs) h =
    let ih = split_at n xs (omega arith) in (ap suc ih.0, ap (λ l. x ∷ l) ih.1)

take_front : (n : ℕ) (xs ys : List ℕ) → length xs ≡ n → take n (xs ++ ys) ≡ xs
take_front n xs ys h = rw (← h) (take-append xs ys)

drop_front : (n : ℕ) (xs ys : List ℕ) → length xs ≡ n → drop n (xs ++ ys) ≡ ys
drop_front n xs ys h = rw (← h) (drop-append xs ys)

-- Patching four bytes that were written keeps the writer's length and what stands before them, and
-- a reader at their position reads the new number and goes on behind them with the bytes that the
-- writer held there.
pub patch_u32_lem :
    (w : XdrWriter) (at v : ℕ)
    → at + 4 ≤ length w.buf
    → v < 2 ^ 32
    → (length (patch_u32 w at v).buf ≡ length w.buf)
      × (take at (patch_u32 w at v).buf ≡ take at w.buf)
      × (Reader.u32 (record { buf = (patch_u32 w at v).buf; pos = at })
          ≡ (some v, record { buf = (patch_u32 w at v).buf; pos = at + 4 }))
      × (drop (at + 4) (patch_u32 w at v).buf ≡ drop (at + 4) w.buf)
unfolding patch_u32
patch_u32_lem w at v h small =
    let front = take at w.buf in
    let back = drop (at + 4) w.buf in
    let word = to_be_bytes 4 v in
    let front_length = (split_at at w.buf (omega arith)).0 in
    let whole = split_at (at + 4) w.buf h in
    (
      omega (
        arith,
        length-append front (word ++ back),
        length-append word back,
        length-to_be_bytes 4 v,
        front_length,
        whole.0,
        ap length whole.1,
        length-append (take (at + 4) w.buf) back,
      ),
      take_front at front (word ++ back) front_length,
      (Reads-u32 v small).at (record { buf = front ++ (word ++ back); pos = at }) front back refl
            (sym front_length)
          ∙ rw (length-to_be_bytes 4 v),
      rw (← append_assoc front word back) (
          drop_front (at + 4) (front ++ word) back
            (omega (arith, length-append front word, front_length, length-to_be_bytes 4 v))),
    )

-- What was written since a position, behind what stood before it, is the whole buffer, and a writer
-- rewound to the position holds just what stood before.
truncate-since :
    (w : XdrWriter) (at : ℕ)
    → at ≤ length w.buf
    → ((truncate w at).buf ++ since w at ≡ w.buf) × (length (truncate w at).buf ≡ at)
unfolding truncate since
truncate-since w at h = let parts = split_at at w.buf h in (parts.1, parts.0)

pad_loop_lem :
    (k fuel : ℕ) (w : XdrWriter)
    → k ≤ fuel
    → k < 4
    → (length w.buf + k) % 4 ≡ 0
    → (pad_loop fuel w).buf ≡ w.buf ++ replicate k 0
unfolding pad_loop
pad_loop_lem zero zero w f h e = sym (append-nil w.buf)
pad_loop_lem zero (suc fuel) w f h e =
    let aligned : (length w.buf % 4 == 0) ≡ true = ground arith in
    rw (aligned, pad_loop) (sym (append-nil w.buf))
pad_loop_lem (suc k) zero w f h e = absurd (omega arith)
pad_loop_lem (suc k) (suc fuel) w f h e =
    let crooked : (length w.buf % 4 == 0) ≡ false = ground arith in
    let next : XdrWriter = record { buf = w.buf ++ 0 ∷ [] } in
    rw (crooked, pad_loop)
      (pad_loop_lem k fuel next (omega arith) (omega arith)
          (omega (arith, length-append w.buf (0 ∷ [])))
        ∙ append_assoc w.buf (0 ∷ []) (replicate k 0))

-- Padding appends the fewest zeros that bring the length to a multiple of 4.
pub pad_to_4_lem : (w : XdrWriter) → (pad_to_4 w).buf ≡ w.buf ++ padding (length w.buf)
unfolding pad_to_4
pad_to_4_lem w = elim (Bool-cases (length w.buf % 4 == 0)) [
  | inl e ↦ rw e (pad_loop_lem 0 4 w (omega arith) (omega arith) (ground arith))
  | inr e ↦
      rw e (pad_loop_lem (4 - length w.buf % 4) 4 w (omega arith) (ground arith) (omega arith))
]
