-- ===== src/Nfs/Handle/Forgery.antt =====
-- Round trip of the handles of crates/mist-nfs/src/handle.rs, and what a decoded handle must hold.
use mist.Prelude.{
  ℕ, zero, suc, ◌+◌, ◌-◌, ◌^◌, ◌≤◌, ◌<◌, some, List, [], ◌∷◌, ◌++◌, take, drop, length,
  bytes_eq_refl, ==_refl, eq_of_bytes_eq, ◌≡◌, refl, sym, ap, ◌∙◌, arith, length-append,
}
use mist.Bytes.{
  to_be_bytes, from_be_bytes, length-to_be_bytes, from_be_bytes-to_be_bytes,
  to_be_bytes-from_be_bytes, from_be_bytes-lt, AreBytes,
}
use mist.Proto.Types.{NodeKey}
use mist.Nfs.Handle.{Blake3, HandleCodec, magic, mac, encode, decode}

-- The digest has 32 bytes.
pub record IsDigest (blake3 : Blake3) : Type 0 where
  pub width : (key message : List ℕ) → length (blake3.keyed_hash key message) ≡ 32
  pub bytes : (key message : List ℕ) → AreBytes (blake3.keyed_hash key message)

AreBytes-take : (n : ℕ) (xs : List ℕ) → AreBytes xs → AreBytes (take n xs)
AreBytes-take zero xs h = tt
AreBytes-take (suc n) [] h = tt
AreBytes-take (suc n) (x ∷ xs) h = (h.0, AreBytes-take n xs h.1)

AreBytes-drop : (n : ℕ) (xs : List ℕ) → AreBytes xs → AreBytes (drop n xs)
AreBytes-drop zero xs h = h
AreBytes-drop (suc n) [] h = tt
AreBytes-drop (suc n) (x ∷ xs) h = AreBytes-drop n xs h.1

length-take : (n : ℕ) (xs : List ℕ) → n ≤ length xs → length (take n xs) ≡ n
length-take zero xs h = refl
length-take (suc n) [] h = absurd (omega arith)
length-take (suc n) (x ∷ xs) h = ap suc (length-take n xs (omega arith))

length-drop : (n : ℕ) (xs : List ℕ) → length (drop n xs) ≡ length xs - n
length-drop zero xs = omega arith
length-drop (suc n) [] = omega arith
length-drop (suc n) (x ∷ xs) = omega (arith, length-drop n xs)

take-append_len : (n : ℕ) (xs ys : List ℕ) → length xs ≡ n → take n (xs ++ ys) ≡ xs
take-append_len zero [] ys h = refl
take-append_len zero (x ∷ xs) ys h = absurd (omega arith)
take-append_len (suc n) [] ys h = absurd (omega arith)
take-append_len (suc n) (x ∷ xs) ys h = ap (λ l. x ∷ l) (take-append_len n xs ys (omega arith))

-- Skipping a front of `n` bytes: the rest of the way is on what follows.
drop-append_add : (n k : ℕ) (xs ys : List ℕ) → length xs ≡ n → drop (n + k) (xs ++ ys) ≡ drop k ys
drop-append_add zero k [] ys h = ap (λ m. drop m ys) (omega arith)
drop-append_add zero k (x ∷ xs) ys h = absurd (omega arith)
drop-append_add (suc n) k [] ys h = absurd (omega arith)
drop-append_add (suc n) k (x ∷ xs) ys h =
    let e : suc n + k ≡ suc (n + k) = omega arith in rw e (drop-append_add n k xs ys (omega arith))

-- The layout of a handle, 28 bytes.
unfoldable pub layout : List ℕ → List ℕ → List ℕ → List ℕ → List ℕ → List ℕ
layout a f i g m = magic ++ (a ++ (f ++ (i ++ (g ++ m))))

take_all : (n : ℕ) (xs : List ℕ) → length xs ≡ n → take n xs ≡ xs
take_all zero [] h = refl
take_all zero (x ∷ xs) h = absurd (omega arith)
take_all (suc n) [] h = absurd (omega arith)
take_all (suc n) (x ∷ xs) h = ap (λ l. x ∷ l) (take_all n xs (omega arith))

module _ (a f i g m : List ℕ) (ha : length a ≡ 2) (hf : length f ≡ 2) (hi : length i ≡ 8)
    (hg : length g ≡ 4) (hm : length m ≡ 8) where
  layout_fields :
      (take 4 (layout a f i g m) ≡ magic)
      × (take 2 (drop 4 (layout a f i g m)) ≡ a)
      × (take 2 (drop 6 (layout a f i g m)) ≡ f)
      × (take 8 (drop 8 (layout a f i g m)) ≡ i)
      × (take 4 (drop 16 (layout a f i g m)) ≡ g)
      × (take 8 (drop 20 (layout a f i g m)) ≡ m)
  unfolding layout
  layout_fields =
      let skip_a = λ (k : ℕ). drop-append_add 2 k a (f ++ (i ++ (g ++ m))) ha in
      let skip_f = λ (k : ℕ). drop-append_add 2 k f (i ++ (g ++ m)) hf in
      let skip_i = λ (k : ℕ). drop-append_add 8 k i (g ++ m) hi in
      let skip_g = λ (k : ℕ). drop-append_add 4 k g m hg in
      (
        refl,
        take-append_len 2 a _ ha,
        ap (take 2) (skip_a 0) ∙ take-append_len 2 f _ hf,
        ap (take 8) (skip_a 2 ∙ skip_f 0) ∙ take-append_len 8 i _ hi,
        ap (take 4) (skip_a 10 ∙ skip_f 8 ∙ skip_i 0) ∙ take-append_len 4 g _ hg,
        ap (take 8) (skip_a 14 ∙ skip_f 12 ∙ skip_i 4 ∙ skip_g 0) ∙ take_all 8 m hm,
      )

  length-layout : length (layout a f i g m) ≡ 28
  unfolding layout
  length-layout = omega (
    arith,
    length-append a (f ++ (i ++ (g ++ m))),
    length-append f (i ++ (g ++ m)),
    length-append i (g ++ m),
    length-append g m,
  )

take-append-drop : (n : ℕ) (xs : List ℕ) → xs ≡ take n xs ++ drop n xs
take-append-drop zero xs = refl
take-append-drop (suc n) [] = refl
take-append-drop (suc n) (x ∷ xs) = ap (λ l. x ∷ l) (take-append-drop n xs)

drop-nil : (k : ℕ) → drop {A = ℕ} k [] ≡ []
drop-nil zero = refl
drop-nil (suc k) = refl

drop-drop : (n k : ℕ) (xs : List ℕ) → drop k (drop n xs) ≡ drop (n + k) xs
drop-drop zero k xs = ap (λ m. drop m xs) (omega arith)
drop-drop (suc n) k [] = let e : suc n + k ≡ suc (n + k) = omega arith in drop-nil k ∙ rw e refl
drop-drop (suc n) k (x ∷ xs) =
    let e : suc n + k ≡ suc (n + k) = omega arith in rw e (drop-drop n k xs)

-- One field, and what follows it.
piece : (at width : ℕ) (fh : List ℕ) → drop at fh ≡ take width (drop at fh) ++ drop (at + width) fh
piece at width fh =
    take-append-drop width (drop at fh)
    ∙ ap (λ l. take width (drop at fh) ++ l) (drop-drop at width fh)

module _ (fh : List ℕ) (n : length fh ≡ 28) where
  field_length : (at width : ℕ) → at + width ≤ 28 → length (take width (drop at fh)) ≡ width
  field_length at width h = length-take width _ (rw (length-drop at fh) (omega arith))

  pieces :
      take 4 fh ≡ magic
      → fh
        ≡ layout
            (take 2 (drop 4 fh))
            (take 2 (drop 6 fh))
            (take 8 (drop 8 fh))
            (take 4 (drop 16 fh))
            (take 8 (drop 20 fh))
  unfolding layout
  pieces start =
      take-append-drop 4 fh
      ∙ ap (λ l. l ++ drop 4 fh) start
      ∙ ap (λ l. magic ++ l)
          (piece 4 2 fh
            ∙ ap (λ l. take 2 (drop 4 fh) ++ l)
                (piece 6 2 fh
                  ∙ ap (λ l. take 2 (drop 6 fh) ++ l)
                      (piece 8 8 fh
                        ∙ ap (λ l. take 8 (drop 8 fh) ++ l)
                            (piece 16 4 fh
                              ∙ ap (λ l. take 4 (drop 16 fh) ++ l)
                                  (sym (
                                    take_all 8 (drop 20 fh)
                                      (rw (length-drop 20 fh) (omega arith))))))))

  module _ (bytes : AreBytes fh) (at width : ℕ) where
    field-lt : at + width ≤ 28 → from_be_bytes (take width (drop at fh)) < 256 ^ width
    field-lt h =
        from_be_bytes-lt width _ (field_length at width h)
          (AreBytes-take width _ (AreBytes-drop at fh bytes))

    field_back :
        (v : ℕ)
        → from_be_bytes (take width (drop at fh)) ≡ v
        → at + width ≤ 28
        → take width (drop at fh) ≡ to_be_bytes width v
    field_back v e h = rw (← e) (
        sym (
          to_be_bytes-from_be_bytes width _ (field_length at width h)
            (AreBytes-take width _ (AreBytes-drop at fh bytes))))

layout_congr :
    {a a' f f' i i' g g' m m' : List ℕ}
    → a ≡ a'
    → f ≡ f'
    → i ≡ i'
    → g ≡ g'
    → m ≡ m'
    → layout a f i g m ≡ layout a' f' i' g' m'
layout_congr p q r s t = cc

module _ (blake3 : Blake3) (digest : IsDigest blake3) (c : HandleCodec) where
  mac-lt : (share flags : ℕ) (node : NodeKey) → mac blake3 c share flags node < 2 ^ 64
  unfolding mac
  mac-lt share flags node =
      from_be_bytes-lt 8 _ (length-take 8 _ (rw digest.width (omega arith)))
        (AreBytes-take 8 _ (digest.bytes _ _))

  -- With a digest of 32 bytes, the handle of a share and a node whose numbers fit their fields
  -- decodes to them.
  pub handle_decode-encode :
      (share : ℕ) (node : NodeKey)
      → share < 2 ^ 16
      → node.ino < 2 ^ 64
      → node.generation < 2 ^ 32
      → decode blake3 c (encode blake3 c share node) ≡ some (share, node)
  unfolding decode
  handle_decode-encode share node hs hi hg =
      let a = to_be_bytes 2 share in
      let f = to_be_bytes 2 0 in
      let i = to_be_bytes 8 node.ino in
      let g = to_be_bytes 4 node.generation in
      let m = to_be_bytes 8 (mac blake3 c share 0 node) in
      let len = λ (w v : ℕ). length-to_be_bytes w v in
      let fields =
        layout_fields a f i g m (len 2 share) (len 2 0) (len 8 node.ino) (len 4 node.generation)
          (len 8 _) in
      let same : encode blake3 c share node ≡ layout a f i g m = unfold encode layout in refl in
      rw
        (
          same,
          length-layout a f i g m (len 2 share) (len 2 0) (len 8 node.ino) (len 4 node.generation)
              (len 8 _),
          fields.0,
          fields.1,
          fields.2,
          fields.3,
          fields.4,
          fields.5,
          from_be_bytes-to_be_bytes 2 share hs,
          from_be_bytes-to_be_bytes 2 0 (omega arith),
          from_be_bytes-to_be_bytes 8 node.ino hi,
          from_be_bytes-to_be_bytes 4 node.generation hg,
          from_be_bytes-to_be_bytes 8 _ (mac-lt share 0 node),
        )
        (rw (bytes_eq_refl magic, ==_refl (mac blake3 c share 0 node)))

  -- A string of bytes that decodes to a share and a node has 28 of them, in the layout of a handle,
  -- and its last field is the MAC of the others, whatever flags it carries: nothing that the key has
  -- not signed decodes.
  pub decode_sound :
      (fh : List ℕ) (share : ℕ) (node : NodeKey)
      → AreBytes fh
      → decode blake3 c fh ≡ some (share, node)
      → (flags : ℕ) × (flags < 2 ^ 16)
        × (fh
            ≡ layout
                (to_be_bytes 2 share)
                (to_be_bytes 2 flags)
                (to_be_bytes 8 node.ino)
                (to_be_bytes 4 node.generation)
                (to_be_bytes 8 (mac blake3 c share flags node)))
  unfolding decode
  decode_sound fh share node bytes h =
      let n : length fh ≡ 28 = ground arith in
      let start : take 4 fh ≡ magic = eq_of_bytes_eq _ _ (ground arith) in
      let flags = from_be_bytes (take 2 (drop 6 fh)) in
      let e₁ : from_be_bytes (take 2 (drop 4 fh)) ≡ share = ground arith in
      let e₂ : from_be_bytes (take 8 (drop 8 fh)) ≡ node.ino = ground arith in
      let e₃ : from_be_bytes (take 4 (drop 16 fh)) ≡ node.generation = ground arith in
      let e₄ : from_be_bytes (take 8 (drop 20 fh)) ≡ mac blake3 c share flags node = ground arith in
      (
        flags,
        field-lt fh n bytes 6 2 (omega arith),
        pieces fh n start
            ∙ layout_congr (field_back fh n bytes 4 2 share e₁ (omega arith))
                (field_back fh n bytes 6 2 flags refl (omega arith))
                (field_back fh n bytes 8 8 node.ino e₂ (omega arith))
                (field_back fh n bytes 16 4 node.generation e₃ (omega arith))
                (field_back fh n bytes 20 8 _ e₄ (omega arith)),
      )
