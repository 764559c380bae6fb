-- ===== src/Replica/Dir/Compact.antt =====
-- Compaction of a directory of crates/mist-replica/src/lib.rs.
use mist.Prelude.{
  ℕ, zero, suc, ◌+◌, ◌-◌, ◌%◌, ◌^◌, ◌≤◌, ◌<◌, Option, none, some, List, [], ◌∷◌, ◌++◌, length, take,
  drop, map, ◌≡◌, refl, sym, ap, ◌∙◌, arith, inl, inr, Bool-cases, leb, ◌==◌, length-append,
  append-nil, append_assoc, drop-append, take-append, if◌then◌else◌,
}
use native.Mathlib.Decide.{dec_lt}
use native.Mathlib.Nat.{sub-zero}
use mist.Replica.Hashing.{Hashing}
use mist.Replica.Dir.{CEnt, at, alive, name_in, Dir, repack, reindex, compact}
use mist.Replica.Dir.Slots.{
  ReadDirEntry, Slots, slots, slot_of, Distinct, Distinct-tail, Absent, live_of,
}
use mist.Replica.Dir.Insert.{Packed-le}
use mist.Replica.Dir.Valid.{
  Packed, Ascending, count_dead, dir_slots, view, IsWellFormed, expected, indexed_at,
}

length-take-drop :
    (off len : ℕ) (xs : List ℕ) → off + len ≤ length xs → length (take len (drop off xs)) ≡ len
length-take-drop zero zero xs h = refl
length-take-drop zero (suc len) [] h = absurd (omega arith)
length-take-drop zero (suc len) (x ∷ xs) h = ap suc (length-take-drop zero len xs (omega arith))
length-take-drop (suc off) len [] h = absurd (omega arith)
length-take-drop (suc off) len (x ∷ xs) h = length-take-drop off len xs (omega arith)

-- The live names in order, and how long they are.
names_of : List ℕ → List CEnt → List ℕ
names_of old [] = []
names_of old (e ∷ es) = if alive e then name_in old e ++ names_of old es else names_of old es

some_live : Slots → Slots
some_live sl = map some (live_of sl)

module _ (old : List ℕ) where
  name_width :
      (off : ℕ) (e : CEnt) (es : List CEnt)
      → Packed (length old) off (e ∷ es)
      → length (name_in old e) ≡ e.name_len
  name_width off e es h =
      length-take-drop e.name_off e.name_len old
        (omega (arith, h.0, Packed-le (length old) (off + e.name_len) es h.1))

  length-names_of :
      (off : ℕ) (es : List CEnt)
      → Packed (length old) off es
      → length (names_of old es) + off ≤ length old
  unfolding names_of
  length-names_of off [] h = omega arith
  length-names_of off (e ∷ es) h =
      let rest = length-names_of (off + e.name_len) es h.1 in
      elim (Bool-cases (alive e)) [
        | inl t ↦ rw t (
            omega
              (arith, rest, name_width off e es h, length-append (name_in old e) (names_of old es)))
        | inr f ↦ rw f (omega (arith, rest))
      ]

  repack-arena : (acc : List ℕ) (es : List CEnt) → (repack old acc es).0 ≡ acc ++ names_of old es
  unfolding repack names_of
  repack-arena acc [] = sym (append-nil acc)
  repack-arena acc (e ∷ es) = elim (Bool-cases (alive e)) [
    | inl t ↦ rw t (repack-arena (acc ++ name_in old e) es ∙ append_assoc acc (name_in old e) _)
    | inr f ↦ rw f (repack-arena acc es)
  ]

  length-repack : (acc : List ℕ) (es : List CEnt) → length (repack old acc es).1 ≤ length es
  unfolding repack
  length-repack acc [] = omega arith
  length-repack acc (e ∷ es) =
      ground (arith, length-repack (acc ++ name_in old e) es, length-repack acc es)

  count_dead-repack : (acc : List ℕ) (es : List CEnt) → count_dead (repack old acc es).1 ≡ 0
  unfolding repack
  count_dead-repack acc [] = refl
  count_dead-repack acc (e ∷ es) =
      ground (arith, count_dead-repack (acc ++ name_in old e) es, count_dead-repack acc es)

  Ascending-weaken :
      (lo lo' hi : ℕ) (es : List CEnt) → lo ≤ lo' → Ascending lo' hi es → Ascending lo hi es
  Ascending-weaken lo lo' hi [] h p = omega arith
  Ascending-weaken lo lo' hi (e ∷ es) h p = (omega (arith, p.0), p.1)

  Ascending-repack :
      (acc : List ℕ) (lo hi : ℕ) (es : List CEnt)
      → Ascending lo hi es
      → Ascending lo hi (repack old acc es).1
  unfolding repack
  Ascending-repack acc lo hi [] h = h
  Ascending-repack acc lo hi (e ∷ es) h = elim (Bool-cases (alive e)) [
    | inl t ↦ rw t (h.0, Ascending-repack (acc ++ name_in old e) (suc e.cookie) hi es h.1)
    | inr f ↦ rw f (
        Ascending-repack acc lo hi es
          (Ascending-weaken lo (suc e.cookie) hi es (omega (arith, h.0)) h.1))
  ]

  moved_name :
      (acc : List ℕ) (off : ℕ) (e : CEnt) (es : List CEnt)
      → Packed (length old) off (e ∷ es)
      → take e.name_len (drop (length acc) (repack old (acc ++ name_in old e) es).0) ≡ name_in old e
  moved_name acc off e es h =
      let nm = name_in old e in
      rw
        (
          repack-arena (acc ++ nm) es,
          append_assoc acc nm (names_of old es),
          drop-append acc (nm ++ names_of old es),
        )
        (ap (λ (n : ℕ). take n (nm ++ names_of old es)) (sym (name_width off e es h))
          ∙ take-append nm (names_of old es))

  -- The entries keep their order and what they say, and stand packed in the new arena.
  repack_lem :
      (acc : List ℕ) (off : ℕ) (es : List CEnt)
      → Packed (length old) off es
      → length acc + length (names_of old es) < 2 ^ 32
      → Packed (length (repack old acc es).0) (length acc) (repack old acc es).1
        × (slots (repack old acc es).0 (repack old acc es).1 ≡ some_live (slots old es))
  unfolding repack names_of some_live
  repack_lem acc off [] h small = (refl, refl)
  repack_lem acc off (e ∷ es) h small = elim (Bool-cases (alive e)) [
    | inl t ↦
        let nm = name_in old e in
        let small' : length acc + length (nm ++ names_of old es) < 2 ^ 32 = rw t at small in
        let grown = length-append acc nm in
        let ih =
          repack_lem (acc ++ nm) (off + e.name_len) es h.1
            (omega (arith, small', grown, length-append nm (names_of old es))) in
        let fits : length acc % 2 ^ 32 ≡ length acc = omega (arith, small') in
        let next : length (acc ++ nm) ≡ length acc + e.name_len =
          omega (arith, grown, name_width off e es h) in
        rw t ((fits, rw next at ih.0), rw (fits, t, moved_name acc off e es h, ih.1))
    | inr f ↦ rw f (repack_lem acc (off + e.name_len) es h.1 (rw f at small))
  ]

-- A sum over the positions from `i` on, its first part split off.
module _ ⦃hashing : Hashing⦄ where
  abbrev from_position : Slots → ℕ → ℕ → ℕ → ℕ
  from_position sl i g j = if leb i j then expected sl g (j - i) else 0

  from_position-cons :
      (s : Option ReadDirEntry) (sl : Slots) (i g j : ℕ)
      → from_position (s ∷ sl) i g j
        ≡ (if i == j then indexed_at s g else 0) + from_position sl (i + 1) g j
  from_position-cons s sl i g j = elim (dec_lt i j) [
    | yes below ↦ let e : j - i ≡ suc (j - (i + 1)) = omega arith in rw e (ground arith)
    | no above ↦ elim (Bool-cases (i == j)) [
      | inl t ↦ let e : j - i ≡ 0 = ground arith in rw e (ground arith)
      | inr f ↦ ground arith
    ]
  ]

  -- The index holds each position under the hash of the name that stands there.
  Hashes : List ℕ → List CEnt → hashing.Table → Type 0
  Hashes arena ents t =
      (g j : ℕ) → 0 < hashing.count t g j → hashing.name_hash (name_in arena (at ents j)) ≡ g

  module _ (arena : List ℕ) (ents : List CEnt) where
    reindex_lem :
        (i : ℕ) (es : List CEnt) (t : hashing.Table)
        → ((k : ℕ) → k < length es → at ents (i + k) ≡ at es k)
        → count_dead es ≡ 0
        → i + length es < 2 ^ 32
        → Hashes arena ents t
        → (g j : ℕ)
        → hashing.count (reindex arena ents i es t) g j
          ≡ hashing.count t g j + from_position (slots arena es) i g j
    unfolding reindex Hashes
    reindex_lem i [] t suffix lively small hashes g j = ground arith
    reindex_lem i (e ∷ es) t suffix lively small hashes g j =
        let h = hashing.name_hash (name_in arena e) in
        let fits : i % 2 ^ 32 ≡ i = omega arith in
        let here : at ents i ≡ e = ap (at ents) (omega arith) ∙ suffix 0 (omega arith) in
        let t' =
          hashing.insert_unique t h (i % 2 ^ 32)
            (λ k. hashing.name_hash (name_in arena (at ents k))) in
        let added = λ (g' j' : ℕ).
          hashing.count-insert_unique t h (i % 2 ^ 32)
            (λ k. hashing.name_hash (name_in arena (at ents k))) hashes g' j' in
        let ih =
          reindex_lem (i + 1) es t'
            (λ k lt. ap (at ents) (omega arith) ∙ suffix (suc k) (omega arith))
            (omega (arith, lively)) (omega arith)
            (λ g' j' pos. ground (
              arith,
              added g' j',
              fits,
              hashes g' j',
              ap (λ x. hashing.name_hash (name_in arena x)) here,
            ))
            g j in
        ih
        ∙ ground (
          arith,
          added g j,
          fits,
          lively,
          from_position-cons (slot_of arena e) (slots arena es) i g j,
        )

abbrev bytes_of : Option ReadDirEntry → List ℕ
bytes_of none = []
bytes_of (some e) = e.name.bytes

Distinct-cons :
    (x : ReadDirEntry) (sl : Slots) → Distinct sl → Absent x.name.bytes sl → Distinct (some x ∷ sl)
Distinct-cons x sl d fresh zero zero a b p q e = refl
Distinct-cons x sl d fresh zero (suc j) a b p q e =
    absurd (fresh j b q (sym e ∙ sym (ap bytes_of p)))
Distinct-cons x sl d fresh (suc i) zero a b p q e = absurd (fresh i a p (e ∙ sym (ap bytes_of q)))
Distinct-cons x sl d fresh (suc i) (suc j) a b p q e = ap suc (d i j a b p q e)

Absent-some_live : (name : List ℕ) (sl : Slots) → Absent name sl → Absent name (some_live sl)
unfolding some_live
Absent-some_live name [] h i e p = ground arith
Absent-some_live name (none ∷ sl) h i e p = Absent-some_live name sl (λ k. h (suc k)) i e p
Absent-some_live name (some x ∷ sl) h zero e p = h 0 e p
Absent-some_live name (some x ∷ sl) h (suc i) e p = Absent-some_live name sl (λ k. h (suc k)) i e p

Distinct-some_live : (sl : Slots) → Distinct sl → Distinct (some_live sl)
unfolding some_live
Distinct-some_live [] d = λ i j a b p q e. ground arith
Distinct-some_live (none ∷ sl) d = Distinct-some_live sl (Distinct-tail none sl d)
Distinct-some_live (some x ∷ sl) d =
    Distinct-cons x (map some (live_of sl)) (Distinct-some_live sl (Distinct-tail (some x) sl d)) (
      unfold some_live in
      Absent-some_live x.name.bytes sl
        (λ i e p q. absurd (omega (arith, d 0 (suc i) x e refl p (sym q)))))

live_of-some_live : (es : List ReadDirEntry) → live_of (map some es) ≡ es
live_of-some_live [] = refl
live_of-some_live (e ∷ es) = ap (λ l. e ∷ l) (live_of-some_live es)

module _ ⦃hashing : Hashing⦄ (d : Dir) (v : IsWellFormed d) where
  packs :
      let r = repack d.arena [] d.ents in
      Packed (length r.0) 0 r.1 × (slots r.0 r.1 ≡ some_live (dir_slots d))
  packs =
      repack_lem d.arena [] 0 d.ents v.packed
        (omega (arith, length-names_of d.arena 0 d.ents v.packed, v.small_arena))

  slots-compact : dir_slots (compact d) ≡ some_live (dir_slots d)
  unfolding compact
  slots-compact = packs.1

  -- Compaction of a well-formed directory leaves the list of its live entries, with their names,
  -- cookies, nodes and kinds, as it was.
  pub view-compact : view (compact d) ≡ view d
  view-compact =
      ap live_of slots-compact ∙ unfold some_live in live_of-some_live (live_of (dir_slots d))

  pub length_arena-compact : length (compact d).arena ≤ length d.arena
  unfolding compact
  length_arena-compact =
      rw (repack-arena d.arena [] d.ents) (omega (arith, length-names_of d.arena 0 d.ents v.packed))

  pub length_ents-compact : length (compact d).ents ≤ length d.ents
  unfolding compact
  length_ents-compact = length-repack d.arena [] d.ents

  indexed-compact :
      (g j : ℕ) → hashing.count (compact d).by_name g j ≡ expected (dir_slots (compact d)) g j
  unfolding compact
  indexed-compact g j =
      let r = repack d.arena [] d.ents in
      let none_yet : Hashes r.0 r.1 hashing.new =
        unfold Hashes in λ g' j' pos. absurd (omega (arith, pos, hashing.count-new g' j')) in
      reindex_lem r.0 r.1 0 r.1 hashing.new (λ k lt. ap (at r.1) (omega arith))
        (count_dead-repack d.arena [] d.ents)
        (omega (arith, length-repack d.arena [] d.ents, v.small_ents)) none_yet g j
      ∙ rw (hashing.count-new g j, sub-zero) (ground arith)

  pub compact-IsWellFormed : IsWellFormed (compact d)
  compact-IsWellFormed = record {
    packed = unfold compact in packs.0;
    ascending = unfold compact in Ascending-repack d.arena [] 3 d.next_cookie d.ents v.ascending;
    counted = unfold compact in sym (count_dead-repack d.arena [] d.ents);
    distinct = rw slots-compact (Distinct-some_live (dir_slots d) v.distinct);
    indexed = indexed-compact;
    small_arena = omega (arith, length_arena-compact, v.small_arena);
    small_ents = omega (arith, length_ents-compact, v.small_ents);
  }
