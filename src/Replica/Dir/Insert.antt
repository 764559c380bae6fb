-- ===== src/Replica/Dir/Insert.antt =====
-- `insert_new` of crates/mist-replica/src/lib.rs and the invariant of the table.
use mist.Prelude.{
  ℕ, zero, suc, ◌+◌, ◌%◌, ◌^◌, ◌≤◌, ◌<◌, some, List, [], ◌∷◌, ◌++◌, length, take, drop, ◌≡◌, refl,
  sym, ap, ◌∙◌, arith, inl, inr, length-append, append-nil, drop-append, take-append, false,
}
use mist.Proto.Types.{NodeKey, Kind}
use mist.Replica.Hashing.{Hashing}
use mist.Replica.Dir.{CEnt, at, name_in, DirState, Dir, insert_new}
use mist.Replica.Dir.Slots.{
  ReadDirEntry, Slots, slots, get_slot, Distinct, live_of, slots-append, live_of-append,
  length-slots, Absent,
}
use mist.Replica.Dir.Valid.{
  Packed, Ascending, count_dead, dir_slots, view, IsWellFormed, expected_pos, expected-append,
  name_in-at, get_slot-append_left, get_slot-snoc,
}

-- A name that ends inside the arena is not changed by what is appended.
name_stable :
    (off len : ℕ) (arena more : List ℕ)
    → off + len ≤ length arena
    → take len (drop off (arena ++ more)) ≡ take len (drop off arena)
name_stable zero zero arena more h = refl
name_stable zero (suc len) [] more h = absurd (omega arith)
name_stable zero (suc len) (b ∷ arena) more h =
    ap (λ l. b ∷ l) (name_stable zero len arena more (omega arith))
name_stable (suc off) len [] more h = absurd (omega arith)
name_stable (suc off) len (b ∷ arena) more h = name_stable off len arena more (omega arith)

pub Packed-le : (total off : ℕ) (es : List CEnt) → Packed total off es → off ≤ total
Packed-le total off [] h = omega arith
Packed-le total off (e ∷ es) h = omega (arith, Packed-le total (off + e.name_len) es h.1)

pub slots-extend :
    (off : ℕ) (arena more : List ℕ) (es : List CEnt)
    → Packed (length arena) off es
    → slots (arena ++ more) es ≡ slots arena es
slots-extend off arena more [] h = refl
slots-extend off arena more (e ∷ es) h =
    let same : name_in (arena ++ more) e ≡ name_in arena e =
      name_stable e.name_off e.name_len arena more
        (omega (arith, h.0, Packed-le (length arena) (off + e.name_len) es h.1)) in
    rw (same, slots-extend (off + e.name_len) arena more es h.1)

Packed-snoc :
    (total off : ℕ) (es : List CEnt) (e : CEnt)
    → Packed total off es
    → e.name_off ≡ total
    → Packed (total + e.name_len) off (es ++ e ∷ [])
Packed-snoc total off [] e h p = (omega arith, omega arith)
Packed-snoc total off (x ∷ es) e h p = (h.0, Packed-snoc total (off + x.name_len) es e h.1 p)

Ascending-snoc :
    (lo hi : ℕ) (es : List CEnt) (e : CEnt)
    → Ascending lo hi es
    → e.cookie ≡ hi
    → Ascending lo (hi + 1) (es ++ e ∷ [])
Ascending-snoc lo hi [] e h p = (omega arith, omega arith)
Ascending-snoc lo hi (x ∷ es) e h p = (h.0, Ascending-snoc (suc x.cookie) hi es e h.1 p)

count_dead-snoc :
    (es : List CEnt) (e : CEnt) → e.dead ≡ false → count_dead (es ++ e ∷ []) ≡ count_dead es
count_dead-snoc [] e h = ground arith
count_dead-snoc (x ∷ es) e h = omega (arith, count_dead-snoc es e h)

Distinct-snoc :
    (sl : Slots) (e : ReadDirEntry)
    → Distinct sl
    → Absent e.name.bytes sl
    → Distinct (sl ++ some e ∷ [])
Distinct-snoc sl e d fresh i j a b p q same = elim (get_slot-snoc sl e i a p) [
  | inl pi ↦ elim (get_slot-snoc sl e j b q) [
    | inl qj ↦ d i j a b pi qj same
    | inr (_, eb) ↦ absurd (fresh i a pi (same ∙ ap (λ x. x.name.bytes) eb))
  ]
  | inr (ei, ea) ↦ elim (get_slot-snoc sl e j b q) [
    | inl qj ↦ absurd (fresh j b qj (sym same ∙ ap (λ x. x.name.bytes) ea))
    | inr (ej, _) ↦ omega arith
  ]
]

-- There is room for one more name of at most 255 bytes.
pub record HasRoom {T : Type 0} (d : DirState T) (name : List ℕ) : Type 0 where
  pub short : length name ≤ 255
  pub arena : length d.arena + length name < 2 ^ 32
  pub ents : length d.ents + 1 < 2 ^ 32

module _ ⦃hashing : Hashing⦄ (d : Dir) (name : List ℕ) (k : NodeKey) (kind : Kind)
    (v : IsWellFormed d) (room : HasRoom d name) where
  abbrev fresh_ent : CEnt
  fresh_ent = record {
    cookie = d.next_cookie;
    ino = k.ino;
    nkgen = k.generation;
    name_off = length d.arena % 2 ^ 32;
    name_len = length name % 2 ^ 16;
    kind = kind;
    dead = false;
  }

  abbrev pub fresh_entry : ReadDirEntry
  fresh_entry = record {
    cookie = d.next_cookie;
    name = record { bytes = name };
    node = k;
    kind = kind;
  }

  offset : length d.arena % 2 ^ 32 ≡ length d.arena
  offset = omega (arith, room.arena)

  width : length name % 2 ^ 16 ≡ length name
  width = omega (arith, room.short)

  fresh_name : name_in (d.arena ++ name) fresh_ent ≡ name
  fresh_name =
      rw (offset, width, drop-append d.arena name)
        (ap (take (length name)) (sym (append-nil name)) ∙ take-append name [])

  -- `insert_new` appends one live entry.
  pub slots-insert_new : dir_slots (insert_new d name k kind) ≡ dir_slots d ++ some fresh_entry ∷ []
  unfolding insert_new
  slots-insert_new =
      slots-append (d.arena ++ name) d.ents (fresh_ent ∷ [])
      ∙ rw (slots-extend 0 d.arena name d.ents v.packed, fresh_name)

  pub view-insert_new : view (insert_new d name k kind) ≡ view d ++ fresh_entry ∷ []
  view-insert_new =
      ap live_of slots-insert_new ∙ live_of-append (dir_slots d) (some fresh_entry ∷ [])

  hasher_agrees :
      (g j : ℕ)
      → 0 < hashing.count d.by_name g j
      → hashing.name_hash (name_in (d.arena ++ name) (at (d.ents ++ fresh_ent ∷ []) j)) ≡ g
  hasher_agrees g j h =
      let (e, p, q) = expected_pos (dir_slots d) g j (rw (v.indexed g j) at h) in
      let now : slots (d.arena ++ name) (d.ents ++ fresh_ent ∷ [])
          ≡ dir_slots d ++ some fresh_entry ∷ [] =
        unfold insert_new in slots-insert_new in
      let there = name_in-at (d.arena ++ name) (d.ents ++ fresh_ent ∷ []) j e (
        ap (λ (sl : Slots). get_slot sl j) now
        ∙ get_slot-append_left (dir_slots d) (some fresh_entry ∷ []) j e p) in
      ap hashing.name_hash there.1 ∙ q

  pub insert_new-IsWellFormed : Absent name (dir_slots d) → IsWellFormed (insert_new d name k kind)
  insert_new-IsWellFormed fresh = record {
    packed =
        unfold insert_new in
        let total : length (d.arena ++ name) ≡ length d.arena + fresh_ent.name_len =
          omega (arith, length-append d.arena name, width) in
        rw total (Packed-snoc (length d.arena) 0 d.ents fresh_ent v.packed offset);
    ascending =
        unfold insert_new in Ascending-snoc 3 d.next_cookie d.ents fresh_ent v.ascending refl;
    counted = unfold insert_new in v.counted ∙ sym (count_dead-snoc d.ents fresh_ent refl);
    distinct = rw slots-insert_new (Distinct-snoc (dir_slots d) fresh_entry v.distinct fresh);
    indexed = λ g j. rw slots-insert_new (
        unfold insert_new in
        let position : length d.ents % 2 ^ 32 ≡ length (dir_slots d) =
          omega (arith, length-slots d.arena d.ents, room.ents) in
        hashing.count-insert_unique d.by_name (hashing.name_hash name) (length d.ents % 2 ^ 32) _
          hasher_agrees g j
        ∙ ground (arith, v.indexed g j, expected-append (dir_slots d) fresh_entry g j, position));
    small_arena = unfold insert_new in omega (arith, length-append d.arena name, room.arena);
    small_ents =
        unfold insert_new in omega (arith, length-append d.ents (fresh_ent ∷ []), room.ents);
  }
