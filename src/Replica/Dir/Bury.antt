-- ===== src/Replica/Dir/Bury.antt =====
-- Tombstones and changes of kind in a directory of crates/mist-replica/src/lib.rs.
use mist.Prelude.{
  ℕ, zero, suc, ◌+◌, ◌<◌, true, none, some, List, [], ◌∷◌, length, set, ◌==◌, ◌≡◌, refl, sym, ap,
  ◌∙◌, arith, ==_refl, length-set,
}
use mist.Replica.Hashing.{Hashing}
use mist.Replica.Dir.{CEnt, at, alive, name_in, Dir, bury}
use mist.Replica.Dir.Slots.{
  ReadDirEntry, Slots, get_slot, Distinct, live_of, slots-set, live_of-clear, without,
}
use mist.Replica.Dir.Valid.{
  Packed, Ascending, count_dead, dir_slots, view, IsWellFormed, expected_pos, expected-clear,
  name_in-at, get_slot-clear,
}

-- A write that keeps the cookie and the place of the name.
pub record KeepsPlace (e e' : CEnt) : Type 0 where
  pub cookie : e'.cookie ≡ e.cookie
  pub name_off : e'.name_off ≡ e.name_off
  pub name_len : e'.name_len ≡ e.name_len

pub Packed-set :
    (total off : ℕ) (es : List CEnt) (i : ℕ) (e : CEnt)
    → KeepsPlace (at es i) e
    → Packed total off es
    → Packed total off (set es i e)
Packed-set total off [] i e k h = h
Packed-set total off (x ∷ es) zero e k h = (omega (arith, h.0, k.name_off), rw k.name_len h.1)
Packed-set total off (x ∷ es) (suc i) e k h =
    (h.0, Packed-set total (off + x.name_len) es i e k h.1)

pub Ascending-set :
    (lo hi : ℕ) (es : List CEnt) (i : ℕ) (e : CEnt)
    → KeepsPlace (at es i) e
    → Ascending lo hi es
    → Ascending lo hi (set es i e)
Ascending-set lo hi [] i e k h = h
Ascending-set lo hi (x ∷ es) zero e k h = (omega (arith, h.0, k.cookie), rw k.cookie h.1)
Ascending-set lo hi (x ∷ es) (suc i) e k h = (h.0, Ascending-set (suc x.cookie) hi es i e k h.1)

count_dead-bury :
    (es : List CEnt) (i : ℕ) (e : CEnt)
    → alive (at es i) ≡ true
    → e.dead ≡ true
    → count_dead (set es i e) ≡ count_dead es + 1
count_dead-bury [] i e h k = ground arith
count_dead-bury (x ∷ es) zero e h k = ground arith
count_dead-bury (x ∷ es) (suc i) e h k = ground (arith, count_dead-bury es i e h k)

Distinct-clear : (sl : Slots) (i : ℕ) → Distinct sl → Distinct (set sl i none)
Distinct-clear sl i d j k a b p q =
    d j k a b (get_slot-clear sl i j a p) (get_slot-clear sl i k b q)

module _ ⦃hashing : Hashing⦄ (d : Dir) (v : IsWellFormed d) (i : ℕ) (e : ReadDirEntry)
    (live : get_slot (dir_slots d) i ≡ some e) where
  pub slots-bury : dir_slots (bury d i) ≡ set (dir_slots d) i none
  unfolding bury
  slots-bury = slots-set d.arena d.ents i _

  pub view-bury : view (bury d i) ≡ without e.name.bytes (view d)
  view-bury = ap live_of slots-bury ∙ live_of-clear (dir_slots d) i e v.distinct live

  only_one :
      (g j : ℕ)
      → 0 < hashing.count d.by_name g j
      → (j == i) ≡ true
      → (g ≡ hashing.name_hash (name_in d.arena (at d.ents i))) × (j ≡ i)
  only_one g j h t =
      let (a, p, q) = expected_pos (dir_slots d) g j (rw (v.indexed g j) at h) in
      let same : j ≡ i = ground arith in
      let there = name_in-at d.arena d.ents i a (ap (get_slot (dir_slots d)) (sym same) ∙ p) in
      (sym (ap hashing.name_hash there.1 ∙ q), same)

  pub bury-IsWellFormed : IsWellFormed (bury d i)
  bury-IsWellFormed =
      let here = name_in-at d.arena d.ents i e live in
      let place : KeepsPlace (at d.ents i) (record (at d.ents i) { dead = true }) = record {
        cookie = refl;
        name_off = refl;
        name_len = refl;
      } in
      record {
        packed = unfold bury in Packed-set (length d.arena) 0 d.ents i _ place v.packed;
        ascending = unfold bury in Ascending-set 3 d.next_cookie d.ents i _ place v.ascending;
        counted =
            unfold bury in
            omega (
              arith,
              v.counted,
              count_dead-bury d.ents i (record (at d.ents i) { dead = true }) here.0 refl,
            );
        distinct = rw slots-bury (Distinct-clear (dir_slots d) i v.distinct);
        indexed = λ g j. rw slots-bury (
            unfold bury in
            hashing.count-remove_entry d.by_name (hashing.name_hash (name_in d.arena (at d.ents i)))
              i (λ j. j == i)
              (ground (
                arith,
                v.indexed (hashing.name_hash (name_in d.arena (at d.ents i))) i,
                live,
                here.1,
              ))
              (==_refl i) only_one g j
            ∙ rw here.1 (ground (arith, v.indexed g j, expected-clear (dir_slots d) i e g j live)));
        small_arena = unfold bury in v.small_arena;
        small_ents = unfold bury in rw (length-set d.ents i _) v.small_ents;
      }
