-- ===== src/Replica/Dir/Rekind.antt =====
-- The upsert of an entry that is there already, of crates/mist-replica/src/lib.rs, which writes
-- its kind.
use mist.Prelude.{
  ℕ, zero, suc, false, Option, none, some, List, [], ◌∷◌, length, set, map, bytes_eq_refl,
  eq_of_bytes_eq, ◌≡◌, refl, sym, ap, ◌∙◌, arith, inl, inr, Bool-cases, length-set, if◌then◌else◌,
}
use mist.Proto.Types.{Kind}
use mist.Replica.Hashing.{Hashing}
use mist.Replica.Dir.{CEnt, Dir, at}
use mist.Replica.Dir.Slots.{
  ReadDirEntry, Slots, slot_of, get_slot, get_slot-slots, Distinct, Distinct-tail, live_of,
  slots-set, has_name,
}
use mist.Replica.Dir.Bury.{KeepsPlace, Packed-set, Ascending-set}
use mist.Replica.Dir.Valid.{count_dead, dir_slots, view, IsWellFormed, expected}

-- The kind of the entries of a name.
unfoldable pub rekind : List ℕ → Kind → List ReadDirEntry → List ReadDirEntry
rekind name kind = map (λ e. if has_name name e then record e { kind = kind } else e)

rekind-absent :
    (name : List ℕ) (kind : Kind) (sl : Slots)
    → ((i : ℕ) (e : ReadDirEntry) → get_slot sl i ≡ some e → has_name name e ≡ false)
    → rekind name kind (live_of sl) ≡ live_of sl
unfolding rekind
rekind-absent name kind [] h = refl
rekind-absent name kind (none ∷ sl) h = rekind-absent name kind sl (λ i. h (suc i))
rekind-absent name kind (some x ∷ sl) h =
    rw (h 0 x refl) (ap (λ l. x ∷ l) (rekind-absent name kind sl (λ i. h (suc i))))

other_name :
    (x : ReadDirEntry) (s : Option ReadDirEntry) (sl : Slots)
    → Distinct (s ∷ sl)
    → s ≡ some x
    → (i : ℕ) (e : ReadDirEntry) → get_slot sl i ≡ some e
    → has_name x.name.bytes e ≡ false
other_name x s sl d h i e p = elim (Bool-cases (has_name x.name.bytes e)) [
  | inl t ↦
      absurd
        (ground (arith, d 0 (suc i) x e h p (sym (eq_of_bytes_eq e.name.bytes x.name.bytes t))))
  | inr f ↦ f
]

live_of-rekind :
    (sl : Slots) (i : ℕ) (e : ReadDirEntry) (kind : Kind)
    → Distinct sl
    → get_slot sl i ≡ some e
    → live_of (set sl i (some (record e { kind = kind }))) ≡ rekind e.name.bytes kind (live_of sl)
live_of-rekind [] i e kind d h = ground arith
live_of-rekind (s ∷ sl) zero e kind d h =
    let rest = rekind-absent e.name.bytes kind sl (other_name e s sl d h) in
    rw h (
      unfold rekind in
      rw (bytes_eq_refl e.name.bytes) (ap (λ l. record e { kind = kind } ∷ l) (sym rest)))
live_of-rekind (none ∷ sl) (suc i) e kind d h =
    live_of-rekind sl i e kind (Distinct-tail none sl d) h ∙ unfold rekind in refl
live_of-rekind (some x ∷ sl) (suc i) e kind d h = elim (Bool-cases (has_name e.name.bytes x)) [
  | inl t ↦
      absurd (ground (arith, d 0 (suc i) x e refl h (eq_of_bytes_eq x.name.bytes e.name.bytes t)))
  | inr f ↦
      ap (λ l. x ∷ l) (live_of-rekind sl i e kind (Distinct-tail (some x) sl d) h)
      ∙ unfold rekind in rw f
]

get_slot-rekind :
    (sl : Slots) (i j : ℕ) (e a : ReadDirEntry) (kind : Kind)
    → get_slot sl i ≡ some e
    → get_slot (set sl i (some (record e { kind = kind }))) j ≡ some a
    → (b : ReadDirEntry) × (get_slot sl j ≡ some b) × (b.name.bytes ≡ a.name.bytes)
get_slot-rekind [] i j e a kind h p = ground arith
get_slot-rekind (s ∷ sl) zero zero e a kind h p = ground arith
get_slot-rekind (s ∷ sl) zero (suc j) e a kind h p = (a, p, refl)
get_slot-rekind (s ∷ sl) (suc i) zero e a kind h p = (a, p, refl)
get_slot-rekind (s ∷ sl) (suc i) (suc j) e a kind h p = get_slot-rekind sl i j e a kind h p

count_dead-rekind :
    (es : List CEnt) (i : ℕ) (e : CEnt)
    → e.dead ≡ (at es i).dead
    → count_dead (set es i e) ≡ count_dead es
count_dead-rekind [] i e h = refl
count_dead-rekind (x ∷ es) zero e h = ground arith
count_dead-rekind (x ∷ es) (suc i) e h = ground (arith, count_dead-rekind es i e h)

module _ ⦃hashing : Hashing⦄ where
  expected-rekind :
      (sl : Slots) (i : ℕ) (e : ReadDirEntry) (kind : Kind) (g j : ℕ)
      → get_slot sl i ≡ some e
      → expected (set sl i (some (record e { kind = kind }))) g j ≡ expected sl g j
  expected-rekind [] i e kind g j h = refl
  expected-rekind (s ∷ sl) zero e kind g zero h = rw h
  expected-rekind (s ∷ sl) zero e kind g (suc j) h = refl
  expected-rekind (s ∷ sl) (suc i) e kind g zero h = refl
  expected-rekind (s ∷ sl) (suc i) e kind g (suc j) h = expected-rekind sl i e kind g j h

  module _ (d : Dir) (v : IsWellFormed d) (i : ℕ) (e : ReadDirEntry) (kind : Kind)
      (live : get_slot (dir_slots d) i ≡ some e) where
    abbrev pub rekinded : Dir
    rekinded = record d { ents = set d.ents i (record (at d.ents i) { kind = kind }) }

    slots-rekinded : dir_slots rekinded ≡ set (dir_slots d) i (some (record e { kind = kind }))
    slots-rekinded =
        let here : slot_of d.arena (record (at d.ents i) { kind = kind })
            ≡ some (record e { kind = kind }) =
          ground (arith, get_slot-slots d.arena d.ents i) in
        slots-set d.arena d.ents i _ ∙ ap (set (dir_slots d) i) here

    pub view-rekinded : view rekinded ≡ rekind e.name.bytes kind (view d)
    view-rekinded =
        ap live_of slots-rekinded ∙ live_of-rekind (dir_slots d) i e kind v.distinct live

    pub rekinded-IsWellFormed : IsWellFormed rekinded
    rekinded-IsWellFormed =
        let place : KeepsPlace (at d.ents i) (record (at d.ents i) { kind = kind }) = record {
          cookie = refl;
          name_off = refl;
          name_len = refl;
        } in
        record {
          packed = Packed-set (length d.arena) 0 d.ents i _ place v.packed;
          ascending = Ascending-set 3 d.next_cookie d.ents i _ place v.ascending;
          counted =
              v.counted
              ∙ sym (count_dead-rekind d.ents i (record (at d.ents i) { kind = kind }) refl);
          distinct = rw slots-rekinded (λ j k a b p q same.
              let (a', pa, na) = get_slot-rekind (dir_slots d) i j e a kind live p in
              let (b', pb, nb) = get_slot-rekind (dir_slots d) i k e b kind live q in
              v.distinct j k a' b' pa pb (na ∙ same ∙ sym nb));
          indexed = λ g j.
              v.indexed g j
              ∙ sym (
                  ap (λ (sl : Slots). expected sl g j) slots-rekinded
                  ∙ expected-rekind (dir_slots d) i e kind g j live);
          small_arena = v.small_arena;
          small_ents = rw length-set v.small_ents;
        }
