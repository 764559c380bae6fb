-- ===== src/Replica/Dir/Found.antt =====
-- What a search of the index of a directory of crates/mist-replica/src/lib.rs finds, and the tombstone
-- that is made there.
use mist.Prelude.{
  ℕ, ◌/◌, ◌≤◌, ◌&&◌, Option, none, some, List, length, ltb, leb, bytes_eq, bytes_eq_refl,
  eq_of_bytes_eq, ◌≡◌, refl, sym, ap, ◌∙◌, arith, inl, inr, Bool-cases, Option-cases, length-set,
  ==_refl,
}
use mist.Proto.Types.{NodeKey, Kind}
use mist.Replica.Hashing.{Hashing}
use mist.Replica.Dir.{Dir, at, node, is_named, find_idx, find_at, find, bury, compact, kill}
use mist.Replica.Dir.Slots.{
  ReadDirEntry, Slots, get_slot, get_slot-slots, live_of, entry_named, without, Absent,
  entry_named-get_slot, get_slot-entry_named,
}
use mist.Replica.Dir.Valid.{dir_slots, view, IsWellFormed, expected_pos, name_in-at}
use mist.Replica.Dir.Bury.{view-bury, bury-IsWellFormed}
use mist.Replica.Dir.Compact.{
  view-compact, compact-IsWellFormed, length_arena-compact, length_ents-compact,
}

-- What a lookup returns of an entry.
abbrev pub found_target : Option ReadDirEntry → Option (NodeKey × Kind)
found_target none = none
found_target (some e) = some (e.node, e.kind)

module _ ⦃hashing : Hashing⦄ where
  -- What a search of the index finds.
  pub data Found (d : Dir) (name : List ℕ) : Option ℕ → Type 0 where
    nowhere : Absent name (dir_slots d) → Found d name none
    there :
        (i : ℕ) (e : ReadDirEntry)
        → get_slot (dir_slots d) i ≡ some e
        → e.name.bytes ≡ name
        → Found d name (some i)

  pub find_idx_lem : (d : Dir) (name : List ℕ) → IsWellFormed d → Found d name (find_idx d name)
  unfolding find_idx
  find_idx_lem d name v =
      let h = hashing.name_hash name in
      elim (Option-cases (hashing.find d.by_name h (is_named d name))) [
        | inl e ↦ rw e (
            nowhere (λ i a p q.
              let here = name_in-at d.arena d.ents i a p in
              let refused =
                hashing.find-eq-none d.by_name h (is_named d name) e i
                  (ground (arith, v.indexed h i, ap hashing.name_hash q, p, ==_refl h)) in
              ground (
                arith,
                refused,
                here.0,
                here.1 ∙ q,
                bytes_eq_refl name,
                ap (λ b. bytes_eq b name) (here.1 ∙ q),
              )))
        | inr (i, e) ↦
            let (accepted, (g, pos)) = hashing.find-eq-some d.by_name h (is_named d name) i e in
            let (a, p, q) = expected_pos (dir_slots d) g i (rw (v.indexed g i) at pos) in
            let here = name_in-at d.arena d.ents i a p in
            rw e (there i a p (sym here.1 ∙ eq_of_bytes_eq _ _ (ground (arith, accepted, here.0))))
      ]

  pub at_slot :
      (d : Dir) (i : ℕ) (e : ReadDirEntry)
      → get_slot (dir_slots d) i ≡ some e
      → (node (at d.ents i) ≡ e.node) × ((at d.ents i).kind ≡ e.kind)
  at_slot d i e p = ground (arith, get_slot-slots d.arena d.ents i)

  pub named-Absent :
      (name : List ℕ) (sl : Slots) → Absent name sl → entry_named name (live_of sl) ≡ none
  named-Absent name sl h = elim (Option-cases (entry_named name (live_of sl))) [
    | inl e ↦ e
    | inr (x, e) ↦ let (i, p, q) = entry_named-get_slot name sl x e in absurd (h i x p q)
  ]

  abbrev target : ReadDirEntry → NodeKey × Kind
  target e = (e.node, e.kind)

  find_at_lem :
      (d : Dir) (name : List ℕ) (o : Option ℕ)
      → IsWellFormed d
      → Found d name o
      → find_at d o ≡ found_target (entry_named name (view d))
  find_at_lem d name _ v (nowhere h) = rw (named-Absent name (dir_slots d) h)
  find_at_lem d name _ v (there i a p q) =
      rw (get_slot-entry_named name (dir_slots d) i a v.distinct p q)
        (ground (arith, at_slot d i a p))

  -- On a well-formed directory a lookup by name through the index gives the node and the kind of
  -- the live entry of that name, and nothing if there is none.
  pub find_lem :
      (d : Dir) (name : List ℕ)
      → IsWellFormed d
      → find d name ≡ found_target (entry_named name (view d))
  unfolding find
  find_lem d name v = find_at_lem d name (find_idx d name) v (find_idx_lem d name v)

  -- `kill` takes the entry at a live position out of the view, and nothing else.
  pub kill_lem :
      (d : Dir) (i : ℕ) (e : ReadDirEntry)
      → IsWellFormed d
      → get_slot (dir_slots d) i ≡ some e
      → IsWellFormed (kill d i)
        × (view (kill d i) ≡ without e.name.bytes (view d))
        × ((kill d i).next_cookie ≡ d.next_cookie)
        × (length (kill d i).arena ≤ length d.arena)
        × (length (kill d i).ents ≤ length d.ents)
  unfolding kill
  kill_lem d i e v live =
      let b = bury-IsWellFormed d v i e live in
      let seen = view-bury d v i e live in
      let same : (length (bury d i).ents ≡ length d.ents)
          × (length (bury d i).arena ≡ length d.arena)
          × ((bury d i).next_cookie ≡ d.next_cookie) =
        unfold bury in (length-set d.ents i _, refl, refl) in
      let next : (compact (bury d i)).next_cookie ≡ (bury d i).next_cookie =
        unfold compact in refl in
      elim (Bool-cases
        (ltb (length (bury d i).ents / 2) (bury d i).dead && leb 16 (bury d i).dead)) [
          | inl t ↦ rw t (
            compact-IsWellFormed (bury d i) b,
            view-compact (bury d i) b ∙ seen,
            next ∙ same.2,
            omega (arith, length_arena-compact (bury d i) b, same.1),
            omega (arith, length_ents-compact (bury d i) b, same.0),
          )
          | inr f ↦ rw f (b, seen, same.2, omega (arith, same.1), omega (arith, same.0))
        ]
