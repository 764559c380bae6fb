-- ===== src/Replica/Dir/Refine.antt =====
-- Upserts and removals in a directory of crates/mist-replica/src/lib.rs against the list of its
-- live entries.
use mist.Prelude.{
  keep, ℕ, ◌+◌, ◌%◌, ◌^◌, true, false, Option, none, some, List, [], ◌∷◌, ◌++◌, ◌≡◌, refl, sym, ap,
  ◌∙◌, arith, inl, inr, Bool-cases, if◌then◌else◌,
}
use mist.Proto.Types.{NodeKey, Kind, Name}
use mist.Proto.Keys.{key_eq}
use mist.Replica.Hashing.{Hashing}
use mist.Replica.Dir.{
  Dir, UpsertResult, at, node, find_idx, upsert_at, remove_at, kill, upsert, remove,
}
use mist.Replica.Dir.Slots.{
  ReadDirEntry, Slots, live_of, entry_named, without, has_name, Absent, Distinct, without-Absent,
  get_slot-entry_named,
}
use mist.Replica.Dir.Valid.{dir_slots, view, IsWellFormed}
use mist.Replica.Dir.Insert.{HasRoom, view-insert_new, insert_new-IsWellFormed}
use mist.Replica.Dir.Rekind.{rekind, view-rekinded, rekinded-IsWellFormed}
use mist.Replica.Dir.Found.{Found, nowhere, there, find_idx_lem, at_slot, named-Absent, kill_lem}

-- The same operations on the list of live entries.
abbrev pub fresh : ℕ → Name → NodeKey → Kind → ReadDirEntry
fresh cookie name k kind = record { cookie = cookie; name = name; node = k; kind = kind }

unfoldable pub upsert_view :
    List ReadDirEntry
    → ℕ
    → Name
    → NodeKey
    → Kind
    → Option ReadDirEntry
    → List ReadDirEntry × UpsertResult
upsert_view es cookie name k kind none = (
  es ++ fresh cookie name k kind ∷ [],
  record { gained_link = true; displaced = none; dentry_delta = 1 },
)
upsert_view es cookie name k kind (some e) =
    if key_eq e.node k
    then (
      rekind name.bytes kind es,
      record { gained_link = false; displaced = none; dentry_delta = 0 },
    )
    else (
      without name.bytes es ++ fresh cookie name k kind ∷ [],
      record { gained_link = true; displaced = some e.node; dentry_delta = 0 },
    )

abbrev pub node_of : Option ReadDirEntry → Option NodeKey
node_of none = none
node_of (some e) = some e.node

Absent-without :
    (name : List ℕ) (sl : Slots)
    → entry_named name (live_of sl) ≡ none
    → Distinct sl
    → Absent name sl
Absent-without name sl h d i e p q = cc (h, get_slot-entry_named name sl i e d p q)

named-without : (name : List ℕ) (es : List ReadDirEntry) → entry_named name (without name es) ≡ none
unfolding entry_named without keep
named-without name [] = refl
named-without name (e ∷ es) = elim (Bool-cases (has_name name e)) [
  | inl t ↦ rw t (named-without name es)
  | inr f ↦ rw (f, f) (named-without name es)
]

module _ ⦃hashing : Hashing⦄ where
  upsert_at_lem :
      (d : Dir) (name : Name) (k : NodeKey) (kind : Kind) (o : Option ℕ)
      → IsWellFormed d
      → HasRoom d name.bytes
      → Found d name.bytes o
      → IsWellFormed (upsert_at d name k kind o).0
        × ((view (upsert_at d name k kind o).0, (upsert_at d name k kind o).1)
            ≡ upsert_view (view d) d.next_cookie name k kind (entry_named name.bytes (view d)))
  unfolding upsert_at upsert_view
  upsert_at_lem d name k kind _ v room (nowhere h) = rw (named-Absent name.bytes (dir_slots d) h) (
    insert_new-IsWellFormed d name.bytes k kind v room h,
    cc (view-insert_new d name.bytes k kind v room),
  )
  upsert_at_lem d name k kind _ v room (there i e p q) =
      let here = (at_slot d i e p).0 in
      let named = get_slot-entry_named name.bytes (dir_slots d) i e v.distinct p q in
      elim (Bool-cases (key_eq e.node k)) [
        | inl t ↦
            let t' : key_eq (node (at d.ents i)) k ≡ true = ap (λ x. key_eq x k) here ∙ t in
            rw (t', named, t)
              (
                rekinded-IsWellFormed d v i e kind p,
                cc (view-rekinded d v i e kind p, ap (λ b. rekind b kind (view d)) q),
              )
        | inr f ↦
            let f' : key_eq (node (at d.ents i)) k ≡ false = ap (λ x. key_eq x k) here ∙ f in
            let (v', seen, cookie, arena, ents) = kill_lem d i e v p in
            let room' : HasRoom (kill d i) name.bytes = record {
              short = room.short;
              arena = omega (arith, room.arena);
              ents = omega (arith, room.ents);
            } in
            let gone : view (kill d i) ≡ without name.bytes (view d) =
              seen ∙ ap (λ b. without b (view d)) q in
            let absent =
              Absent-without name.bytes (dir_slots (kill d i))
                (ap (entry_named name.bytes) gone ∙ named-without name.bytes (view d))
                v'.distinct in
            rw (f', named, f)
              (
                insert_new-IsWellFormed (kill d i) name.bytes k kind v' room' absent,
                cc (view-insert_new (kill d i) name.bytes k kind v' room', gone, here),
              )
      ]

  -- On a well-formed directory with room for one more name, an upsert keeps the directory well
  -- formed and does to the list of its live entries, with the same result, what it should: a new
  -- name is appended under the next cookie; a name of the same node keeps its place and its cookie
  -- and takes the kind; a name of another node is taken out and appended under the next cookie, and
  -- the node that it displaced is returned. Compaction, if the upsert causes one, cannot be seen.
  pub upsert-view :
      (d : Dir) (name : Name) (k : NodeKey) (kind : Kind)
      → IsWellFormed d
      → HasRoom d name.bytes
      → IsWellFormed (upsert d name k kind).0
        × ((view (upsert d name k kind).0, (upsert d name k kind).1)
            ≡ upsert_view (view d) d.next_cookie name k kind (entry_named name.bytes (view d)))
  unfolding upsert
  upsert-view d name k kind v room =
      upsert_at_lem d name k kind (find_idx d name.bytes) v room (find_idx_lem d name.bytes v)

  remove_at_lem :
      (d : Dir) (name : List ℕ) (o : Option ℕ)
      → IsWellFormed d
      → Found d name o
      → IsWellFormed (remove_at d o).0
        × (view (remove_at d o).0 ≡ without name (view d))
        × ((remove_at d o).1 ≡ node_of (entry_named name (view d)))
  unfolding remove_at
  remove_at_lem d name _ v (nowhere h) =
      (v, sym (without-Absent name (dir_slots d) h), rw (named-Absent name (dir_slots d) h))
  remove_at_lem d name _ v (there i e p q) =
      let d' : Dir = record d { dirgen = (d.dirgen + 1) % 2 ^ 64 } in
      let v' : IsWellFormed d' = record {
        packed = v.packed;
        ascending = v.ascending;
        counted = v.counted;
        distinct = v.distinct;
        indexed = v.indexed;
        small_arena = v.small_arena;
        small_ents = v.small_ents;
      } in
      let (w, seen, _, _, _) = kill_lem d' i e v' p in
      (
        w,
        seen ∙ ap (λ b. without b (view d)) q,
        rw (get_slot-entry_named name (dir_slots d) i e v.distinct p q) (cc ((at_slot d i e p).0)),
      )

  -- On a well-formed directory a removal keeps it well formed, takes the entries of the name out of
  -- the list of live entries and no other, and returns the node that the name had, if it had one.
  pub remove-view :
      (d : Dir) (name : List ℕ)
      → IsWellFormed d
      → IsWellFormed (remove d name).0
        × (view (remove d name).0 ≡ without name (view d))
        × ((remove d name).1 ≡ node_of (entry_named name (view d)))
  unfolding remove
  remove-view d name v = remove_at_lem d name (find_idx d name) v (find_idx_lem d name v)
