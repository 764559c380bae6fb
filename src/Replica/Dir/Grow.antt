-- ===== src/Replica/Dir/Grow.antt =====
-- How much a directory's table grows under the operations of crates/mist-replica/src/lib.rs, and the
-- invariant that it has room for a number of further names.
use mist.Prelude.{
  ℕ, suc, ◌+◌, ◌*◌, ◌%◌, ◌^◌, ◌≤◌, ◌<◌, Bool, false, Option, List, [], ◌∷◌, length, arith, inl, inr,
  Bool-cases, length-append, length-set,
}
use mist.Proto.Types.{NodeKey, Kind, Name}
use mist.Proto.Keys.{key_eq}
use mist.Replica.Hashing.{Hashing}
use mist.Replica.Dir
use mist.Replica.Dir.{
  Dir, node, at, find_idx, upsert_at, upsert, remove_at, remove, insert_new, kill,
}
use mist.Replica.Dir.Valid.{IsWellFormed, new-IsWellFormed}
use mist.Replica.Dir.Insert.{HasRoom}
use mist.Replica.Dir.Found.{Found, nowhere, there, find_idx_lem, kill_lem}
use mist.Replica.Dir.Refine.{upsert-view, remove-view}

module _ ⦃hashing : Hashing⦄ where
  -- The directory is well formed and has room for `m` more names of up to 255 bytes.
  pub record Fits (m : ℕ) (d : Dir) : Type 0 where
    pub well_formed : IsWellFormed d
    pub arena : length d.arena + m * 255 < 2 ^ 32
    pub ents : length d.ents + m < 2 ^ 32

  -- The flag and the generation are no part of what a well-formed directory must hold.
  same_table :
      (d : Dir) (complete : Bool) (dirgen : ℕ)
      → IsWellFormed d
      → IsWellFormed (record d { complete = complete; dirgen = dirgen })
  same_table d complete dirgen v = record {
    packed = v.packed;
    ascending = v.ascending;
    counted = v.counted;
    distinct = v.distinct;
    indexed = v.indexed;
    small_arena = v.small_arena;
    small_ents = v.small_ents;
  }

  -- Growth by a name of `n` bytes at most.
  abbrev Grows : ℕ → Dir → Dir → Type 0
  Grows n d d' = (length d'.arena ≤ length d.arena + n) × (length d'.ents ≤ length d.ents + 1)

  insert_new-Grows :
      (d d' : Dir) (name : List ℕ) (k : NodeKey) (kind : Kind)
      → length d'.arena ≤ length d.arena
      → length d'.ents ≤ length d.ents
      → Grows (length name) d (insert_new d' name k kind)
  unfolding insert_new
  insert_new-Grows d d' name k kind h g = (
    omega (arith, length-append d'.arena name),
    omega (
      arith,
      length-append d'.ents (
          record {
            cookie = d'.next_cookie;
            ino = k.ino;
            nkgen = k.generation;
            name_off = length d'.arena % 2 ^ 32;
            name_len = length name % 2 ^ 16;
            kind = kind;
            dead = false;
          }
          ∷ []),
    ),
  )

  upsert_at-Grows :
      (d : Dir) (name : Name) (k : NodeKey) (kind : Kind) (o : Option ℕ)
      → IsWellFormed d
      → Found d name.bytes o
      → Grows (length name.bytes) d (upsert_at d name k kind o).0
  unfolding upsert_at
  upsert_at-Grows d name k kind _ v (nowhere h) =
      insert_new-Grows d d name.bytes k kind (omega arith) (omega arith)
  upsert_at-Grows d name k kind _ v (there i e p q) =
      elim (Bool-cases (key_eq (node (at d.ents i)) k)) [
        | inl t ↦ rw t ((omega arith, omega (arith, length-set d.ents i _)))
        | inr f ↦
            let sizes = kill_lem d i e v p in
            rw f (insert_new-Grows d (kill d i) name.bytes k kind sizes.3 sizes.4)
      ]

  -- An upsert uses up the room for one name.
  pub upsert-Fits :
      (m : ℕ) (d : Dir) (name : Name) (k : NodeKey) (kind : Kind)
      → length name.bytes ≤ 255
      → Fits (suc m) d
      → Fits m (upsert d name k kind).0
  unfolding upsert
  upsert-Fits m d name k kind short f =
      let grows : Grows (length name.bytes) d (upsert d name k kind).0 =
        upsert_at-Grows d name k kind (find_idx d name.bytes) f.well_formed
          (find_idx_lem d name.bytes f.well_formed) in
      let room : HasRoom d name.bytes = record {
        short = short;
        arena = omega (arith, f.arena);
        ents = omega (arith, f.ents);
      } in
      record {
        well_formed = (upsert-view d name k kind f.well_formed room).0;
        arena = omega (arith, f.arena, grows.0);
        ents = omega (arith, f.ents, grows.1);
      }

  remove_at-size :
      (d : Dir) (name : List ℕ) (o : Option ℕ)
      → IsWellFormed d
      → Found d name o
      → (length (remove_at d o).0.arena ≤ length d.arena)
        × (length (remove_at d o).0.ents ≤ length d.ents)
  unfolding remove_at
  remove_at-size d name _ v (nowhere h) = (omega arith, omega arith)
  remove_at-size d name _ v (there i e p q) =
      let d' : Dir = record d { dirgen = (d.dirgen + 1) % 2 ^ 64 } in
      let sizes = (kill_lem d' i e (same_table d d.complete ((d.dirgen + 1) % 2 ^ 64) v) p) in
      (sizes.3, sizes.4)

  -- A removal uses up no room.
  pub remove-Fits : (m : ℕ) (d : Dir) (name : List ℕ) → Fits m d → Fits m (remove d name).0
  unfolding remove
  remove-Fits m d name f =
      let sizes =
        remove_at-size d name (find_idx d name) f.well_formed (find_idx_lem d name f.well_formed) in
      record {
        well_formed = (remove-view d name f.well_formed).0;
        arena = omega (arith, f.arena, sizes.0);
        ents = omega (arith, f.ents, sizes.1);
      }

  pub Fits-weaken : (m m' : ℕ) (d : Dir) → m ≤ m' → Fits m' d → Fits m d
  Fits-weaken m m' d le f = record {
    well_formed = f.well_formed;
    arena = omega (arith, f.arena);
    ents = omega (arith, f.ents);
  }

  pub new-Fits : (m : ℕ) → m ≤ 16777216 → Fits m Dir.new
  new-Fits m h = record { well_formed = new-IsWellFormed; arena = omega arith; ents = omega arith }

  pub complete-Fits : (m : ℕ) (d : Dir) (b : Bool) → Fits m d → Fits m (record d { complete = b })
  complete-Fits m d b f = record {
    well_formed = same_table d b d.dirgen f.well_formed;
    arena = f.arena;
    ents = f.ents;
  }
