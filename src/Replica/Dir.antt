-- ===== src/Replica/Dir.antt =====
-- `DirState` of crates/mist-replica/src/lib.rs: the entries of one directory, their names in an
-- arena, and a hash index from names to positions. An index out of range, where Rust panics,
-- yields a dead entry.
pub mod Slots
pub mod Valid
pub mod Insert
pub mod Bury
pub mod Compact
pub mod Rekind
pub mod Found
pub mod Refine
pub mod Grow
pub mod Lookup
use mist.Prelude.{
  ℕ, zero, suc, ◌+◌, ◌-◌, ◌/◌, ◌%◌, ◌^◌, Bool, true, false, not, ◌&&◌, Option, none, some, List, [],
  ◌∷◌, ◌++◌, length, take, drop, get_elem?, set, keep, ltb, leb, ◌==◌, bytes_eq, if◌then◌else◌,
}
use mist.Proto.Types.{NodeKey, Kind, reg, Name}
use mist.Proto.Keys.{key_eq}
use mist.Replica.Hashing.{Hashing}

abbrev pub first_cookie : ℕ
first_cookie = 3

pub record CEnt : Type 0 where
  pub cookie : ℕ
  pub ino : ℕ
  pub nkgen : ℕ
  pub name_off : ℕ
  pub name_len : ℕ
  pub kind : Kind
  pub dead : Bool

abbrev pub node : CEnt → NodeKey
node e = record { ino = e.ino; generation = e.nkgen }

abbrev pub no_entry : CEnt
no_entry = record {
  cookie = 0;
  ino = 0;
  nkgen = 0;
  name_off = 0;
  name_len = 0;
  kind = reg;
  dead = true;
}

abbrev pub at : List CEnt → ℕ → CEnt
at [] i = no_entry
at (e ∷ es) zero = e
at (e ∷ es) (suc i) = at es i

pub record DirState (T : Type 0) : Type 0 where
  pub arena : List ℕ
  pub ents : List CEnt
  pub by_name : T
  pub dead : ℕ
  pub next_cookie : ℕ
  pub dirgen : ℕ
  pub complete : Bool

pub record UpsertResult : Type 0 where
  pub gained_link : Bool
  pub displaced : Option NodeKey
  pub dentry_delta : ℕ

-- `&arena[off..off + len]`
abbrev pub name_in : List ℕ → CEnt → List ℕ
name_in arena e = take e.name_len (drop e.name_off arena)

abbrev pub alive : CEnt → Bool
alive e = not e.dead

-- The loop of `compact` over the live entries.
unfoldable pub repack : List ℕ → List ℕ → List CEnt → List ℕ × List CEnt
repack old arena [] = (arena, [])
repack old arena (e ∷ es) =
    let rest = repack old (arena ++ name_in old e) es in
    let skipped = repack old arena es in
    if alive e then (rest.0, record e { name_off = length arena % 2 ^ 32 } ∷ rest.1) else skipped

-- `ents[partition_point(p)..]`: the library's binary search, on entries sorted so that `p` holds
-- of a front, finds the first that fails `p`.
unfoldable pub from_partition_point : (CEnt → Bool) → List CEnt → List CEnt
from_partition_point p [] = []
from_partition_point p (e ∷ es) =
    let rest = from_partition_point p es in if p e then rest else e ∷ es

module _ ⦃hashing : Hashing⦄ where
  abbrev pub Dir : Type 0
  Dir = DirState hashing.Table

  abbrev pub new : Dir
  new = record {
    arena = [];
    ents = [];
    by_name = hashing.new;
    dead = 0;
    next_cookie = first_cookie;
    dirgen = 0;
    complete = false;
  }

  abbrev pub name_of : Dir → CEnt → List ℕ
  name_of d e = name_in d.arena e

  abbrev pub live_len : Dir → ℕ
  live_len d = length d.ents - d.dead

  abbrev pub is_named : Dir → List ℕ → ℕ → Bool
  is_named d name i = let e = at d.ents i in alive e && bytes_eq (name_of d e) name

  unfoldable pub find_idx : Dir → List ℕ → Option ℕ
  find_idx d name = hashing.find d.by_name (hashing.name_hash name) (is_named d name)

  abbrev pub find_at : Dir → Option ℕ → Option (NodeKey × Kind)
  find_at d none = none
  find_at d (some i) = let e = at d.ents i in some (node e, e.kind)

  unfoldable pub find : Dir → List ℕ → Option (NodeKey × Kind)
  find d name = find_at d (find_idx d name)

  unfoldable pub insert_new : Dir → List ℕ → NodeKey → Kind → Dir
  insert_new d name k kind =
      let arena = d.arena ++ name in
      let ents =
        d.ents
        ++ record {
          cookie = d.next_cookie;
          ino = k.ino;
          nkgen = k.generation;
          name_off = length d.arena % 2 ^ 32;
          name_len = length name % 2 ^ 16;
          kind = kind;
          dead = false;
        }
          ∷ [] in
      record d {
        arena = arena;
        ents = ents;
        by_name =
            hashing.insert_unique d.by_name (hashing.name_hash name) (length d.ents % 2 ^ 32)
              (λ i. hashing.name_hash (name_in arena (at ents i)));
        next_cookie = d.next_cookie + 1;
        dirgen = (d.dirgen + 1) % 2 ^ 64;
      }

  -- The loop that fills the new index, from position `i` on.
  unfoldable pub reindex : List ℕ → List CEnt → ℕ → List CEnt → hashing.Table → hashing.Table
  reindex arena ents i [] t = t
  reindex arena ents i (e ∷ es) t = reindex arena ents (i + 1) es (
      hashing.insert_unique t (hashing.name_hash (name_in arena e)) (i % 2 ^ 32)
        (λ j. hashing.name_hash (name_in arena (at ents j))))

  unfoldable pub compact : Dir → Dir
  unfolding repack reindex
  compact d =
      let (arena, ents) = repack d.arena [] d.ents in
      record d {
        arena = arena;
        ents = ents;
        by_name = reindex arena ents 0 ents hashing.new;
        dead = 0;
      }

  -- `kill` before its test for compaction.
  unfoldable pub bury : Dir → ℕ → Dir
  bury d i =
      let e = at d.ents i in
      record d {
        by_name = hashing.remove_entry d.by_name (hashing.name_hash (name_of d e)) (λ j. j == i);
        ents = set d.ents i (record e { dead = true });
        dead = d.dead + 1;
      }

  unfoldable pub kill : Dir → ℕ → Dir
  unfolding bury compact
  kill d i =
      let d' = bury d i in
      if ltb (length d'.ents / 2) d'.dead && leb 16 d'.dead then compact d' else d'

  -- `upsert` and `remove` at what the index finds.
  unfoldable pub upsert_at : Dir → Name → NodeKey → Kind → Option ℕ → Dir × UpsertResult
  upsert_at d name k kind none = (
    insert_new d name.bytes k kind,
    record { gained_link = true; displaced = none; dentry_delta = 1 },
  )
  upsert_at d name k kind (some i) =
      let e = at d.ents i in
      if key_eq (node e) k
      then (
        record d { ents = set d.ents i (record e { kind = kind }) },
        record { gained_link = false; displaced = none; dentry_delta = 0 },
      )
      else (
        insert_new (kill d i) name.bytes k kind,
        record { gained_link = true; displaced = some (node e); dentry_delta = 0 },
      )

  unfoldable pub upsert : Dir → Name → NodeKey → Kind → Dir × UpsertResult
  unfolding upsert_at
  upsert d name k kind = upsert_at d name k kind (find_idx d name.bytes)

  unfoldable pub remove_at : Dir → Option ℕ → Dir × Option NodeKey
  remove_at d none = (d, none)
  remove_at d (some i) =
      (kill (record d { dirgen = (d.dirgen + 1) % 2 ^ 64 }) i, some (node (at d.ents i)))

  unfoldable pub remove : Dir → List ℕ → Dir × Option NodeKey
  unfolding remove_at
  remove d name = remove_at d (find_idx d name)

  unfoldable pub range_after : Dir → ℕ → List CEnt
  unfolding from_partition_point
  range_after d after = keep alive (from_partition_point (λ e. leb e.cookie after) d.ents)

  unfoldable pub live : Dir → List CEnt
  live d = keep alive d.ents
