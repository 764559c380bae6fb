-- ===== src/Replica/Read.antt =====
-- The read side of the replica of crates/mist-replica/src/lib.rs: attributes, lookups, directory pages
-- and paths. A path is the list of its components; joining and decoding them to text is left out.
pub mod Paging
use mathlib.Core.List.{reverse}
use mist.Prelude.{
  ℕ, zero, suc, ◌+◌, ◌-◌, Bool, true, false, not, ◌&&◌, ◌||◌, Option, none, some, List, [], ◌∷◌,
  ◌++◌, length, ltb, leb, ◌==◌, bytes_eq, if◌then◌else◌,
}
use mist.Prelude.Result.{Result, ok, err, ◌>>=◌}
use mist.Proto.Types.{NodeKey, Ts, Kind, dir, kind_eq, Attr, Name}
use mist.Proto.Keys.{key_eq}
use mist.Replica.Hashing.{Hashing}
use mist.Replica.Dir
use mist.Replica.Dir.{Dir, CEnt, node, name_in, live, range_after}
use mist.Replica.Dir.Slots.{ReadDirEntry, entry_in}
use mist.Replica.Node.{
  Node, ReplicaError, no_ent, not_dir, not_symlink, incomplete, bad_path, attr_of, parent, next_sec,
}
use mist.Replica.Share.{State, Inode, get_node, put_node, modify, graft_side}
use mist.Replica.Apply.{table_of, dir_at}

pub record ReadDirPage : Type 0 where
  pub entries : List ReadDirEntry
  pub eof : Bool
  pub dirgen : ℕ

-- `ok_or`
abbrev pub ok_or : {A : Type 0} → ReplicaError → Option A → Result ReplicaError A
ok_or e none = err e
ok_or e (some a) = ok a

-- The loop of `readdir`.
unfoldable pub fill : List ℕ → ℕ → List ReadDirEntry → List CEnt → List ReadDirEntry × Bool
fill arena max entries [] = (entries, true)
fill arena max entries (e ∷ es) =
    let rest = fill arena max (entries ++ entry_in arena e ∷ []) es in
    if leb max (length entries) then (entries, false) else rest

module _ ⦃hashing : Hashing⦄ where
  unfoldable pub page : Dir → ℕ → ℕ → ReadDirPage
  unfolding fill
  page d cookie max =
      let (entries, eof) = fill d.arena max [] (range_after d cookie) in
      record { entries = entries; eof = eof; dirgen = d.dirgen }

  unfoldable pub getattr : State → NodeKey → Result ReplicaError Attr
  getattr s key =
      ok_or no_ent (get_node s key) >>= λ n. ok (graft_side s key n.has_side (attr_of n))

  unfoldable pub lookup : State → NodeKey → List ℕ → Result ReplicaError (NodeKey × Attr)
  lookup s key name = do
    n ← ok_or no_ent (get_node s key)
    d ← ok_or not_dir n.dir
    child ← ok_or no_ent (Dir.find d name)
    a ← getattr s child.0
    ok (child.0, a)

  unfoldable pub readdir : State → NodeKey → ℕ → ℕ → Result ReplicaError ReadDirPage
  unfolding page
  readdir s key cookie max = do
    n ← ok_or no_ent (get_node s key)
    d ← ok_or not_dir n.dir
    if not d.complete then err incomplete else ok (page d cookie max)

  unfoldable pub readlink : State → NodeKey → Result ReplicaError (List ℕ)
  unfolding getattr
  readlink s key = do a ← getattr s key; ok_or not_symlink a.symlink_target

  unfoldable pub link_count : State → NodeKey → ℕ
  link_count s key = elim (get_node s key) [ none ↦ 0 | some n ↦ n.links ]

  -- The node with its times moved forward.
  unfoldable pub bumped : Inode → Inode
  bumped n =
      if kind_eq n.kind dir
      then (let wraps = leb 999999999 n.mtime_nsec in
          let sec = if wraps then next_sec n.mtime_sec else n.mtime_sec in
          let nsec = if wraps then 0 else n.mtime_nsec + 1 in
          record n { mtime_sec = sec; mtime_nsec = nsec; ctime_sec = sec; ctime_nsec = nsec })
      else n

  unfoldable pub bump_dir_attr : State → NodeKey → State
  unfolding bumped
  bump_dir_attr s key = modify s key bumped

  unfoldable pub parent_of : State → NodeKey → Option NodeKey
  parent_of s key = elim (get_node s key) [ none ↦ none | some n ↦ some (parent n) ]

  -- `live().find(|e| e.node() == cur)`
  unfoldable pub name_of_node : List ℕ → NodeKey → List CEnt → Option (List ℕ)
  name_of_node arena cur [] = none
  name_of_node arena cur (e ∷ es) =
      let rest = name_of_node arena cur es in
      if key_eq (node e) cur then some (name_in arena e) else rest

  abbrev pub name_under : State → NodeKey → NodeKey → Option (List ℕ)
  name_under s p cur = elim (dir_at s p) [
    | none ↦ none
    | some d ↦ name_of_node d.arena cur (live d)
  ]

  -- The loop of `path_of`, of at most the rounds given; the parts are in reverse.
  unfoldable pub walk_up : ℕ → State → NodeKey → List (List ℕ) → Option (List (List ℕ))
  walk_up zero s cur parts = some parts
  walk_up (suc rounds) s cur parts = elim (parent_of s cur) [
    | none ↦ none
    | some p ↦ elim (key_eq p cur) [
      | true ↦ some parts
      | false ↦ elim (name_under s p cur) [
        | none ↦ none
        | some name ↦ elim (key_eq p s.root) [
          | true ↦ some (parts ++ name ∷ [])
          | false ↦ walk_up rounds s p (parts ++ name ∷ [])
        ]
      ]
    ]
  ]

  unfoldable pub path_of : State → NodeKey → Option (List (List ℕ))
  unfolding walk_up
  path_of s key =
      if key_eq key s.root
      then some []
      else elim (walk_up 512 s key []) [ none ↦ none | some parts ↦ some (reverse parts) ]

  abbrev is_dots : List ℕ → Bool
  is_dots comp = bytes_eq comp (b'.' ∷ []) || bytes_eq comp (b'.' ∷ b'.' ∷ [])

  -- The loop of `resolve_path` over the components that are not empty.
  unfoldable pub walk_down :
      State → NodeKey → Attr → List (List ℕ) → Result ReplicaError (NodeKey × Attr)
  unfolding lookup
  walk_down s cur a [] = ok (cur, a)
  walk_down s cur a (comp ∷ comps) = elim (is_dots comp) [
    | true ↦ err bad_path
    | false ↦ elim (lookup s cur comp) [ err e ↦ err e | ok r ↦ walk_down s r.0 r.1 comps ]
  ]

  unfoldable pub resolve_path : State → List (List ℕ) → Result ReplicaError (NodeKey × Attr)
  unfolding walk_down getattr
  resolve_path s comps = do a ← getattr s s.root; walk_down s s.root a comps
