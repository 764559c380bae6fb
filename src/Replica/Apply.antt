-- ===== src/Replica/Apply.antt =====
-- Dentries, journal records and snapshots, of crates/mist-replica/src/lib.rs.
use mist.Prelude.{
  ◌==◌, ℕ, ◌+◌, ◌%◌, ◌^◌, Bool, true, false, not, ◌&&◌, Option, none, some, List, [], ◌∷◌, ◌++◌,
  if◌then◌else◌,
}
use mist.Prelude.Map.{Map}
use mist.Proto.Types.{NodeKey, Kind, reg, dir, kind_eq, Attr, Name}
use mist.Proto.Keys.{key_eq}
use mist.Proto.Msg.{
  Rec, created, created_batch, removed, renamed, attr_changed, content, self_removed, overflow,
  echo_marker, SnapEntry, SnapDir,
}
use mist.Replica.Hashing.{Hashing}
use mist.Replica.Dir
use mist.Replica.Dir.{Dir, UpsertResult}
use mist.Replica.Node.{Node, ApplyOutcome, applied, need_resync, placeholder_attr, live, set_parent}
use mist.Replica.Node
use mist.Replica.Share.{
  State, Inode, ReplicaStats, shard_count, get_node, modify, entries_add, entries_sub, upsert_node,
  update_attr, update_content, stash_pending, drain_pending, mark_dir_complete, is_known, stats,
}
use mist.Replica.Links.{link_inc, link_dec, force_remove, sum_below}

module _ ⦃hashing : Hashing⦄ where
  -- The table of a directory, if the node is there and is one.
  abbrev pub table_of : Option Inode → Option Dir
  table_of none = none
  table_of (some n) = n.dir

  abbrev pub dir_at : State → NodeKey → Option Dir
  dir_at s key = table_of (get_node s key)

  abbrev pub put_dir : State → NodeKey → Dir → State
  put_dir s key d = modify s key λ n. record n { dir = some d }

  abbrev pub displace : State → Option NodeKey → State
  displace s none = s
  displace s (some old) = link_dec s old

  -- `dentry_set` and `dentry_relink` after the upsert.
  unfoldable pub settle_set : State → NodeKey → NodeKey → Dir × UpsertResult → State
  settle_set s p key (d, r) =
      let s₁ = entries_add (put_dir s p d) r.dentry_delta in
      let s₂ = if r.gained_link then link_inc s₁ key else s₁ in displace s₂ r.displaced

  unfoldable pub dentry_set : State → NodeKey → Name → NodeKey → Kind → State
  unfolding settle_set
  dentry_set s p name key kind = elim (dir_at s p) [
    | none ↦ s
    | some d ↦ settle_set s p key (Dir.upsert d name key kind)
  ]

  unfoldable pub settle_relink : State → NodeKey → NodeKey → Dir × UpsertResult → State
  settle_relink s p key (d, r) =
      let s₁ = entries_add (put_dir s p d) r.dentry_delta in
      let s₂ = displace s₁ r.displaced in modify s₂ key (λ n. set_parent n p)

  unfoldable pub dentry_relink : State → NodeKey → Name → NodeKey → Kind → State
  unfolding settle_relink
  dentry_relink s p name key kind = elim (dir_at s p) [
    | none ↦ s
    | some d ↦ settle_relink s p key (Dir.upsert d name key kind)
  ]

  unfoldable pub settle_remove : State → NodeKey → Dir × Option NodeKey → State
  settle_remove s p (d, none) = put_dir s p d
  settle_remove s p (d, some key) = link_dec (entries_sub (put_dir s p d) 1) key

  unfoldable pub dentry_remove : State → NodeKey → List ℕ → State
  unfolding settle_remove
  dentry_remove s p name = elim (dir_at s p) [
    | none ↦ s
    | some d ↦ settle_remove s p (Dir.remove d name)
  ]

  unfoldable pub settle_take :
      State → NodeKey → Kind → Dir × Option NodeKey → State × Option (NodeKey × Kind)
  settle_take s p kind (d, none) = (put_dir s p d, none)
  settle_take s p kind (d, some key) = (entries_sub (put_dir s p d) 1, some (key, kind))

  unfoldable pub take_from :
      State → NodeKey → List ℕ → Dir → Option (NodeKey × Kind) → State × Option (NodeKey × Kind)
  unfolding settle_take
  take_from s p name d none = (s, none)
  take_from s p name d (some (_, kind)) = settle_take s p kind (Dir.remove d name)

  unfoldable pub dentry_take : State → NodeKey → List ℕ → State × Option (NodeKey × Kind)
  unfolding take_from
  dentry_take s p name = elim (dir_at s p) [
    | none ↦ (s, none)
    | some d ↦ take_from s p name d (Dir.find d name)
  ]

  abbrev pub complete_if_dir : Kind → State → NodeKey → State
  complete_if_dir kind s key = if kind_eq kind dir then mark_dir_complete s key else s

  -- One entry of a created batch; also a created record that carries attributes.
  unfoldable pub create_node : State → NodeKey → Name → NodeKey → Attr → State
  create_node s p name key a =
      let s₁ = drain_pending (upsert_node s key a p) key in
      dentry_set (complete_if_dir a.kind s₁ key) p name key a.kind

  unfoldable pub create_batch : State → NodeKey → List SnapEntry → State
  unfolding create_node
  create_batch s p [] = s
  create_batch s p (e ∷ es) = create_batch (create_node s p e.name e.node e.attr) p es

  unfoldable pub relink : State × Option (NodeKey × Kind) → NodeKey → Name → State
  relink (s, none) p name = s
  relink (s, some (key, kind)) p name = dentry_relink s p name key kind

  abbrev pub stash_unless : Bool → State → NodeKey → Node.Pending → State
  stash_unless true s key p = s
  stash_unless false s key p = stash_pending s key p

  unfoldable pub apply_rec : State → Rec → State × ApplyOutcome
  unfolding create_node create_batch relink
  apply_rec s (created p name key (some a)) = (create_node s p name key a, applied)
  apply_rec s (created p name key none) =
      let s₁ =
        if is_known (get_node s key) then s else upsert_node s key (placeholder_attr reg) p in
      (dentry_set s₁ p name key reg, applied)
  apply_rec s (created_batch p entries) = (create_batch s p entries, applied)
  apply_rec s (removed p name) = (dentry_remove s p name.bytes, applied)
  apply_rec s (renamed from_p from_name to_p to_name) =
      (relink (dentry_take s from_p from_name.bytes) to_p to_name, applied)
  apply_rec s (attr_changed key a) =
      let (s', there) = update_attr s key a in (stash_unless there s' key (Node.attr a), applied)
  apply_rec s (content key version size mtime _) =
      let (s', there) = update_content s key version size mtime in
      (stash_unless there s' key (Node.content version size mtime), applied)
  apply_rec s (self_removed key) = (
    if is_known (get_node s key) && not (key_eq key s.root) then force_remove s key else s,
    applied,
  )
  apply_rec s overflow = (s, need_resync)
  apply_rec s (echo_marker _) = (s, applied)

  -- The second loop of `apply_snap_dir`.
  unfoldable pub snap_nodes : State → NodeKey → List SnapEntry → State
  snap_nodes s p [] = s
  snap_nodes s p (e ∷ es) = snap_nodes (upsert_node s e.node e.attr p) p es

  abbrev pub opt_list : Option NodeKey → List NodeKey
  opt_list none = []
  opt_list (some k) = k ∷ []

  -- The third loop, over the directory's table, the entry counter and the two lists of links.
  pub record Dentries (T : Type 0) : Type 0 where
    pub table : Dir.DirState T
    pub entries : ℕ
    pub to_link : List NodeKey
    pub to_unlink : List NodeKey

  unfoldable pub snap_dentries : Dentries hashing.Table → List SnapEntry → Dentries hashing.Table
  snap_dentries t [] = t
  snap_dentries t (e ∷ es) =
      let (d, r) = Dir.upsert t.table e.name e.node e.attr.kind in
      snap_dentries
        (record {
          table = d;
          entries = (t.entries + r.dentry_delta) % 2 ^ 64;
          to_link = t.to_link ++ (if r.gained_link then e.node ∷ [] else []);
          to_unlink = t.to_unlink ++ opt_list r.displaced;
        })
        es

  abbrev pub each : (State → NodeKey → State) → State → List NodeKey → State
  each f s [] = s
  each f s (k ∷ ks) = each f (f s k) ks

  unfoldable pub snap_links : State → NodeKey → Bool → Dentries hashing.Table → State
  snap_links s p last t =
      let d = t.table in
      let d' = record d { complete = if last then true else d.complete } in
      let s₁ = record (put_dir s p d') { entries = t.entries } in
      each link_dec (each link_inc s₁ t.to_link) t.to_unlink

  -- `none` where the `debug_assert_eq!` or an `expect` panics: the record is of another share, or the
  -- directory is not there, or has no table.
  unfoldable pub apply_snap_dir : State → SnapDir → Option State
  unfolding snap_nodes snap_dentries snap_links
  apply_snap_dir s d =
      let s₁ = snap_nodes (upsert_node s d.dir d.dir_attr d.parent) d.dir d.entries in
      let rest : Option State = elim (dir_at s₁ d.dir) [
        | none ↦ none
        | some table ↦ some (
            snap_links s₁ d.dir d.last (
              snap_dentries
                (record { table = table; entries = s₁.entries; to_link = []; to_unlink = [] })
                d.entries))
      ] in
      if d.share == s.id then rest else none

  abbrev live_entries : Map NodeKey Inode → ℕ
  live_entries [] = 0
  live_entries ((_, n) ∷ m) = elim n.dir [ none ↦ 0 | some d ↦ Dir.live_len d ] + live_entries m

  unfoldable pub finish_snapshot : State → State × ReplicaStats
  finish_snapshot s =
      let s' = record s {
        entries = sum_below shard_count (λ i. live_entries (s.shards i)) % 2 ^ 64;
        state = live;
      } in
      (s', stats s')
