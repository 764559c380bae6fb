-- ===== src/Replica/Keeps/Snapshot.antt =====
-- The invariant of the directories under snapshots, `apply_snap_dir` of
-- crates/mist-replica/src/lib.rs, and its two `expect` calls.
use mist.Prelude.{
  ℕ, suc, ◌+◌, ◌%◌, ◌^◌, ◌≤◌, Bool, true, some, List, [], ◌∷◌, ◌++◌, length, ◌≡◌, refl, sym, ap,
  ◌∙◌, inl, inr, Bool-cases, Option-cases, arith, if◌then◌else◌, ==_refl,
}
use mist.Proto.Validate.{All}
use mist.Proto.Types.{NodeKey, kind_eq, dir, Attr}
use mist.Proto.Keys.{key_eq, key_eq_iff}
use mist.Proto.Msg.{SnapEntry, SnapDir}
use mist.Replica.Hashing.{Hashing}
use mist.Replica.Dir
use mist.Replica.Dir.{Dir}
use mist.Replica.Dir.Grow.{Fits, Fits-weaken, upsert-Fits, complete-Fits}
use mist.Replica.Share.{
  State, Inode, get_node, put_node, note_side, fresh_node, known_node, upsert_node_at, upsert_node,
}
use mist.Replica.Share.Shards.{get_node-put_node}
use mist.Replica.Links.{link_inc, link_dec}
use mist.Replica.Apply.{
  table_of, dir_at, put_dir, opt_list, Dentries, snap_nodes, snap_dentries, snap_links, each,
  apply_snap_dir,
}
use mist.Replica.Keeps.{AllFit, AllFit-weaken, shards-AllFit}
use mist.Replica.Keeps.Removal.{link_inc-AllFit, link_dec-AllFit}
use mist.Replica.Keeps.Nodes.{upsert_node-AllFit, shards-note_side, dir_at-Fits, put_dir-AllFit}
use mist.Replica.Keeps.Dentries.{IsShort}

module _ ⦃hashing : Hashing⦄ where
  -- The node is there and has a table.
  abbrev HasDir : State → NodeKey → Type 0
  HasDir s k = (d : Dir) × (dir_at s k ≡ some d)

  shards-dir_at : (s s' : State) (k : NodeKey) → s'.shards ≡ s.shards → dir_at s' k ≡ dir_at s k
  unfolding get_node
  shards-dir_at s s' k e = cc e

  dir_at-put_node :
      (s : State) (k j : NodeKey) (n : Inode)
      → dir_at (put_node s k n) j ≡ (if key_eq k j then n.dir else dir_at s j)
  dir_at-put_node s k j n = elim (Bool-cases (key_eq k j)) [
    | inl t ↦ rw (get_node-put_node s k j n, t) refl
    | inr f ↦ rw (get_node-put_node s k j n, f) refl
  ]

  known_dir :
      (n : Inode) (a : Attr) (p : NodeKey) (side : Bool) (d : Dir)
      → n.dir ≡ some d
      → (known_node n a p side).dir ≡ some d
  unfolding known_node
  known_dir n a p side d e = rw e refl

  -- A node that gets a directory's attributes has a table.
  gets_dir :
      (s : State) (k : NodeKey) (a : Attr) (p : NodeKey) (side : Bool)
      → kind_eq a.kind dir ≡ true
      → HasDir (upsert_node_at s k a p side (get_node s k)) k
  unfolding upsert_node_at get_node
  gets_dir s k a p side is_dir =
      let same = (key_eq_iff k k).1 refl in
      elim (Option-cases (get_node s k)) [
        | inl e ↦
            let n = fresh_node a p side in
            let made : n.dir ≡ some Dir.new = unfold fresh_node in rw is_dir refl in
            rw e (Dir.new, dir_at-put_node s k k n ∙ rw same made)
        | inr (n, e) ↦
            let n' = known_node n a p side in
            elim (Option-cases n.dir) [
              | inl q ↦
                  let made : n'.dir ≡ some Dir.new = unfold known_node in rw (q, is_dir) refl in
                  rw e (Dir.new, dir_at-put_node s k k n' ∙ rw same made)
              | inr (d, q) ↦ rw e (d, dir_at-put_node s k k n' ∙ rw same (known_dir n a p side d q))
            ]
      ]

  -- A table that a node has is not lost.
  keeps_dir :
      (s : State) (k j : NodeKey) (a : Attr) (p : NodeKey) (side : Bool)
      → HasDir s j
      → HasDir (upsert_node_at s k a p side (get_node s k)) j
  unfolding upsert_node_at get_node
  keeps_dir s k j a p side (d, has) = elim (Option-cases (get_node s k)) [
    | inl e ↦
        let n = fresh_node a p side in
        elim (Bool-cases (key_eq k j)) [
          | inl t ↦
              let same : k ≡ j = (key_eq_iff k j).0 t in absurd (ground (arith, rw same at e, has))
          | inr f ↦ rw e (d, dir_at-put_node s k j n ∙ rw f has)
        ]
    | inr (n, e) ↦
        let n' = known_node n a p side in
        elim (Bool-cases (key_eq k j)) [
          | inl t ↦
              let same : k ≡ j = (key_eq_iff k j).0 t in
              let table : n.dir ≡ some d = sym (ap table_of (rw same at e)) ∙ has in
              rw e (d, dir_at-put_node s k j n' ∙ rw t (known_dir n a p side d table))
          | inr f ↦ rw e (d, dir_at-put_node s k j n' ∙ rw f has)
        ]
  ]

  upsert_node-gets :
      (s : State) (k : NodeKey) (a : Attr) (p : NodeKey)
      → a.kind ≡ dir
      → HasDir (upsert_node s k a p) k
  unfolding upsert_node
  upsert_node-gets s k a p is_dir =
      gets_dir (note_side s k a).0 k a p (note_side s k a).1 (ground arith)

  upsert_node-keeps :
      (s : State) (k j : NodeKey) (a : Attr) (p : NodeKey)
      → HasDir s j
      → HasDir (upsert_node s k a p) j
  unfolding upsert_node
  upsert_node-keeps s k j a p (d, has) =
      keeps_dir (note_side s k a).0 k j a p (note_side s k a).1
        (d, shards-dir_at s (note_side s k a).0 j (shards-note_side 0 s k a) ∙ has)

  snap_nodes-keeps :
      (s : State) (p j : NodeKey) (es : List SnapEntry) → HasDir s j → HasDir (snap_nodes s p es) j
  unfolding snap_nodes
  snap_nodes-keeps s p j [] has = has
  snap_nodes-keeps s p j (e ∷ es) has =
      snap_nodes-keeps (upsert_node s e.node e.attr p) p j es
        (upsert_node-keeps s e.node j e.attr p has)

  snap_nodes-AllFit :
      (m : ℕ) (s : State) (p : NodeKey) (es : List SnapEntry)
      → m ≤ 16777216
      → AllFit m s
      → AllFit m (snap_nodes s p es)
  unfolding snap_nodes
  snap_nodes-AllFit m s p [] small h = h
  snap_nodes-AllFit m s p (e ∷ es) small h =
      snap_nodes-AllFit m (upsert_node s e.node e.attr p) p es small
        (upsert_node-AllFit m s e.node e.attr p small h)

  snap_dentries-Fits :
      (m : ℕ) (t : Dentries hashing.Table) (es : List SnapEntry)
      → All (λ e. IsShort e.name) es
      → Fits (length es + m) t.table
      → Fits m (snap_dentries t es).table
  unfolding snap_dentries
  snap_dentries-Fits m t [] short f = Fits-weaken m (0 + m) t.table (omega arith) f
  snap_dentries-Fits m t (e ∷ es) short f =
      let x = Dir.upsert t.table e.name e.node e.attr.kind in
      snap_dentries-Fits m
        (record {
          table = x.0;
          entries = (t.entries + x.1.dentry_delta) % 2 ^ 64;
          to_link = t.to_link ++ (if x.1.gained_link then e.node ∷ [] else []);
          to_unlink = t.to_unlink ++ opt_list x.1.displaced;
        })
        es short.1
        (upsert-Fits (length es + m) t.table e.name e.node e.attr.kind short.0
          (Fits-weaken (suc (length es + m)) (suc (length es) + m) t.table (omega arith) f))

  each-AllFit :
      (m : ℕ) (f : State → NodeKey → State)
      → ((s : State) (k : NodeKey) → AllFit m s → AllFit m (f s k))
      → (s : State) (ks : List NodeKey) → AllFit m s
      → AllFit m (each f s ks)
  each-AllFit m f keeps s [] h = h
  each-AllFit m f keeps s (k ∷ ks) h = each-AllFit m f keeps (f s k) ks (keeps s k h)

  snap_links-AllFit :
      (m : ℕ) (s : State) (p : NodeKey) (last : Bool) (t : Dentries hashing.Table)
      → AllFit m s
      → Fits m t.table
      → AllFit m (snap_links s p last t)
  unfolding snap_links
  snap_links-AllFit m s p last t h f =
      let d = t.table in
      let d' : Dir = record d { complete = if last then true else d.complete } in
      let table =
        put_dir-AllFit m s p d' h (complete-Fits m d (if last then true else d.complete) f) in
      each-AllFit m link_dec (link_dec-AllFit m) _ t.to_unlink (
        each-AllFit m link_inc (link_inc-AllFit m) _ t.to_link
          (shards-AllFit m (put_dir s p d') _ refl table))

  -- Applying a snapshot record of this share, of a directory whose own attributes are a
  -- directory's, which validation sees to, passes the debug assertion on the share and both
  -- `expect` calls: the node and its table are there when the entries are added. All directories
  -- stay well formed, displaced nodes and removed subtrees included, if they had room for the
  -- entries and for `m` more names; `m` names of room are left. The entries' names must have at
  -- most 255 bytes, and their number and `m` together be at most 2^24.
  pub apply_snap_dir-AllFit :
      (m : ℕ) (s : State) (d : SnapDir)
      → length d.entries + m ≤ 16777216
      → d.share ≡ s.id
      → d.dir_attr.kind ≡ dir
      → All (λ e. IsShort e.name) d.entries
      → AllFit (length d.entries + m) s
      → (s' : State) × (apply_snap_dir s d ≡ some s') × AllFit m s'
  unfolding apply_snap_dir
  apply_snap_dir-AllFit m s d small ours is_dir short h =
      let n = length d.entries + m in
      let s₁ = snap_nodes (upsert_node s d.dir d.dir_attr d.parent) d.dir d.entries in
      let (table, there) =
        snap_nodes-keeps (upsert_node s d.dir d.dir_attr d.parent) d.dir d.dir d.entries
          (upsert_node-gets s d.dir d.dir_attr d.parent is_dir) in
      let fits : AllFit n s₁ =
        snap_nodes-AllFit n _ d.dir d.entries small
          (upsert_node-AllFit n s d.dir d.dir_attr d.parent small h) in
      let t : Dentries hashing.Table = record {
        table = table;
        entries = s₁.entries;
        to_link = [];
        to_unlink = [];
      } in
      (
        snap_links s₁ d.dir d.last (snap_dentries t d.entries),
        rw (there, apply_snap_dir) (rw ours (rw (==_refl s.id) refl)),
        snap_links-AllFit m s₁ d.dir d.last (snap_dentries t d.entries)
            (AllFit-weaken m n s₁ (omega arith) fits)
            (snap_dentries-Fits m t d.entries short (dir_at-Fits n s₁ d.dir table fits there)),
      )
