-- ===== src/Replica/Keeps/Nodes.antt =====
-- The invariant of the directories under what crates/mist-replica/src/lib.rs does to one node.
use mist.Prelude.{
  ℕ, ◌≤◌, Bool, true, false, none, some, List, [], ◌∷◌, ◌≡◌, refl, ap, ◌∙◌, inl, inr, Option-cases,
  arith, if◌then◌else◌,
}
use mist.Prelude.Map
use mist.Proto.Types.{NodeKey, Ts, dir, kind_eq, Attr}
use mist.Proto.Keys.{node_key}
use mist.Replica.Hashing.{Hashing}
use mist.Replica.Dir
use mist.Replica.Dir.{Dir}
use mist.Replica.Dir.Grow.{Fits, new-Fits, complete-Fits}
use mist.Replica.Node.{Pending, attr, content}
use mist.Replica.Share.{
  State, Inode, get_node, put_node, note_target, note_side, fresh_node, known_node, upsert_node_at,
  upsert_node, update_attr, update_content, stash_pending, replay, drain_pending, mark_dir_complete,
}
use mist.Replica.Apply.{table_of, dir_at, put_dir}
use mist.Replica.Keeps.{AllFit, NodeFits, shards-AllFit, node_at, put_node-AllFit, modify-AllFit}

module _ ⦃hashing : Hashing⦄ (m : ℕ) where
  pub shards-note_side :
      (s : State) (k : NodeKey) (a : Attr) → (note_side s k a).0.shards ≡ s.shards
  unfolding note_side note_target
  shards-note_side s k a = elim (Option-cases a.symlink_target) [
    | inl e ↦ ground (arith, e)
    | inr (t, e) ↦ ground (arith, e)
  ]

  note_side-AllFit :
      (s : State) (k : NodeKey) (a : Attr) → AllFit m s → AllFit m (note_side s k a).0
  note_side-AllFit s k a h = shards-AllFit m s (note_side s k a).0 (shards-note_side s k a) h

  new_table :
      (b : Bool) (d : Dir) → m ≤ 16777216 → (if b then some Dir.new else none) ≡ some d → Fits m d
  new_table true d small e = let same : Dir.new ≡ d = ground arith in rw (← same) (new-Fits m small)
  new_table false d small e = ground arith

  known_node-NodeFits :
      (n : Inode) (a : Attr) (p : NodeKey) (side : Bool)
      → m ≤ 16777216
      → NodeFits m n
      → NodeFits m (known_node n a p side)
  unfolding known_node
  known_node-NodeFits n a p side small h d e = elim (Option-cases n.dir) [
    | inl none_yet ↦ new_table (kind_eq a.kind dir) d small (rw none_yet at e)
    | inr (d', known) ↦ let e' : some d' ≡ some d = rw known at e in h d (known ∙ e')
  ]

  upsert_node_at-AllFit :
      (s : State) (k : NodeKey) (a : Attr) (p : NodeKey) (side : Bool)
      → m ≤ 16777216
      → AllFit m s
      → AllFit m (upsert_node_at s k a p side (get_node s k))
  unfolding upsert_node_at
  upsert_node_at-AllFit s k a p side small h = elim (Option-cases (get_node s k)) [
    | inl e ↦
        let fits : NodeFits m (fresh_node a p side) =
          unfold fresh_node in λ d q. new_table (kind_eq a.kind dir) d small q in
        rw e (
          shards-AllFit m (put_node s k (fresh_node a p side)) _ refl
            (put_node-AllFit m s k _ h fits))
    | inr (n, e) ↦
        let fits = known_node-NodeFits n a p side small (node_at m s k n h e) in
        rw e (
          shards-AllFit m (put_node s k (known_node n a p side)) _ refl
            (put_node-AllFit m s k _ h fits))
  ]

  pub upsert_node-AllFit :
      (s : State) (k : NodeKey) (a : Attr) (p : NodeKey)
      → m ≤ 16777216
      → AllFit m s
      → AllFit m (upsert_node s k a p)
  unfolding upsert_node
  upsert_node-AllFit s k a p small h =
      upsert_node_at-AllFit (note_side s k a).0 k a p (note_side s k a).1 small
        (note_side-AllFit s k a h)

  pub update_attr-AllFit :
      (s : State) (k : NodeKey) (a : Attr) → AllFit m s → AllFit m (update_attr s k a).0
  unfolding update_attr
  update_attr-AllFit s k a h =
      modify-AllFit m (note_side s k a).0 k _ (λ n g. g) (note_side-AllFit s k a h)

  pub update_content-AllFit :
      (s : State) (k : NodeKey) (version size : ℕ) (mtime : Ts)
      → AllFit m s
      → AllFit m (update_content s k version size mtime).0
  unfolding update_content
  update_content-AllFit s k version size mtime h = modify-AllFit m s k _ (λ n g. g) h

  replay-AllFit :
      (s : State) (k : NodeKey) (items : List Pending) → AllFit m s → AllFit m (replay s k items)
  unfolding replay
  replay-AllFit s k [] h = h
  replay-AllFit s k (attr a ∷ items) h =
      replay-AllFit (update_attr s k a).0 k items (update_attr-AllFit s k a h)
  replay-AllFit s k (content v size mtime ∷ items) h =
      replay-AllFit (update_content s k v size mtime).0 k items
        (update_content-AllFit s k v size mtime h)

  pub drain_pending-AllFit : (s : State) (k : NodeKey) → AllFit m s → AllFit m (drain_pending s k)
  unfolding drain_pending
  drain_pending-AllFit s k h = elim (Option-cases (Map.lookup k s.pending)) [
    | inl e ↦ rw (e, drain_pending) h
    | inr (items, e) ↦ rw (e, drain_pending) (replay-AllFit _ k items (shards-AllFit m s _ refl h))
  ]

  pub stash_pending-AllFit :
      (s : State) (k : NodeKey) (p : Pending) → AllFit m s → AllFit m (stash_pending s k p)
  unfolding stash_pending
  stash_pending-AllFit s k p h = shards-AllFit m s _ refl h

  completed-NodeFits :
      (n : Inode)
      → NodeFits m n
      → NodeFits m (record n {
        dir = elim n.dir [ none ↦ none | some d ↦ some (record d { complete = true }) ];
      })
  completed-NodeFits n h d e = elim (Option-cases n.dir) [
    | inl p ↦ absurd (ground (arith, e, p))
    | inr (d', p) ↦
        let e' : some (record d' { complete = true }) ≡ some d = rw p at e in
        let same : record d' { complete = true } ≡ d = ground arith in
        rw (← same) (complete-Fits m d' true (h d' p))
  ]

  pub mark_dir_complete-AllFit :
      (s : State) (k : NodeKey) → AllFit m s → AllFit m (mark_dir_complete s k)
  unfolding mark_dir_complete
  mark_dir_complete-AllFit s k h = modify-AllFit m s k _ completed-NodeFits h

  pub dir_at-Fits :
      (s : State) (k : NodeKey) (d : Dir) → AllFit m s → dir_at s k ≡ some d → Fits m d
  dir_at-Fits s k d h e = elim (Option-cases (get_node s k)) [
    | inl p ↦ absurd (ground (arith, ap table_of p))
    | inr (n, p) ↦ node_at m s k n h p d (ground (arith, ap table_of p))
  ]

  pub put_dir-AllFit :
      (s : State) (k : NodeKey) (d : Dir) → AllFit m s → Fits m d → AllFit m (put_dir s k d)
  put_dir-AllFit s k d h f =
      modify-AllFit m s k _ (λ n g d' e. let same : d ≡ d' = ground arith in rw (← same) f) h
