-- ===== src/Replica/Keeps/Records.antt =====
-- The invariant of the directories under journal records, `apply_rec` of
-- crates/mist-replica/src/lib.rs.
use mist.Prelude.{
  ℕ, suc, ◌+◌, ◌≤◌, Bool, true, false, not, ◌&&◌, none, some, List, [], ◌∷◌, length, inl, inr,
  Bool-cases, arith,
}
use mist.Proto.Validate.{All}
use mist.Proto.Types.{NodeKey, Kind, kind_eq, dir, reg, Attr, Name}
use mist.Proto.Keys.{key_eq}
use mist.Proto.Msg.{
  Rec, created, created_batch, removed, renamed, attr_changed, content, self_removed, overflow,
  echo_marker, SnapEntry,
}
use mist.Replica.Hashing.{Hashing}
use mist.Replica.Node
use mist.Replica.Share.{State, get_node, is_known, update_attr, update_content}
use mist.Replica.Apply.{
  dentry_take, complete_if_dir, create_node, create_batch, stash_unless, apply_rec,
}
use mist.Replica.Keeps.{AllFit, AllFit-weaken}
use mist.Replica.Keeps.Removal.{force_remove-AllFit}
use mist.Replica.Keeps.Nodes.{
  upsert_node-AllFit, update_attr-AllFit, update_content-AllFit, drain_pending-AllFit,
  stash_pending-AllFit, mark_dir_complete-AllFit,
}
use mist.Replica.Keeps.Dentries.{
  IsShort, dentry_set-AllFit, dentry_remove-AllFit, dentry_take-AllFit, relink-AllFit,
}

-- How many names a record adds, at most.
unfoldable pub added : Rec → ℕ
added (created _ _ _ _) = 1
added (created_batch _ entries) = length entries
added (renamed _ _ _ _) = 1
added _ = 0

-- The names that a record adds have at most 255 bytes.
unfoldable pub NamesAreShort : Rec → Type 0
NamesAreShort (created _ name _ _) = IsShort name
NamesAreShort (created_batch _ entries) = All (λ e. IsShort e.name) entries
NamesAreShort (renamed _ _ _ name) = IsShort name
NamesAreShort _ = Unit

module _ ⦃hashing : Hashing⦄ where
  complete_if_dir-AllFit :
      (m : ℕ) (kind : Kind) (s : State) (k : NodeKey)
      → AllFit m s
      → AllFit m (complete_if_dir kind s k)
  complete_if_dir-AllFit m kind s k h = elim (Bool-cases (kind_eq kind dir)) [
    | inl t ↦ rw t (mark_dir_complete-AllFit m s k h)
    | inr f ↦ rw f h
  ]

  create_node-AllFit :
      (m : ℕ) (s : State) (p : NodeKey) (name : Name) (k : NodeKey) (a : Attr)
      → suc m ≤ 16777216
      → IsShort name
      → AllFit (suc m) s
      → AllFit m (create_node s p name k a)
  unfolding create_node
  create_node-AllFit m s p name k a small short h = dentry_set-AllFit m _ p name k a.kind short (
      complete_if_dir-AllFit (suc m) a.kind _ k
        (drain_pending-AllFit (suc m) _ k (upsert_node-AllFit (suc m) s k a p small h)))

  create_batch-AllFit :
      (m : ℕ) (s : State) (p : NodeKey) (es : List SnapEntry)
      → length es + m ≤ 16777216
      → All (λ e. IsShort e.name) es
      → AllFit (length es + m) s
      → AllFit m (create_batch s p es)
  unfolding create_batch
  create_batch-AllFit m s p [] small short h = AllFit-weaken m (0 + m) s (omega arith) h
  create_batch-AllFit m s p (e ∷ es) small short h =
      create_batch-AllFit m (create_node s p e.name e.node e.attr) p es (omega arith) short.1 (
        create_node-AllFit (length es + m) s p e.name e.node e.attr (omega arith) short.0
          (AllFit-weaken (suc (length es + m)) (suc (length es) + m) s (omega arith) h))

  stash_unless-AllFit :
      (m : ℕ) (b : Bool) (s : State) (k : NodeKey) (p : Node.Pending)
      → AllFit m s
      → AllFit m (stash_unless b s k p)
  stash_unless-AllFit m true s k p h = h
  stash_unless-AllFit m false s k p h = stash_pending-AllFit m s k p h

  -- In a replica all of whose directories are well formed and have room for the names that a record
  -- adds and for `m` more, `apply_rec` leaves all directories well formed and with room for `m` more
  -- names, whatever the record is, renames, displaced nodes and removed subtrees included. The names
  -- that the record adds must have at most 255 bytes, and together with `m` be at most 2^24.
  pub apply_rec-AllFit :
      (m : ℕ) (s : State) (r : Rec)
      → added r + m ≤ 16777216
      → NamesAreShort r
      → AllFit (added r + m) s
      → AllFit m (apply_rec s r).0
  unfolding apply_rec added NamesAreShort
  apply_rec-AllFit m s (created p name k (some a)) small short h =
      create_node-AllFit m s p name k a (omega arith) short
        (AllFit-weaken (suc m) (1 + m) s (omega arith) h)
  apply_rec-AllFit m s (created p name k none) small short h =
      let h' = AllFit-weaken (suc m) (1 + m) s (omega arith) h in
      elim (Bool-cases (is_known (get_node s k))) [
        | inl t ↦ rw t (dentry_set-AllFit m s p name k reg short h')
        | inr f ↦ rw f (
            dentry_set-AllFit m _ p name k reg short
              (upsert_node-AllFit (suc m) s k (Node.placeholder_attr reg) p (omega arith) h'))
      ]
  apply_rec-AllFit m s (created_batch p es) small short h =
      create_batch-AllFit m s p es small short h
  apply_rec-AllFit m s (removed p name) small short h =
      dentry_remove-AllFit m s p name.bytes (AllFit-weaken m (0 + m) s (omega arith) h)
  apply_rec-AllFit m s (renamed p from q to) small short h =
      let x = dentry_take s p from.bytes in
      relink-AllFit m x.0 x.1 q to short (
        dentry_take-AllFit (suc m) s p from.bytes (AllFit-weaken (suc m) (1 + m) s (omega arith) h))
  apply_rec-AllFit m s (attr_changed k a) small short h =
      stash_unless-AllFit m (update_attr s k a).1 (update_attr s k a).0 k (Node.attr a)
        (update_attr-AllFit m s k a (AllFit-weaken m (0 + m) s (omega arith) h))
  apply_rec-AllFit m s (content k v size mtime o) small short h =
      let x = update_content s k v size mtime in
      stash_unless-AllFit m x.1 x.0 k (Node.content v size mtime)
        (update_content-AllFit m s k v size mtime (AllFit-weaken m (0 + m) s (omega arith) h))
  apply_rec-AllFit m s (self_removed k) small short h =
      let h' = AllFit-weaken m (0 + m) s (omega arith) h in
      elim (Bool-cases (is_known (get_node s k) && not (key_eq k s.root))) [
        | inl t ↦ rw t (force_remove-AllFit m s k h')
        | inr f ↦ rw f h'
      ]
  apply_rec-AllFit m s overflow small short h = AllFit-weaken m (0 + m) s (omega arith) h
  apply_rec-AllFit m s (echo_marker _) small short h = AllFit-weaken m (0 + m) s (omega arith) h
