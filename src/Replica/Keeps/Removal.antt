-- ===== src/Replica/Keeps/Removal.antt =====
-- The invariant of the directories under link counts and removals, of
-- crates/mist-replica/src/lib.rs.
use mist.Prelude.{
  ℕ, zero, suc, ◌-◌, List, [], ◌∷◌, ◌≡◌, refl, inl, inr, Bool-cases, Option-cases, arith,
}
use mist.Proto.Types.{NodeKey}
use mist.Replica.Hashing.{Hashing}
use mist.Replica.Dir.{CEnt, node}
use mist.Replica.Share.{State, Inode, get_node, del_node, entries_sub, drop_side}
use mist.Replica.Links.{
  stored, link_inc, unlink, link_dec_by, drop_children, forget, children, remove_at, remove_node_by,
  remove_node, link_dec, force_remove,
}
use mist.Replica.Keeps.{
  AllFit, shards-AllFit, node_at, put_node-AllFit, del_node-AllFit, modify-AllFit,
}

module _ ⦃hashing : Hashing⦄ (m : ℕ) where
  -- A removal that keeps the invariant.
  abbrev Keeps : (State → NodeKey → State) → Type 0
  Keeps rm = (s : State) (k : NodeKey) → AllFit m s → AllFit m (rm s k)

  pub link_inc-AllFit : (s : State) (k : NodeKey) → AllFit m s → AllFit m (link_inc s k)
  unfolding link_inc
  link_inc-AllFit s k h = modify-AllFit m s k _ (λ n g. g) h

  unlink-AllFit : (s : State) (k : NodeKey) → AllFit m s → AllFit m (unlink s k).0
  unfolding unlink
  unlink-AllFit s k h = elim (Option-cases (get_node s k)) [
    | inl e ↦ rw e h
    | inr (n, e) ↦
        rw e (put_node-AllFit m s k (record n { links = n.links - 1 }) h (node_at m s k n h e))
  ]

  link_dec_by-Keeps : (rm : State → NodeKey → State) → Keeps rm → Keeps (link_dec_by rm)
  unfolding link_dec_by
  link_dec_by-Keeps rm keeps s k h = elim (Bool-cases (unlink s k).1) [
    | inl t ↦ rw t (keeps (unlink s k).0 k (unlink-AllFit s k h))
    | inr f ↦ rw f (unlink-AllFit s k h)
  ]

  drop_children-AllFit :
      (rm : State → NodeKey → State)
      → Keeps rm
      → (s : State) (es : List CEnt) → AllFit m s
      → AllFit m (drop_children rm s es)
  unfolding drop_children
  drop_children-AllFit rm keeps s [] h = h
  drop_children-AllFit rm keeps s (e ∷ es) h =
      drop_children-AllFit rm keeps (link_dec_by rm (entries_sub s 1) (node e)) es (
        link_dec_by-Keeps rm keeps (entries_sub s 1) (node e)
          (shards-AllFit m s (entries_sub s 1) refl h))

  shards-forget : (s : State) (k : NodeKey) (n : Inode) → (forget s k n).shards ≡ s.shards
  unfolding forget drop_side
  shards-forget s k n = ground arith

  remove_node_by-Keeps : (fuel : ℕ) → Keeps (remove_node_by fuel)
  unfolding remove_node_by remove_at
  remove_node_by-Keeps zero s k h = h
  remove_node_by-Keeps (suc fuel) s k h = elim (Option-cases (get_node s k)) [
    | inl e ↦ rw e h
    | inr (n, e) ↦
        let gone = del_node-AllFit m s k h in
        rw (e, remove_at)
          (drop_children-AllFit (remove_node_by fuel) (remove_node_by-Keeps fuel)
            (forget (del_node s k) k n) (children n)
            (shards-AllFit m (del_node s k) _ (shards-forget (del_node s k) k n) gone))
  ]

  pub link_dec-AllFit : (s : State) (k : NodeKey) → AllFit m s → AllFit m (link_dec s k)
  unfolding link_dec
  link_dec-AllFit s k h = link_dec_by-Keeps _ (remove_node_by-Keeps (stored s)) s k h

  pub force_remove-AllFit : (s : State) (k : NodeKey) → AllFit m s → AllFit m (force_remove s k)
  unfolding force_remove remove_node
  force_remove-AllFit s k h =
      remove_node_by-Keeps _ _ k (modify-AllFit m s k (λ n. record n { links = 0 }) (λ n g. g) h)
