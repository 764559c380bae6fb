-- ===== src/Replica/Keeps.antt =====
-- The invariant of the replica of crates/mist-replica/src/lib.rs: each directory that it holds is well
-- formed and has room for further names. This file: writes to the shards and changes of one node.
pub mod Removal
pub mod Nodes
pub mod Dentries
pub mod Records
pub mod Snapshot
use mist.Prelude.{
  ℕ, ◌≤◌, Bool, true, false, Option, none, some, ◌≡◌, refl, sym, ap, ◌∙◌, arith, inl, inr,
  Bool-cases, Option-cases,
}
use mist.Proto.Types.{NodeKey}
use mist.Prelude.Map
use mist.Proto.Keys.{key_eq, node_key}
use mist.Replica.Hashing.{Hashing}
use mist.Replica.Dir.{Dir}
use mist.Replica.Dir.Grow.{Fits, Fits-weaken}
use mist.Replica.Share
use mist.Replica.Share.{State, Inode, shard_of, shard_at, get_node, put_node, del_node, modify}
use mist.Replica.Share.Shards.{get_node-put_node, get_node-del_node}

module _ ⦃hashing : Hashing⦄ where
  -- A directory's table is well formed and has room for `m` names; a node that is none has no table.
  abbrev pub NodeFits : ℕ → Inode → Type 0
  NodeFits m n = (d : Dir) → n.dir ≡ some d → Fits m d

  -- All directories of the replica fit.
  pub AllFit : ℕ → State → Type 0
  AllFit m s = (k : NodeKey) (n : Inode) → get_node s k ≡ some n → NodeFits m n

  pub shards-AllFit : (m : ℕ) (s s' : State) → s'.shards ≡ s.shards → AllFit m s → AllFit m s'
  unfolding AllFit get_node
  shards-AllFit m s s' e h k n p =
      h k n
        (ap (λ (t : ℕ → Map.Map NodeKey Inode). Map.lookup k (shard_at t (shard_of k))) (sym e) ∙ p)

  pub AllFit-weaken : (m m' : ℕ) (s : State) → m ≤ m' → AllFit m' s → AllFit m s
  unfolding AllFit
  AllFit-weaken m m' s le h k n e d p = Fits-weaken m m' d le (h k n e d p)

  pub new-AllFit : (m id : ℕ) (root : NodeKey) → AllFit m (Share.new id root)
  unfolding AllFit get_node Share.new Map.lookup
  new-AllFit m id root k n e = ground arith

  pub node_at :
      (m : ℕ) (s : State) (k : NodeKey) (n : Inode)
      → AllFit m s
      → get_node s k ≡ some n
      → NodeFits m n
  unfolding AllFit
  node_at m s k n h e = h k n e

  pub put_node-AllFit :
      (m : ℕ) (s : State) (k : NodeKey) (n : Inode)
      → AllFit m s
      → NodeFits m n
      → AllFit m (put_node s k n)
  unfolding AllFit
  put_node-AllFit m s k n h g j x e = elim (Bool-cases (key_eq k j)) [
    | inl t ↦
        let same : n ≡ x = ground (arith, get_node-put_node s k j n) in
        λ d p. g d (ap (λ (y : Inode). y.dir) same ∙ p)
    | inr f ↦ h j x (ground (arith, get_node-put_node s k j n))
  ]

  pub del_node-AllFit : (m : ℕ) (s : State) (k : NodeKey) → AllFit m s → AllFit m (del_node s k)
  unfolding AllFit
  del_node-AllFit m s k h j x e = elim (Bool-cases (key_eq k j)) [
    | inl t ↦ absurd (ground (arith, get_node-del_node s k j))
    | inr f ↦ h j x (ground (arith, get_node-del_node s k j))
  ]

  pub modify-AllFit :
      (m : ℕ) (s : State) (k : NodeKey) (f : Inode → Inode)
      → ((n : Inode) → NodeFits m n → NodeFits m (f n))
      → AllFit m s
      → AllFit m (modify s k f)
  modify-AllFit m s k f keeps h = elim (Option-cases (get_node s k)) [
    | inl e ↦ rw e h
    | inr (n, e) ↦ rw e (put_node-AllFit m s k (f n) h (keeps n (node_at m s k n h e)))
  ]
