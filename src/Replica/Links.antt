-- ===== src/Replica/Links.antt =====
-- Link counts and the removal of nodes, of crates/mist-replica/src/lib.rs. `link_dec` and
-- `remove_node` call one another; each removal takes a node out of the shards, so the fuel that
-- the callers give is the number of stored nodes.
pub mod Fuel
use mist.Prelude.{
  ℕ, zero, suc, ◌+◌, ◌-◌, ◌%◌, ◌^◌, Bool, true, false, not, ◌&&◌, Option, none, some, List, [], ◌∷◌,
  length, ◌==◌, if◌then◌else◌,
}
use mist.Proto.Types.{NodeKey}
use mist.Proto.Keys.{key_eq}
use mist.Replica.Hashing.{Hashing}
use mist.Replica.Dir
use mist.Replica.Dir.{CEnt, Dir, node}
use mist.Replica.Share.{
  State, Inode, shard_count, get_node, put_node, del_node, modify, drop_side, fetch_sub,
  entries_sub,
}

abbrev pub sum_below : ℕ → (ℕ → ℕ) → ℕ
sum_below zero f = 0
sum_below (suc n) f = f n + sum_below n f

module _ ⦃hashing : Hashing⦄ where
  -- How many nodes the shards hold.
  unfoldable pub stored : State → ℕ
  stored s = sum_below shard_count (λ i. length (s.shards i))

  unfoldable pub link_inc : State → NodeKey → State
  link_inc s key = modify s key λ n. record n { links = (n.links + 1) % 2 ^ 32 }

  -- The first half of `link_dec`: the new count, and whether the node goes.
  unfoldable pub unlink_at : State → NodeKey → Option Inode → State × Bool
  unlink_at s key none = (s, false)
  unlink_at s key (some n) =
      let links = n.links - 1 in
      (put_node s key (record n { links = links }), links == 0 && not (key_eq key s.root))

  unfoldable pub unlink : State → NodeKey → State × Bool
  unfolding unlink_at
  unlink s key = unlink_at s key (get_node s key)

  -- `link_dec` over a removal.
  unfoldable pub link_dec_by : (State → NodeKey → State) → State → NodeKey → State
  link_dec_by remove s key = let (s', gc) = unlink s key in if gc then remove s' key else s'

  -- Each child loses the dentry that the directory held.
  unfoldable pub drop_children : (State → NodeKey → State) → State → List CEnt → State
  drop_children remove s [] = s
  drop_children remove s (e ∷ es) =
      drop_children remove (link_dec_by remove (entries_sub s 1) (node e)) es

  -- What `remove_node` does once the node is out of its shard, up to the children.
  unfoldable pub forget : State → NodeKey → Inode → State
  forget s key n =
      let s' = record s { nodes = fetch_sub s.nodes 1 } in
      let s'' = if n.has_side then drop_side s' key else s' in
      elim n.dir [ none ↦ s'' | some _ ↦ record s'' { dirs = fetch_sub s''.dirs 1 } ]

  abbrev pub children : Inode → List CEnt
  children n = elim n.dir [ none ↦ [] | some d ↦ Dir.live d ]

  unfoldable pub remove_at : (State → NodeKey → State) → State → NodeKey → Option Inode → State
  remove_at remove s key none = s
  remove_at remove s key (some n) =
      drop_children remove (forget (del_node s key) key n) (children n)

  -- The recursion waits: it is made for the children only.
  unfoldable pub remove_node_by : ℕ → State → NodeKey → State
  unfolding remove_at
  remove_node_by zero s key = s
  remove_node_by (suc fuel) s key = remove_at (remove_node_by fuel) s key (get_node s key)

  unfoldable pub remove_node : State → NodeKey → State
  unfolding stored
  remove_node s key = remove_node_by (stored s) s key

  unfoldable pub link_dec : State → NodeKey → State
  unfolding stored
  link_dec s key = link_dec_by (remove_node_by (stored s)) s key

  unfoldable pub force_remove : State → NodeKey → State
  force_remove s key = remove_node (modify s key λ n. record n { links = 0 }) key
