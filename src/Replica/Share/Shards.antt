-- ===== src/Replica/Share/Shards.antt =====
-- The 64 shards of crates/mist-replica/src/lib.rs under a write and a removal.
use mist.Prelude.{
  true, none, some, [], ltb, ap, ◌==◌, ◌≡◌, arith, inl, inr, Bool-cases, ==_refl, ==_iff,
  if◌then◌else◌,
}
use mist.Prelude.Map.{lookup, lookup-insert, lookup-remove}
use mist.Proto.Types.{NodeKey}
use mist.Proto.Keys.{key_eq, key_eq_iff, node_key}
use mist.Replica.Hashing.{Hashing}
use mist.Replica.Share.{State, Inode, shard_count, shard_of, get_node, put_node, del_node}

module _ ⦃hashing : Hashing⦄ where
  shard_congr : (k j : NodeKey) → key_eq k j ≡ true → (shard_of k == shard_of j) ≡ true
  shard_congr k j h = rw ((key_eq_iff k j).0 h) (==_refl (shard_of j))

  -- The index of a key is in range.
  pub get_node_lem : (s : State) (k : NodeKey) → get_node s k ≡ lookup k (s.shards (shard_of k))
  unfolding get_node
  get_node_lem s k =
      let in_range : ltb (shard_of k) shard_count ≡ true = ground arith in
      ap (λ b. lookup k (if b then s.shards (shard_of k) else [])) in_range

  -- After a node is put under a key, a lookup of that key gives it, and a lookup of any other key,
  -- in the same shard or in another, gives what it gave before.
  pub get_node-put_node :
      (s : State) (k j : NodeKey) (n : Inode)
      → get_node (put_node s k n) j ≡ (if key_eq k j then some n else get_node s j)
  unfolding put_node
  get_node-put_node s k j n =
      rw (get_node_lem (put_node s k n) j, get_node_lem s j)
        (elim (Bool-cases (shard_of k == shard_of j)) [
          | inl t ↦
              let e : shard_of k ≡ shard_of j = (==_iff (shard_of k) (shard_of j)).0 t in
              rw t (rw e (lookup-insert k j n (s.shards (shard_of j))))
          | inr f ↦ ground (arith, f, shard_congr k j)
        ])

  -- After a key is removed, a lookup of it gives nothing, and a lookup of any other key, in the same
  -- shard or in another, gives what it gave before.
  pub get_node-del_node :
      (s : State) (k j : NodeKey)
      → get_node (del_node s k) j ≡ (if key_eq k j then none else get_node s j)
  unfolding del_node
  get_node-del_node s k j =
      rw (get_node_lem (del_node s k) j, get_node_lem s j)
        (elim (Bool-cases (shard_of k == shard_of j)) [
          | inl t ↦
              let e : shard_of k ≡ shard_of j = (==_iff (shard_of k) (shard_of j)).0 t in
              rw t (rw e (lookup-remove k j (s.shards (shard_of j))))
          | inr f ↦ ground (arith, f, shard_congr k j)
        ])
