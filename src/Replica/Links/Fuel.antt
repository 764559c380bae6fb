-- ===== src/Replica/Links/Fuel.antt =====
-- The fuel of the removal of a node and its orphaned subtree, of crates/mist-replica/src/lib.rs,
-- and the number of stored nodes.
use mist.Prelude.{
  ℕ, zero, suc, ◌+◌, ◌-◌, ◌≤◌, ◌<◌, none, some, List, [], ◌∷◌, length, ◌==◌, ◌≡◌, refl, sym, ap,
  ◌∙◌, arith, inl, inr, Bool-cases, Option-cases,
}
use mist.Prelude.Map.{Map, lookup, insert, remove}
use mist.Proto.Types.{NodeKey}
use mist.Proto.Keys.{node_key}
use mist.Replica.Hashing.{Hashing}
use mist.Replica.Dir.{CEnt, node}
use mist.Replica.Share.{
  State, Inode, shard_of, shard_count, get_node, put_node, del_node, update, entries_sub, drop_side,
}
use mist.Replica.Share.Shards.{get_node_lem}
use mist.Replica.Links.{
  sum_below, stored, unlink, link_dec_by, drop_children, forget, children, remove_at,
  remove_node_by, remove_node,
}

sum_below-above :
    {A : Type 0} (n i : ℕ) (f : ℕ → List A) (a : List A)
    → n ≤ i
    → sum_below n (λ j. length (update f i a j)) ≡ sum_below n (λ j. length (f j))
sum_below-above zero i f a h = refl
sum_below-above (suc n) i f a h = ground (arith, sum_below-above n i f a)

sum_below-update :
    {A : Type 0} (n i : ℕ) (f : ℕ → List A) (a : List A)
    → i < n
    → sum_below n (λ j. length (update f i a j)) + length (f i)
      ≡ sum_below n (λ j. length (f j)) + length a
sum_below-update zero i f a h = absurd (omega arith)
sum_below-update (suc n) i f a h = elim (Bool-cases (i == n)) [
  | inl t ↦ let e : i ≡ n = ground arith in rw e (ground (arith, sum_below-above n n f a))
  | inr d ↦ ground (arith, sum_below-update n i f a (ground arith))
]

module _ {V : Type 0} (k : NodeKey) where
  length-remove : (m : Map NodeKey V) → length (remove k m) ≤ length m
  unfolding remove
  length-remove [] = omega arith
  length-remove ((j, v) ∷ m) = ground (arith, length-remove m)

  length-remove_known :
      (m : Map NodeKey V) (v : V) → lookup k m ≡ some v → length (remove k m) + 1 ≤ length m
  unfolding remove lookup
  length-remove_known [] v h = ground arith
  length-remove_known ((j, w) ∷ m) v h = ground (arith, length-remove_known m v, length-remove m)

module _ ⦃hashing : Hashing⦄ where
  stored-put_node :
      (s : State) (k : NodeKey) (n n' : Inode)
      → get_node s k ≡ some n
      → stored (put_node s k n') ≤ stored s
  unfolding stored put_node insert
  stored-put_node s k n n' h = omega (
    arith,
    sum_below-update shard_count (shard_of k) s.shards (insert k n' (s.shards (shard_of k)))
        (omega arith),
    length-remove_known k (s.shards (shard_of k)) n (sym (get_node_lem s k) ∙ h),
  )

  stored-del_node :
      (s : State) (k : NodeKey) (n : Inode)
      → get_node s k ≡ some n
      → stored (del_node s k) + 1 ≤ stored s
  unfolding stored del_node
  stored-del_node s k n h = omega (
    arith,
    sum_below-update shard_count (shard_of k) s.shards (remove k (s.shards (shard_of k)))
        (omega arith),
    length-remove_known k (s.shards (shard_of k)) n (sym (get_node_lem s k) ∙ h),
  )

  -- A removal that leaves no more nodes than it found.
  abbrev Shrinks : (State → NodeKey → State) → Type 0
  Shrinks rm = (s : State) (k : NodeKey) → stored (rm s k) ≤ stored s

  stored-unlink : (s : State) (k : NodeKey) → stored (unlink s k).0 ≤ stored s
  unfolding unlink
  stored-unlink s k = elim (Option-cases (get_node s k)) [
    | inl e ↦ rw e (omega arith)
    | inr (n, e) ↦ rw e (stored-put_node s k n (record n { links = n.links - 1 }) e)
  ]

  stored-forget : (s : State) (k : NodeKey) (n : Inode) → stored (forget s k n) ≡ stored s
  unfolding stored forget drop_side
  stored-forget s k n = ground arith

  link_dec_by-Shrinks : (rm : State → NodeKey → State) → Shrinks rm → Shrinks (link_dec_by rm)
  unfolding link_dec_by
  link_dec_by-Shrinks rm h s k = ground (arith, stored-unlink s k, h (unlink s k).0 k)

  stored-drop_children :
      (rm : State → NodeKey → State)
      → Shrinks rm
      → (s : State) (es : List CEnt) → stored (drop_children rm s es) ≤ stored s
  unfolding drop_children
  stored-drop_children rm h s [] = omega arith
  stored-drop_children rm h s (e ∷ es) =
      let s' = entries_sub s 1 in
      let same : stored s' ≡ stored s = unfold stored in refl in
      omega (
        arith,
        same,
        link_dec_by-Shrinks rm h s' (node e),
        stored-drop_children rm h (link_dec_by rm s' (node e)) es,
      )

  remove_at-Shrinks :
      (rm : State → NodeKey → State)
      → Shrinks rm
      → (s : State) (k : NodeKey) → stored (remove_at rm s k (get_node s k)) ≤ stored s
  unfolding remove_at
  remove_at-Shrinks rm h s k = elim (Option-cases (get_node s k)) [
    | inl e ↦ rw e (omega arith)
    | inr (n, e) ↦ rw e (
        omega (
          arith,
          stored-drop_children rm h (forget (del_node s k) k n) (children n),
          stored-forget (del_node s k) k n,
          stored-del_node s k n e,
        ))
  ]

  remove_node_by-Shrinks : (f : ℕ) → Shrinks (remove_node_by f)
  unfolding remove_node_by
  remove_node_by-Shrinks zero s k = omega arith
  remove_node_by-Shrinks (suc f) s k =
      remove_at-Shrinks (remove_node_by f) (remove_node_by-Shrinks f) s k

  -- Two removals that agree wherever at most `n` nodes are stored.
  abbrev Agree : ℕ → (State → NodeKey → State) → (State → NodeKey → State) → Type 0
  Agree n rm rm' = (s : State) (k : NodeKey) → stored s ≤ n → rm s k ≡ rm' s k

  drop_children_congr :
      (n : ℕ) (rm rm' : State → NodeKey → State)
      → Shrinks rm
      → Agree n rm rm'
      → (s : State) (es : List CEnt) → stored s ≤ n
      → drop_children rm s es ≡ drop_children rm' s es
  unfolding drop_children
  drop_children_congr n rm rm' shrinks agree s [] h = refl
  drop_children_congr n rm rm' shrinks agree s (e ∷ es) h =
      let s' = entries_sub s 1 in
      let same : stored s' ≡ stored s = unfold stored in refl in
      let u = stored-unlink s' (node e) in
      let one : link_dec_by rm s' (node e) ≡ link_dec_by rm' s' (node e) =
        unfold link_dec_by in ground (arith, agree (unlink s' (node e)).0 (node e), u, same) in
      drop_children_congr n rm rm' shrinks agree (link_dec_by rm s' (node e)) es
        (omega (arith, link_dec_by-Shrinks rm shrinks s' (node e), same))
      ∙ ap (λ (t : State). drop_children rm' t es) one

  nothing_stored : (s : State) (k : NodeKey) → stored s ≤ 0 → get_node s k ≡ none
  nothing_stored s k h = elim (Option-cases (get_node s k)) [
    | inl e ↦ e
    | inr (n, e) ↦ absurd (omega (arith, stored-del_node s k n e))
  ]

  one_more_round :
      (f : ℕ) (s : State) (k : NodeKey)
      → stored s ≤ f
      → remove_node_by (suc f) s k ≡ remove_node_by f s k
  unfolding remove_node_by remove_at
  one_more_round zero s k h = rw (nothing_stored s k h)
  one_more_round (suc f) s k h = elim (Option-cases (get_node s k)) [
    | inl e ↦ rw e
    | inr (n, e) ↦
        rw (e, remove_at)
          (drop_children_congr f (remove_node_by (suc f)) (remove_node_by f)
            (remove_node_by-Shrinks (suc f)) (one_more_round f) (forget (del_node s k) k n)
            (children n) (omega (arith, stored-forget (del_node s k) k n, stored-del_node s k n e)))
  ]

  -- Every number of rounds that is at least the number of stored nodes gives what `remove_node` gives:
  -- the removal of a node with its orphaned subtree ends, whatever the links between the nodes are.
  pub remove_node_by-enough :
      (d : ℕ) (s : State) (k : NodeKey) → remove_node_by (d + stored s) s k ≡ remove_node s k
  unfolding remove_node
  remove_node_by-enough zero s k = ap (λ f. remove_node_by f s k) (omega arith)
  remove_node_by-enough (suc d) s k =
      let e : suc d + stored s ≡ suc (d + stored s) = omega arith in
      ap (λ f. remove_node_by f s k) e
      ∙ one_more_round (d + stored s) s k (omega arith)
      ∙ remove_node_by-enough d s k
