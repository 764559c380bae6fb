-- ===== src/Replica/Keeps/Dentries.antt =====
-- The invariant of the directories under what crates/mist-replica/src/lib.rs does to their
-- entries.
use mist.Prelude.{
  ℕ, suc, ◌≤◌, Option, none, some, List, length, refl, inl, inr, Bool-cases, Option-cases, arith,
}
use mist.Proto.Types.{NodeKey, Kind, Name}
use mist.Replica.Hashing.{Hashing}
use mist.Replica.Dir
use mist.Replica.Dir.{Dir, UpsertResult}
use mist.Replica.Dir.Grow.{Fits, upsert-Fits, remove-Fits}
use mist.Replica.Share.{State, entries_add, entries_sub}
use mist.Replica.Apply.{
  dir_at, put_dir, displace, settle_set, dentry_set, settle_relink, dentry_relink, settle_remove,
  dentry_remove, settle_take, take_from, dentry_take, relink,
}
use mist.Replica.Keeps.{AllFit, AllFit-weaken, shards-AllFit, modify-AllFit}
use mist.Replica.Keeps.Removal.{link_inc-AllFit, link_dec-AllFit}
use mist.Replica.Keeps.Nodes.{dir_at-Fits, put_dir-AllFit}

-- A name of at most 255 bytes, which decoding sees to.
abbrev pub IsShort : Name → Type 0
IsShort name = length name.bytes ≤ 255

module _ ⦃hashing : Hashing⦄ where
  displace-AllFit : (m : ℕ) (s : State) (o : Option NodeKey) → AllFit m s → AllFit m (displace s o)
  displace-AllFit m s none h = h
  displace-AllFit m s (some k) h = link_dec-AllFit m s k h

  pub with_table :
      (m n : ℕ) (s : State) (p : NodeKey) (d : Dir)
      → AllFit m s
      → Fits m d
      → AllFit m (entries_add (put_dir s p d) n)
  with_table m n s p d h f = shards-AllFit m (put_dir s p d) _ refl (put_dir-AllFit m s p d h f)

  settle_set-AllFit :
      (m : ℕ) (s : State) (p k : NodeKey) (d : Dir) (r : UpsertResult)
      → AllFit m s
      → Fits m d
      → AllFit m (settle_set s p k (d, r))
  unfolding settle_set
  settle_set-AllFit m s p k d r h f =
      let table = with_table m r.dentry_delta s p d h f in
      elim (Bool-cases r.gained_link) [
        | inl t ↦ rw t (displace-AllFit m _ r.displaced (link_inc-AllFit m _ k table))
        | inr e ↦ rw e (displace-AllFit m _ r.displaced table)
      ]

  pub dentry_set-AllFit :
      (m : ℕ) (s : State) (p : NodeKey) (name : Name) (k : NodeKey) (kind : Kind)
      → IsShort name
      → AllFit (suc m) s
      → AllFit m (dentry_set s p name k kind)
  unfolding dentry_set
  dentry_set-AllFit m s p name k kind short h =
      let h' = AllFit-weaken m (suc m) s (omega arith) h in
      elim (Option-cases (dir_at s p)) [
        | inl e ↦ rw (e, dentry_set) h'
        | inr (d, e) ↦
            rw (e, dentry_set)
              (settle_set-AllFit m s p k (Dir.upsert d name k kind).0 (Dir.upsert d name k kind).1
                h' (upsert-Fits m d name k kind short (dir_at-Fits (suc m) s p d h e)))
      ]

  pub dentry_relink-AllFit :
      (m : ℕ) (s : State) (p : NodeKey) (name : Name) (k : NodeKey) (kind : Kind)
      → IsShort name
      → AllFit (suc m) s
      → AllFit m (dentry_relink s p name k kind)
  unfolding dentry_relink settle_relink
  dentry_relink-AllFit m s p name k kind short h =
      let h' = AllFit-weaken m (suc m) s (omega arith) h in
      elim (Option-cases (dir_at s p)) [
        | inl e ↦ rw (e, dentry_relink) h'
        | inr (d, e) ↦
            let x = Dir.upsert d name k kind in
            let fits = upsert-Fits m d name k kind short (dir_at-Fits (suc m) s p d h e) in
            let table = with_table m x.1.dentry_delta s p x.0 h' fits in
            rw (e, dentry_relink)
              (modify-AllFit m _ k _ (λ n g. g) (displace-AllFit m _ x.1.displaced table))
      ]

  settle_remove-AllFit :
      (m : ℕ) (s : State) (p : NodeKey) (d : Dir) (o : Option NodeKey)
      → AllFit m s
      → Fits m d
      → AllFit m (settle_remove s p (d, o))
  unfolding settle_remove
  settle_remove-AllFit m s p d none h f = put_dir-AllFit m s p d h f
  settle_remove-AllFit m s p d (some k) h f =
      link_dec-AllFit m (entries_sub (put_dir s p d) 1) k
        (shards-AllFit m (put_dir s p d) _ refl (put_dir-AllFit m s p d h f))

  pub dentry_remove-AllFit :
      (m : ℕ) (s : State) (p : NodeKey) (name : List ℕ)
      → AllFit m s
      → AllFit m (dentry_remove s p name)
  unfolding dentry_remove
  dentry_remove-AllFit m s p name h = elim (Option-cases (dir_at s p)) [
    | inl e ↦ rw (e, dentry_remove) h
    | inr (d, e) ↦
        rw (e, dentry_remove)
          (settle_remove-AllFit m s p (Dir.remove d name).0 (Dir.remove d name).1 h
            (remove-Fits m d name (dir_at-Fits m s p d h e)))
  ]

  settle_take-AllFit :
      (m : ℕ) (s : State) (p : NodeKey) (kind : Kind) (d : Dir) (o : Option NodeKey)
      → AllFit m s
      → Fits m d
      → AllFit m (settle_take s p kind (d, o)).0
  unfolding settle_take
  settle_take-AllFit m s p kind d none h f = put_dir-AllFit m s p d h f
  settle_take-AllFit m s p kind d (some k) h f =
      shards-AllFit m (put_dir s p d) _ refl (put_dir-AllFit m s p d h f)

  take_from-AllFit :
      (m : ℕ) (s : State) (p : NodeKey) (name : List ℕ) (d : Dir) (o : Option (NodeKey × Kind))
      → AllFit m s
      → Fits m d
      → AllFit m (take_from s p name d o).0
  unfolding take_from
  take_from-AllFit m s p name d none h f = h
  take_from-AllFit m s p name d (some (k, kind)) h f =
      settle_take-AllFit m s p kind (Dir.remove d name).0 (Dir.remove d name).1 h
        (remove-Fits m d name f)

  pub dentry_take-AllFit :
      (m : ℕ) (s : State) (p : NodeKey) (name : List ℕ)
      → AllFit m s
      → AllFit m (dentry_take s p name).0
  unfolding dentry_take
  dentry_take-AllFit m s p name h = elim (Option-cases (dir_at s p)) [
    | inl e ↦ rw (e, dentry_take) h
    | inr (d, e) ↦
        rw (e, dentry_take)
          (take_from-AllFit m s p name d (Dir.find d name) h (dir_at-Fits m s p d h e))
  ]

  pub relink-AllFit :
      (m : ℕ) (s : State) (o : Option (NodeKey × Kind)) (p : NodeKey) (name : Name)
      → IsShort name
      → AllFit (suc m) s
      → AllFit m (relink (s, o) p name)
  unfolding relink
  relink-AllFit m s none p name short h = AllFit-weaken m (suc m) s (omega arith) h
  relink-AllFit m s (some (k, kind)) p name short h = dentry_relink-AllFit m s p name k kind short h
