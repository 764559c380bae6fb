-- ===== src/Cas/Sums.antt =====
-- Sums over the rows of a table of crates/mist-cas/src/lib.rs, when a row is written or removed.
use mist.Prelude.{
  ℕ, ◌+◌, Bool, none, List, [], ◌∷◌, ◌++◌, any, if◌then◌else◌, ◌≡◌, refl, sym, ap, ◌∙◌, arith,
}
use mist.Prelude.Map.{Eq, Map, lookup, lookup-insert, lookup-remove}
use mist.Prelude.Map
use mist.Prelude.Map.Unique.{insert-Unique, remove-Unique}
use mist.Prelude.Map.Sums.{weight, total, total-remove, total-same}
use mist.Cas.Table.{Table}
use mist.Cas.Store.{hash_key, manifest_key, ChunkRow, Backing, contains}
use mist.Cas.Blobs.{remove_rows}

module _ {K V : Type 0} ⦃e : Eq K⦄ {le : K → K → Bool} (table : Table K V le) (w : V → ℕ) where
  pub total-row-insert :
      (k : K) (v : V) (t : table.T)
      → total w (table.iter (table.insert k v t).1) + weight w (table.get k t)
        ≡ total w (table.iter t) + w v
  unfolding Map.insert
  total-row-insert k v t =
      let m = table.iter t in
      let same : total w (table.iter (table.insert k v t).1) ≡ w v + total w (Map.remove k m) =
        total-same w (table.iter (table.insert k v t).1) (Map.insert k v m)
          (table.iter-Unique (table.insert k v t).1) (insert-Unique k v m (table.iter-Unique t))
          (λ j.
            table.lookup-iter j (table.insert k v t).1
            ∙ table.get-insert k j v t
            ∙ (rw (sym (table.lookup-iter j t)) (sym (lookup-insert k j v m)))) in
      let before = total-remove w k m (table.iter-Unique t) in
      omega (arith, same, before, ap (weight w) (table.lookup-iter k t))

  pub total-row-remove :
      (k : K) (t : table.T)
      → total w (table.iter (table.remove k t).1) + weight w (table.get k t)
        ≡ total w (table.iter t)
  total-row-remove k t =
      let m = table.iter t in
      let same =
        total-same w (table.iter (table.remove k t).1) (Map.remove k m)
          (table.iter-Unique (table.remove k t).1) (remove-Unique k m (table.iter-Unique t))
          (λ j.
            table.lookup-iter j (table.remove k t).1
            ∙ table.get-remove k j t
            ∙ (rw (sym (table.lookup-iter j t)) (sym (lookup-remove k j m)))) in
      let before = total-remove w k m (table.iter-Unique t) in
      omega (arith, same, before, ap (weight w) (table.lookup-iter k t))

module _ ⦃backing : Backing⦄ where
  abbrev pub Chunks : Type 0
  Chunks = backing.chunks.T

  -- What the rows of some hashes weigh, each taken out before the next.
  abbrev pub removed : (ChunkRow → ℕ) → List (List ℕ) → Chunks → ℕ
  removed w [] t = 0
  removed w (h ∷ hashes) t =
      weight w (backing.chunks.get h t) + removed w hashes (backing.chunks.remove h t).1

  pub total-remove_rows :
      (w : ChunkRow → ℕ) (hashes : List (List ℕ)) (t : Chunks)
      → total w (backing.chunks.iter (remove_rows hashes t)) + removed w hashes t
        ≡ total w (backing.chunks.iter t)
  unfolding remove_rows
  total-remove_rows w [] t = omega arith
  total-remove_rows w (h ∷ hashes) t = omega (
    arith,
    total-remove_rows w hashes (backing.chunks.remove h t).1,
    total-row-remove backing.chunks w h t,
  )

  pub get-remove_rows :
      (hashes : List (List ℕ)) (h : List ℕ) (t : Chunks)
      → backing.chunks.get h (remove_rows hashes t)
        ≡ (if contains h hashes then none else backing.chunks.get h t)
  unfolding remove_rows any
  get-remove_rows [] h t = refl
  get-remove_rows (j ∷ hashes) h t = ground (
    arith,
    get-remove_rows hashes h (backing.chunks.remove j t).1,
    backing.chunks.get-remove j h t,
    hash_key.beq_iff h j,
    hash_key.beq_iff j h,
  )

  pub removed-append :
      (w : ChunkRow → ℕ) (xs ys : List (List ℕ)) (t : Chunks)
      → removed w (xs ++ ys) t ≡ removed w xs t + removed w ys (remove_rows xs t)
  unfolding remove_rows
  removed-append w [] ys t = omega arith
  removed-append w (h ∷ xs) ys t =
      omega (arith, removed-append w xs ys (backing.chunks.remove h t).1)
