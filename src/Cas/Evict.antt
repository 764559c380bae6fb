-- ===== src/Cas/Evict.antt =====
-- `evict` of crates/mist-cas/src/lib.rs: the rows it looks at, and the victims it chooses among them.
pub mod Bound
use mist.Prelude.{
  ℕ, ◌+◌, ◌-◌, Bool, true, false, Option, none, some, List, [], ◌∷◌, ◌++◌, length, any, leb,
  if◌then◌else◌, ◌≡◌, refl, sym, ap, ◌∙◌, ◌⊎◌, inl, inr, arith, bytes_eq, bytes_eq_refl, Bool-cases,
  leb→le, ◌≤◌,
}
use mist.Prelude.Map.{Map, lookup}
use mist.Prelude.Map.Unique.{Unique}
use mist.Prelude.Map.Sums.{weight, total}
use mist.Cas.Store.{
  hash_key, ChunkRow, Backing, merged, place, sort_by_last, choose, contains, unwrap_or, max,
}
use mist.Cas.Sums.{Chunks, removed}

-- A row with the later of its times of access.
abbrev pub refreshed : Map (List ℕ) ℕ → List ℕ → Option ChunkRow → Option ChunkRow
refreshed recency h none = none
refreshed recency h (some row) =
    some (record row { last = max (unwrap_or 0 (lookup h recency)) row.last })

lookup-merged :
    (recency : Map (List ℕ) ℕ) (h : List ℕ) (m : Map (List ℕ) ChunkRow)
    → lookup h (merged recency m) ≡ refreshed recency h (lookup h m)
unfolding lookup merged
lookup-merged recency h [] = refl
lookup-merged recency h ((j, row) ∷ m) = elim (Bool-cases (bytes_eq j h)) [
  | inl t ↦
      let same : j ≡ h = (hash_key.beq_iff j h).0 t in
      rw t
        (ap (λ i. some (record row { last = max (unwrap_or 0 (lookup i recency)) row.last })) same)
  | inr f ↦ rw f (lookup-merged recency h m)
]

merged-Unique :
    (recency : Map (List ℕ) ℕ) (m : Map (List ℕ) ChunkRow) → Unique m → Unique (merged recency m)
unfolding merged
merged-Unique recency [] u = tt
merged-Unique recency ((j, row) ∷ m) u =
    (lookup-merged recency j m ∙ ap (refreshed recency j) u.0, merged-Unique recency m u.1)

lookup-place :
    (h j : List ℕ) (row : ChunkRow) (m : Map (List ℕ) ChunkRow)
    → lookup h m ≡ none
    → lookup j (place h row m) ≡ (if bytes_eq h j then some row else lookup j m)
unfolding lookup place
lookup-place h j row [] n = refl
lookup-place h j row ((i, r) ∷ m) n = ground (
  arith,
  lookup-place h j row m,
  hash_key.beq_iff i h,
  hash_key.beq_iff i j,
  hash_key.beq_iff h j,
)

place-Unique :
    (h : List ℕ) (row : ChunkRow) (m : Map (List ℕ) ChunkRow)
    → Unique m
    → lookup h m ≡ none
    → Unique (place h row m)
unfolding place lookup
place-Unique h row [] u n = (refl, tt)
place-Unique h row ((i, r) ∷ m) u n = elim (Bool-cases (leb row.last r.last)) [
  | inl t ↦ rw t (n, u)
  | inr f ↦ rw f (
    ground (arith, lookup-place h i row m, u.0, hash_key.beq_iff i h, hash_key.beq_iff h i),
    place-Unique h row m u.1 (ground arith),
  )
]

lookup-sort_by_last :
    (m : Map (List ℕ) ChunkRow)
    → Unique m
    → Unique (sort_by_last m) × ((h : List ℕ) → lookup h (sort_by_last m) ≡ lookup h m)
unfolding sort_by_last lookup
lookup-sort_by_last [] u = (tt, λ h. refl)
lookup-sort_by_last ((j, row) ∷ m) u =
    let rest = lookup-sort_by_last m u.1 in
    let absent : lookup j (sort_by_last m) ≡ none = rest.1 j ∙ u.0 in
    (
      place-Unique j row (sort_by_last m) rest.0 absent,
      λ h.
          lookup-place j h row (sort_by_last m) absent
          ∙ ap (λ o. if bytes_eq j h then some row else o) (rest.1 h),
    )

module _ ⦃backing : Backing⦄ where
  -- The rows that an eviction looks at.
  abbrev pub rows_of : Map (List ℕ) ℕ → Chunks → Map (List ℕ) ChunkRow
  rows_of recency t = sort_by_last (merged recency (backing.chunks.iter t))

  pub lookup-rows_of :
      (recency : Map (List ℕ) ℕ) (t : Chunks)
      → Unique (rows_of recency t)
        × ((h : List ℕ)
            → lookup h (rows_of recency t) ≡ refreshed recency h (backing.chunks.get h t))
  lookup-rows_of recency t =
      let m = backing.chunks.iter t in
      let sorted =
        lookup-sort_by_last (merged recency m)
          (merged-Unique recency m (backing.chunks.iter-Unique t)) in
      (
        sorted.0,
        λ h.
            sorted.1 h
            ∙ lookup-merged recency h m
            ∙ ap (refreshed recency h) (backing.chunks.lookup-iter h t),
      )

  -- The table holds each row that is not skipped, with its length.
  abbrev pub Backs : (List ℕ → ChunkRow → Bool) → Map (List ℕ) ChunkRow → Chunks → Type 0
  Backs skip rows t =
      (h : List ℕ) (row : ChunkRow)
      → lookup h rows ≡ some row
      → skip h row ≡ false
      → (r : ChunkRow) × (backing.chunks.get h t ≡ some r) × (r.len ≡ row.len)

  Backs-rest :
      (skip : List ℕ → ChunkRow → Bool) (h : List ℕ) (row : ChunkRow) (rows : Map (List ℕ) ChunkRow)
      (t : Chunks)
      → Unique ((h, row) ∷ rows)
      → Backs skip ((h, row) ∷ rows) t
      → Backs skip rows t × Backs skip rows (backing.chunks.remove h t).1
  unfolding lookup
  Backs-rest skip h row rows t u b =
      let apart : (j : List ℕ) (r : ChunkRow) → lookup j rows ≡ some r → bytes_eq h j ≡ false =
        λ j r l. ground (arith, hash_key.beq_iff h j, u.0) in
      let later : Backs skip rows t = λ j r l s. b j r (rw (apart j r l) l) s in
      (
        later,
        λ j r l s.
            let found = later j r l s in
            (found.0, backing.chunks.get-remove h j t ∙ rw (apart j r l) found.1, found.2),
      )

  pub choose-removed :
      (skip : List ℕ → ChunkRow → Bool) (sum target freed : ℕ) (rows : Map (List ℕ) ChunkRow)
      (t : Chunks)
      → Unique rows
      → Backs skip rows t
      → (freed + removed (λ row. row.len) (choose skip sum target freed rows).0 t
          ≡ (choose skip sum target freed rows).1)
        × (removed (λ _. 1) (choose skip sum target freed rows).0 t
            ≡ length (choose skip sum target freed rows).0)
  unfolding choose lookup
  choose-removed skip sum target freed [] t u b = (omega arith, refl)
  choose-removed skip sum target freed ((h, row) ∷ rows) t u b =
      let rest = Backs-rest skip h row rows t u b in
      elim (Bool-cases (leb (sum - freed) target)) [
        | inl t' ↦ rw t' (omega arith, refl)
        | inr f ↦ rw f (elim (Bool-cases (skip h row)) [
          | inl y ↦ rw y (choose-removed skip sum target freed rows t u.1 rest.0)
          | inr n ↦ rw n (
              let found = b h row (ground (arith, bytes_eq_refl h)) n in
              let later =
                choose-removed skip sum target (freed + row.len) rows (backing.chunks.remove h t).1
                  u.1 rest.1 in
              rw found.1 (omega (arith, later.0, found.2), omega (arith, later.1)))
        ])
      ]

  -- A pass ends at the target, or takes every row that it does not skip.
  pub choose_stops :
      (skip : List ℕ → ChunkRow → Bool) (sum target freed : ℕ) (rows : Map (List ℕ) ChunkRow)
      → (sum - (choose skip sum target freed rows).1 ≤ target)
        ⊎ ((h : List ℕ) (row : ChunkRow)
            → lookup h rows ≡ some row
            → skip h row ≡ false
            → contains h (choose skip sum target freed rows).0 ≡ true)
  unfolding choose lookup any
  choose_stops skip sum target freed [] = inr (λ h row l. ground arith)
  choose_stops skip sum target freed ((h, row) ∷ rows) =
      elim (Bool-cases (leb (sum - freed) target)) [
        | inl t ↦ rw t (inl (leb→le (sum - freed) target t))
        | inr f ↦ rw f (elim (Bool-cases (skip h row)) [
          | inl y ↦ rw y (elim (choose_stops skip sum target freed rows) [
            | inl done ↦ inl done
            | inr all ↦ inr (λ j r l s. ground (arith, all j r, hash_key.beq_iff h j))
          ])
          | inr n ↦ rw n (elim (choose_stops skip sum target (freed + row.len) rows) [
            | inl done ↦ inl done
            | inr all ↦
                inr (λ j r l s. ground (arith, all j r, hash_key.beq_iff h j, bytes_eq_refl j))
          ])
        ])
      ]
