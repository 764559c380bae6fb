-- ===== src/Cas/Evict/Bound.antt =====
-- `evict` of crates/mist-cas/src/lib.rs: its victims, and what the store holds after them.
use mist.Prelude.{
  ℕ, ◌+◌, ◌-◌, ◌≤◌, true, false, none, some, List, [], ◌++◌, length, length-append, ltb, ◌≡◌, sym,
  ap, ◌∙◌, ◌⊎◌, inl, inr, arith, Bool-cases, Option-cases, ltb-false→le, any-append, bytes_eq,
}
use mist.Prelude.Map.{Map, lookup}
use mist.Prelude.Map.Sums.{total, total-same}
use mist.Cas.Store.{
  hash_key, ChunkRow, Backing, CasConfig, choose, contains, unwrap_or, max, is_protected,
  victims_of,
}
use mist.Cas.Blobs.{remove_rows}
use mist.Cas.Sums.{Chunks, removed, removed-append, total-remove_rows, get-remove_rows}
use mist.Cas.Evict.{refreshed, rows_of, lookup-rows_of, choose-removed, choose_stops}

module _ ⦃backing : Backing⦄ (cfg : CasConfig) (sum now : ℕ) (recency : Map (List ℕ) ℕ)
    (t : Chunks) where
  abbrev rows : Map (List ℕ) ChunkRow
  rows = rows_of recency t

  abbrev soft : List (List ℕ) × ℕ
  soft = choose (λ h row. is_protected now row) sum cfg.target 0 rows

  abbrev hard : List (List ℕ) × ℕ
  hard = choose (λ h row. contains h soft.0) sum cfg.target soft.1 rows

  abbrev victims : List (List ℕ) × ℕ
  victims = victims_of cfg sum now rows

  backed :
      (h : List ℕ) (row : ChunkRow)
      → lookup h rows ≡ some row
      → (r : ChunkRow) × (backing.chunks.get h t ≡ some r) × (r.len ≡ row.len)
  backed h row l =
      let found = sym ((lookup-rows_of recency t).1 h) ∙ l in
      elim (Option-cases (backing.chunks.get h t)) [
        | inl n ↦ ground (arith, found, n)
        | inr some_row ↦ (some_row.0, some_row.1, ground (arith, found, some_row.1))
      ]

  soft-removed :
      (removed (λ row. row.len) soft.0 t ≡ soft.1) × (removed (λ _. 1) soft.0 t ≡ length soft.0)
  soft-removed =
      let found =
        choose-removed (λ h row. is_protected now row) sum cfg.target 0 rows t
          (lookup-rows_of recency t).0 (λ h row l s. backed h row l) in
      (omega (arith, found.0), found.1)

  hard-removed :
      (soft.1 + removed (λ row. row.len) hard.0 (remove_rows soft.0 t) ≡ hard.1)
      × (removed (λ _. 1) hard.0 (remove_rows soft.0 t) ≡ length hard.0)
  hard-removed =
      choose-removed (λ h row. contains h soft.0) sum cfg.target soft.1 rows (remove_rows soft.0 t)
        (lookup-rows_of recency t).0
        (λ h row l s.
          let found = backed h row l in
          (found.0, get-remove_rows soft.0 h t ∙ rw s found.1, found.2))

  pub victims-removed :
      (removed (λ row. row.len) victims.0 t ≡ victims.1)
      × (removed (λ _. 1) victims.0 t ≡ length victims.0)
  unfolding victims_of
  victims-removed = elim (Bool-cases (ltb cfg.max_bytes (sum - soft.1))) [
    | inl over ↦ rw over (
      omega
          (arith, removed-append (λ row. row.len) soft.0 hard.0 t, soft-removed.0, hard-removed.0),
      omega (
        arith,
        removed-append (λ _. 1) soft.0 hard.0 t,
        soft-removed.1,
        hard-removed.1,
        length-append soft.0 hard.0,
      ),
    )
    | inr under ↦ rw under soft-removed
  ]

  -- The rows of a table were all used within the last 10 minutes.
  abbrev pub AllProtected : Chunks → Type 0
  AllProtected t' =
      (h : List ℕ) (row : ChunkRow)
      → backing.chunks.get h t' ≡ some row
      → is_protected now (record row { last = max (unwrap_or 0 (lookup h recency)) row.last })
        ≡ true

  survivor :
      (hashes : List (List ℕ)) (h : List ℕ) (row : ChunkRow)
      → backing.chunks.get h (remove_rows hashes t) ≡ some row
      → (contains h hashes ≡ false)
        × (lookup h rows
            ≡ some (record row { last = max (unwrap_or 0 (lookup h recency)) row.last }))
  survivor hashes h row l =
      let found = sym (get-remove_rows hashes h t) ∙ l in
      elim (Bool-cases (contains h hashes)) [
        | inl y ↦ ground (arith, found, y)
        | inr n ↦ (
          n,
          (lookup-rows_of recency t).1 h
              ∙ ap (refreshed recency h) {y = some row} (ground (arith, found, n)),
        )
      ]

  soft-stops : (sum - soft.1 ≤ cfg.target) ⊎ AllProtected (remove_rows soft.0 t)
  soft-stops = elim (choose_stops (λ h row. is_protected now row) sum cfg.target 0 rows) [
    | inl done ↦ inl done
    | inr all ↦ inr (λ h row l.
        let s = survivor soft.0 h row l in
        let seen = record row { last = max (unwrap_or 0 (lookup h recency)) row.last } in
        elim (Bool-cases (is_protected now seen)) [
          | inl y ↦ y
          | inr n ↦ ground (arith, all h seen s.1 n, s.0)
        ])
  ]

  -- A pass that skips only what is gone already leaves no row.
  nothing_left :
      ((h : List ℕ) (row : ChunkRow)
        → lookup h rows ≡ some row
        → contains h soft.0 ≡ false
        → contains h hard.0 ≡ true)
      → (h : List ℕ) → backing.chunks.get h (remove_rows (soft.0 ++ hard.0) t) ≡ none
  nothing_left all h =
      elim (Option-cases (backing.chunks.get h (remove_rows (soft.0 ++ hard.0) t))) [
        | inl n ↦ n
        | inr found ↦
            let row = found.0 in
            let s = survivor (soft.0 ++ hard.0) h row found.1 in
            let seen = record row { last = max (unwrap_or 0 (lookup h recency)) row.last } in
            ground (arith, all h seen s.1, s.0, any-append (bytes_eq h) soft.0 hard.0)
      ]

  all_freed :
      ((h : List ℕ) → backing.chunks.get h (remove_rows (soft.0 ++ hard.0) t) ≡ none)
      → total (λ row. row.len) (backing.chunks.iter t) ≡ hard.1
  unfolding lookup
  all_freed gone =
      let t' = remove_rows (soft.0 ++ hard.0) t in
      let left =
        total-same (λ row. row.len) (backing.chunks.iter t') [] (backing.chunks.iter-Unique t') tt
          (λ h. backing.chunks.lookup-iter h t' ∙ gone h) in
      omega (
        arith,
        left,
        total-remove_rows (λ row. row.len) (soft.0 ++ hard.0) t,
        removed-append (λ row. row.len) soft.0 hard.0 t,
        soft-removed.0,
        hard-removed.0,
      )

  pub victims-bound :
      sum ≡ total (λ row. row.len) (backing.chunks.iter t)
      → (sum - victims.1 ≤ cfg.target)
        ⊎ ((sum - victims.1 ≤ cfg.max_bytes) × AllProtected (remove_rows victims.0 t))
  unfolding victims_of
  victims-bound e = elim (Bool-cases (ltb cfg.max_bytes (sum - soft.1))) [
    | inl over ↦
        rw over (elim (choose_stops (λ h row. contains h soft.0) sum cfg.target soft.1 rows) [
          | inl done ↦ inl done
          | inr all ↦ inl (let freed = all_freed (nothing_left all) in omega (arith, e, freed))
        ])
    | inr under ↦ rw under (elim soft-stops [
      | inl done ↦ inl done
      | inr all ↦ inr (ltb-false→le cfg.max_bytes (sum - soft.1) under, all)
    ])
  ]
