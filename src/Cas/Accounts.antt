-- ===== src/Cas/Accounts.antt =====
-- crates/mist-cas/src/lib.rs: the two counters of the store against its table of chunks.
pub mod Blobs
pub mod Manifests
pub mod Batch
pub mod Calls
use mist.Prelude.{
  ℕ, ◌+◌, ◌-◌, ◌%◌, ◌^◌, ◌≤◌, ◌<◌, Bool, true, false, Option, none, some, List, [], ◌∷◌, ◌++◌,
  length, ltb, leb, ◌==◌, if◌then◌else◌, ◌≡◌, refl, sym, ap, ◌∙◌, ◌⊎◌, inl, inr, arith, Bool-cases,
  Option-cases,
}
use mist.Prelude.Result.{Result, ok, err}
use mist.Prelude.Map.{Map, lookup}
use mist.Prelude.Map.Sums.{weight, total, total-one, total-same}
use mist.Cas.Store.{
  hash_key, ChunkRow, Backing, CasConfig, CasStore, Answers, CasError, contains, victims_of,
  fetch_add, fetch_sub, is_none,
}
use mist.Cas.Blobs.{
  Store, Outcome, sum_lens, remove_rows, evict, evict_victims, evict_if_over, account, insert_row,
  touch, drop_corrupt,
}
use mist.Cas.Sums.{
  Chunks, removed, total-remove_rows, get-remove_rows, total-row-insert, total-row-remove,
}
use mist.Cas.Evict.{rows_of}
use mist.Cas.Evict.Bound.{victims-removed}

module _ ⦃backing : Backing⦄ (size : List ℕ → ℕ) where
  -- The counters are the sums over the rows, modulo 2^64, and each row has the length that belongs to
  -- its hash.
  pub record Accounts (t : Chunks) (bytes blobs : ℕ) : Type 0 where
    pub summed : bytes ≡ sum_lens (backing.chunks.iter t) % 2 ^ 64
    pub counted : blobs ≡ total (λ _. 1) (backing.chunks.iter t) % 2 ^ 64
    pub sized : (h : List ℕ) (row : ChunkRow) → backing.chunks.get h t ≡ some row → row.len ≡ size h

  abbrev pub Accounted : Store → Type 0
  Accounted s = Accounts s.chunks s.total_bytes s.blobs

  module _ (t : Chunks) (bytes blobs : ℕ) where
    pub insert-new :
        (h : List ℕ) (row : ChunkRow)
        → Accounts t bytes blobs
        → row.len ≡ size h
        → backing.chunks.get h t ≡ none
        → Accounts
            (backing.chunks.insert h row t).1
            ((bytes + row.len) % 2 ^ 64)
            ((blobs + 1) % 2 ^ 64)
    insert-new h row a e n = record {
      summed =
          let moved = total-row-insert backing.chunks (λ r. r.len) h row t in
          omega (arith, moved, ap (weight (λ r. r.len)) n, a.summed);
      counted =
          let moved = total-row-insert backing.chunks (λ _. 1) h row t in
          omega (arith, moved, ap (weight (λ _. 1)) n, a.counted);
      sized = λ j r l.
          ground
            (arith, a.sized j r, backing.chunks.get-insert h j row t, hash_key.beq_iff h j, e, l);
    }

    pub insert-old :
        (h : List ℕ) (row old : ChunkRow)
        → Accounts t bytes blobs
        → row.len ≡ size h
        → backing.chunks.get h t ≡ some old
        → Accounts (backing.chunks.insert h row t).1 bytes blobs
    insert-old h row old a e n = record {
      summed =
          let moved = total-row-insert backing.chunks (λ r. r.len) h row t in
          omega (arith, moved, ap (weight (λ r. r.len)) n, a.summed, a.sized h old n, e);
      counted =
          let moved = total-row-insert backing.chunks (λ _. 1) h row t in
          omega (arith, moved, ap (weight (λ _. 1)) n, a.counted);
      sized = λ j r l.
          ground
            (arith, a.sized j r, backing.chunks.get-insert h j row t, hash_key.beq_iff h j, e, l);
    }

    pub remove-old :
        (h : List ℕ) (old : ChunkRow)
        → Accounts t bytes blobs
        → backing.chunks.get h t ≡ some old
        → Accounts (backing.chunks.remove h t).1 (fetch_sub bytes old.len) (fetch_sub blobs 1)
    remove-old h old a n = record {
      summed =
          let moved = total-row-remove backing.chunks (λ r. r.len) h t in
          omega (arith, moved, ap (weight (λ r. r.len)) n, a.summed);
      counted =
          let moved = total-row-remove backing.chunks (λ _. 1) h t in
          omega (arith, moved, ap (weight (λ _. 1)) n, a.counted);
      sized = λ j r l. ground (arith, a.sized j r, backing.chunks.get-remove h j t, l);
    }

    pub remove-absent :
        (h : List ℕ)
        → Accounts t bytes blobs
        → backing.chunks.get h t ≡ none
        → Accounts (backing.chunks.remove h t).1 bytes blobs
    remove-absent h a n = record {
      summed =
          let moved = total-row-remove backing.chunks (λ r. r.len) h t in
          omega (arith, moved, ap (weight (λ r. r.len)) n, a.summed);
      counted =
          let moved = total-row-remove backing.chunks (λ _. 1) h t in
          omega (arith, moved, ap (weight (λ _. 1)) n, a.counted);
      sized = λ j r l. ground (arith, a.sized j r, backing.chunks.get-remove h j t, l);
    }

    pub remove-many :
        (hashes : List (List ℕ)) (freed : ℕ)
        → Accounts t bytes blobs
        → removed (λ r. r.len) hashes t ≡ freed
        → removed (λ _. 1) hashes t ≡ length hashes
        → Accounts (remove_rows hashes t) (fetch_sub bytes freed) (fetch_sub blobs (length hashes))
    remove-many hashes freed a e n = record {
      summed = omega (arith, total-remove_rows (λ r. r.len) hashes t, a.summed, e);
      counted = omega (arith, total-remove_rows (λ _. 1) hashes t, a.counted, n);
      sized = λ j r l. ground (arith, a.sized j r, get-remove_rows hashes j t, l);
    }

  pub evict-Accounted : (s : Store) (a : Answers) → Accounted s → Accounted (evict s a).0
  unfolding evict evict_victims
  evict-Accounted s a acc =
      let chosen = victims_of s.cfg s.total_bytes a.now (rows_of s.recency s.chunks) in
      let found = victims-removed s.cfg s.total_bytes a.now s.recency s.chunks in
      let after =
        remove-many s.chunks s.total_bytes s.blobs chosen.0 chosen.1 acc found.0 found.1 in
      elim (Bool-cases (leb s.total_bytes s.cfg.target)) [
        | inl y ↦ rw y acc
        | inr n ↦ rw n (elim (Option-cases a.read) [
          | inr e ↦ rw e.1 acc
          | inl r ↦ rw r (elim (Bool-cases (length chosen.0 == 0)) [
            | inl z ↦ rw z acc
            | inr m ↦ rw m (elim (Option-cases a.write) [
              | inr e ↦ rw e.1 acc
              | inl w ↦
                  rw w
                    (record { summed = after.summed; counted = after.counted; sized = after.sized })
            ])
          ])
        ])
      ]

  pub evict_if_over-Accounted :
      {A : Type 0} (s : Store) (a : Answers) (result : A)
      → Accounted s
      → Accounted (evict_if_over s a result).0
  evict_if_over-Accounted s a result acc = elim (Bool-cases (ltb s.cfg.max_bytes s.total_bytes)) [
    | inl y ↦ rw y (evict-Accounted s a acc)
    | inr n ↦ rw n acc
  ]
