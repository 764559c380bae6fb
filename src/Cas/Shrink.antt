-- ===== src/Cas/Shrink.antt =====
-- `evict` of crates/mist-cas/src/lib.rs as a whole: the bytes that the store keeps.
use mathlib.Core.Path.{subst}
use mist.Prelude.{
  ℕ, suc, ◌-◌, ◌^◌, ◌≤◌, ◌<◌, none, List, [], ◌∷◌, length, leb, ◌==◌, ◌≡◌, ◌⊎◌, inl, inr, arith,
  Bool-cases, leb→le, ==_iff,
}
use mist.Prelude.Map.{Map}
use mist.Cas.Store.{hash_key, Backing, CasConfig, Answers, victims_of, fetch_sub}
use mist.Cas.Blobs.{Store, sum_lens, remove_rows, evict, evict_victims}
use mist.Cas.Sums.{Chunks, removed, total-remove_rows}
use mist.Cas.Evict.{rows_of}
use mist.Cas.Evict.Bound.{AllProtected, victims-removed, victims-bound}

suc_zero : (n : ℕ) → suc n ≡ 0 → ⊥
suc_zero n e = omega (arith, e)

module _ ⦃backing : Backing⦄ where
  -- The counter is the sum of the rows; it is within the target, or within the hard cap when every
  -- row that is left was used within the last 10 minutes.
  abbrev pub Shrunk : CasConfig → (now : ℕ) → Map (List ℕ) ℕ → Chunks → (bytes : ℕ) → Type 0
  Shrunk cfg now recency t bytes =
      (bytes ≡ sum_lens (backing.chunks.iter t))
      × ((bytes ≤ cfg.target) ⊎ ((bytes ≤ cfg.max_bytes) × AllProtected cfg bytes now recency t t))

  untouched :
      (cfg : CasConfig) (now : ℕ) (recency : Map (List ℕ) ℕ) (t : Chunks) (sum : ℕ)
      (hashes : List (List ℕ)) (freed : ℕ)
      → length hashes ≡ 0
      → removed (λ row. row.len) hashes t ≡ freed
      → Shrunk cfg now recency (remove_rows hashes t) (sum - freed)
      → Shrunk cfg now recency t sum
  unfolding remove_rows
  untouched cfg now recency t sum [] freed z e l =
      let same : sum - freed ≡ sum = omega (arith, e) in
      subst (λ b. Shrunk cfg now recency t b) same l
  untouched cfg now recency t sum (h ∷ hashes) freed z e l = elim (suc_zero (length hashes) z) [ ]

  -- An eviction that the database does not refuse, of a store whose counter is the sum of the lengths
  -- of its chunks (below 2^64): afterwards the counter still is that sum, and it is at most the target,
  -- or at most `max_bytes` while every chunk that is left was used within the last 10 minutes.
  pub evict-Shrunk :
      (s : Store) (a : Answers)
      → a.read ≡ none
      → a.write ≡ none
      → s.total_bytes < 2 ^ 64
      → s.total_bytes ≡ sum_lens (backing.chunks.iter s.chunks)
      → Shrunk s.cfg a.now s.recency (evict s a).0.chunks (evict s a).0.total_bytes
  unfolding evict evict_victims
  evict-Shrunk s a r w small e =
      let chosen = victims_of s.cfg s.total_bytes a.now (rows_of s.recency s.chunks) in
      let freed = (victims-removed s.cfg s.total_bytes a.now s.recency s.chunks).0 in
      let left = total-remove_rows (λ row. row.len) chosen.0 s.chunks in
      let bound = victims-bound s.cfg s.total_bytes a.now s.recency s.chunks e in
      let shrunk : Shrunk s.cfg a.now s.recency (remove_rows chosen.0 s.chunks)
          (s.total_bytes - chosen.1) =
        (omega (arith, freed, left, e), bound) in
      elim (Bool-cases (leb s.total_bytes s.cfg.target)) [
        | inl y ↦ rw y (e, inl (leb→le s.total_bytes s.cfg.target y))
        | inr n ↦ rw n (
            rw r (elim (Bool-cases (length chosen.0 == 0)) [
              | inl z ↦ rw z (
                  untouched s.cfg a.now s.recency s.chunks s.total_bytes chosen.0 chosen.1
                    ((==_iff (length chosen.0) 0).0 z) freed shrunk)
              | inr m ↦ rw m (
                  rw w (
                    let same : s.total_bytes - chosen.1 ≡ fetch_sub s.total_bytes chosen.1 =
                      omega (arith, freed, left, e, small) in
                    subst (λ b. Shrunk s.cfg a.now s.recency (remove_rows chosen.0 s.chunks) b) same
                      shrunk))
            ]))
      ]
