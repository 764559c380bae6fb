-- ===== src/Cas/Accounts/Batch.antt =====
-- crates/mist-cas/src/lib.rs: the ingest of a batch, `scrub`, and the counters of the store after them.
use mist.Prelude.{
  ℕ, ◌+◌, ◌%◌, ◌^◌, Option, none, some, List, [], ◌∷◌, length, ◌==◌, take, if◌then◌else◌, ◌≡◌, refl,
  sym, ap, ◌∙◌, inl, inr, arith, Bool-cases, Option-cases, bytes_eq,
}
use mist.Prelude.Result.{Result-cases}
use mist.Prelude.Map.{lookup}
use mist.Prelude.Map.Sums.{total}
use mist.Cas.Store.{hash_key, ChunkRow, Backing, Answers, CasError, ManifestKey, fetch_add, opened}
use mist.Cas.Blobs.{Store, write_blob_file, insert_row, drop_corrupt}
use mist.Cas.Manifests.{hashes_of}
use mist.Cas.Batch.{
  Hashed, hash_all, write_files, insert_rows, commit_batch, ingest_chunks_inner, scrub_all, scrub,
  ScrubReport, with_ingested,
}
use mist.Cas.Sums.{Chunks}
use mist.Cas.Accounts.{Accounts, Accounted, insert-new, insert-old, evict_if_over-Accounted}
use mist.Cas.Accounts.Blobs.{Measured, write_blob_file-Accounted, drop_corrupt-Accounted}

module _ ⦃backing : Backing⦄ (size : List ℕ → ℕ) where
  abbrev pub AllMeasured : List (ℕ × List ℕ) → Type 0
  AllMeasured [] = Unit
  AllMeasured ((off, bytes) ∷ chunks) = Measured size bytes × AllMeasured chunks

  recount :
      {t : Chunks} {b b' n n' : ℕ} → Accounts size t b n → b ≡ b' → n ≡ n' → Accounts size t b' n'
  recount a e f = record { summed = sym e ∙ a.summed; counted = sym f ∙ a.counted; sized = a.sized }

  -- The loop over a batch, when its counts of new rows are to be added to `b` and `n`.
  insert_rows-Accounts :
      (chunks : List (ℕ × List ℕ)) (now b n total blobs : ℕ) (s : Store)
      → AllMeasured chunks
      → Accounts size s.chunks ((b + total) % 2 ^ 64) ((n + blobs) % 2 ^ 64)
      → (let after = insert_rows (hash_all chunks) now total blobs s in
          Accounts size after.0.chunks ((b + after.1.0) % 2 ^ 64) ((n + after.1.1) % 2 ^ 64)
          × ((after.0.total_bytes ≡ s.total_bytes) × (after.0.blobs ≡ s.blobs)))
  unfolding insert_rows hash_all insert_row
  insert_rows-Accounts [] now b n total blobs s m a = (a, (refl, refl))
  insert_rows-Accounts ((off, bytes) ∷ chunks) now b n total blobs s m a =
      let h = backing.blake3 bytes in
      let row : ChunkRow = record { len = length bytes % 2 ^ 32; last = now } in
      let same : row.len ≡ length bytes = omega (arith, m.0.0) in
      let s' : Store = record s { chunks = (backing.chunks.insert h row s.chunks).1 } in
      let old = backing.chunks.old-insert h row s.chunks in
      elim (Option-cases (backing.chunks.get h s.chunks)) [
        | inl none_yet ↦
            let new =
              insert-new size s.chunks ((b + total) % 2 ^ 64) ((n + blobs) % 2 ^ 64) h row a
                (same ∙ m.0.1) none_yet in
            rw (insert_rows, old, none_yet)
              (insert_rows-Accounts chunks now b n (total + length bytes) (blobs + 1) s' m.1
                (recount new (omega (arith, same)) (omega arith)))
        | inr found ↦
            let kept =
              insert-old size s.chunks ((b + total) % 2 ^ 64) ((n + blobs) % 2 ^ 64) h row found.0 a
                (same ∙ m.0.1) found.1 in
            rw (insert_rows, old, found.1)
              (insert_rows-Accounts chunks now b n total blobs s' m.1 kept)
      ]

  write_files-Accounted :
      (hashed : List Hashed) (s : Store) (answer : List ℕ → Option CasError)
      → Accounted size s
      → Accounted size (write_files s hashed answer).0
  unfolding write_files
  write_files-Accounted [] s answer a = a
  write_files-Accounted (h ∷ hashed) s answer a =
      let acc = write_blob_file-Accounted size s h.hash h.bytes (answer h.hash) a in
      let written = write_blob_file s h.hash h.bytes (answer h.hash) in
      elim (Result-cases written.1) [
        | inr e ↦ rw (write_files, e.1) acc
        | inl o ↦ rw (write_files, o.1) (write_files-Accounted hashed written.0 answer acc)
      ]

  commit_batch-Accounted :
      (s : Store) (key : ManifestKey) (chunks : List (ℕ × List ℕ)) (now : ℕ)
      → AllMeasured chunks
      → Accounted size s
      → Accounted size (commit_batch s key (hash_all chunks) now)
  unfolding commit_batch
  commit_batch-Accounted s key chunks now m a =
      let s' = with_ingested s (hash_all chunks) in
      let rows =
        insert_rows-Accounts chunks now s.total_bytes s.blobs 0 0 s' m
          (recount a (omega (arith, a.summed)) (omega (arith, a.counted))) in
      recount rows.0
        (ap (λ n. fetch_add n (insert_rows (hash_all chunks) now 0 0 s').1.0) (sym rows.1.0))
        (ap (λ n. fetch_add n (insert_rows (hash_all chunks) now 0 0 s').1.1) (sym rows.1.1))

  pub ingest_chunks_inner-Accounted :
      (s : Store) (key : ManifestKey) (chunks : List (ℕ × List ℕ))
      (files : List ℕ → Option CasError) (answers : Answers) (failed : Option (ℕ × CasError))
      (later : Answers)
      → AllMeasured chunks
      → Accounted size s
      → Accounted size (ingest_chunks_inner s key chunks files answers failed later).0
  unfolding ingest_chunks_inner
  ingest_chunks_inner-Accounted s key chunks files answers failed later m a =
      let written = write_files s (hash_all chunks) files in
      let acc = write_files-Accounted (hash_all chunks) s files a in
      elim (Result-cases written.1) [
        | inr e ↦ rw (ingest_chunks_inner, e.1) acc
        | inl o ↦
            rw (ingest_chunks_inner, o.1)
              (elim (Option-cases answers.write) [
                | inr e ↦ rw e.1 acc
                | inl w ↦ rw w (elim (Option-cases failed) [
                  | inr e ↦ rw e.1 acc
                  | inl c ↦ rw c (
                      evict_if_over-Accounted size
                        (commit_batch written.0 key (hash_all chunks) answers.now) later tt
                        (commit_batch-Accounted written.0 key chunks answers.now m acc))
                ])
              ])
      ]

  scrub_all-Accounted :
      (hashes : List (List ℕ)) (answer : List ℕ → Answers) (rep : ScrubReport) (s : Store)
      → Accounted size s
      → Accounted size (scrub_all hashes answer rep s).0
  unfolding scrub_all
  scrub_all-Accounted [] answer rep s a = a
  scrub_all-Accounted (h ∷ hashes) answer rep s a =
      let dropped = drop_corrupt s h ((answer h).stays h) (answer h).write in
      let acc = drop_corrupt-Accounted size s h ((answer h).stays h) (answer h).write a in
      elim (Option-cases (opened (lookup h s.files) (answer h).file)) [
        | inl n ↦
            rw (scrub_all, n)
              (elim (Result-cases dropped.1) [
                | inr e ↦ rw e.1 acc
                | inl o ↦ rw o.1 (scrub_all-Accounted hashes answer _ dropped.0 acc)
              ])
        | inr found ↦
            rw (scrub_all, found.1)
              (elim (Bool-cases (bytes_eq (backing.blake3 found.0) h)) [
                | inl y ↦ rw y (scrub_all-Accounted hashes answer _ s a)
                | inr differs ↦ rw differs (elim (Result-cases dropped.1) [
                  | inr e ↦ rw e.1 acc
                  | inl o ↦ rw o.1 (scrub_all-Accounted hashes answer _ dropped.0 acc)
                ])
              ])
      ]

  pub scrub-Accounted :
      (s : Store) (sample : ℕ) (read : Option CasError) (answer : List ℕ → Answers)
      → Accounted size s
      → Accounted size (scrub s sample read answer).0
  unfolding scrub
  scrub-Accounted s sample (some e) answer a = a
  scrub-Accounted s sample none answer a =
      scrub_all-Accounted
        (if sample == 0
          then hashes_of (backing.chunks.iter s.chunks)
          else take sample (hashes_of (backing.chunks.iter s.chunks)))
        answer (record { checked = 0; corrupt = 0; missing = 0 }) s a
