-- ===== src/Cas/Batch.antt =====
-- crates/mist-cas/src/lib.rs: the ingest of many chunks in one transaction, `scrub`, `clear` and `stats`.
use mist.Prelude.{
  ℕ, ◌+◌, ◌%◌, ◌^◌, Bool, true, false, Option, none, some, List, [], ◌∷◌, length, take, map, ◌==◌,
  if◌then◌else◌, bytes_eq, keep,
}
use mist.Prelude.Result.{ok, err}
use mist.Prelude.Map.{Map, insert, lookup}
use mist.Cas.Store.{
  CasError, hash_key, manifest_key, ManifestKey, ChunkRef, Backing, Answers, fetch_add, opened,
}
use mist.Cas.Blobs.{
  Store, Outcome, when_ok, evict_if_over, evict, write_blob_file, insert_row, drop_corrupt,
}
use mist.Cas.Manifests.{sort_by_off, hashes_of, write_manifest}

-- One chunk of a batch with its hash: `(hash, off, data)`
pub record Hashed : Type 0 where
  pub hash : List ℕ
  pub off : ℕ
  pub bytes : List ℕ

pub record ScrubReport : Type 0 where
  pub checked : ℕ
  pub corrupt : ℕ
  pub missing : ℕ

pub record CasStats : Type 0 where
  pub hits : ℕ
  pub misses : ℕ
  pub blobs : ℕ
  pub total_bytes : ℕ
  pub max_bytes : ℕ
  pub ingested_bytes : ℕ
  pub evictions : ℕ
  pub evicted_bytes : ℕ
  pub corrupt_dropped : ℕ

abbrev pub ref_of : Hashed → ChunkRef
ref_of h = record { off = h.off; len = length h.bytes % 2 ^ 32; hash = h.hash }

-- `recency.insert(h, now)` for each
unfoldable pub touch_all : List Hashed → ℕ → Map (List ℕ) ℕ → Map (List ℕ) ℕ
touch_all [] now m = m
touch_all (h ∷ hashed) now m = touch_all hashed now (insert h.hash now m)

unfoldable pub ingested : List Hashed → ℕ → ℕ
ingested [] n = n
ingested (h ∷ hashed) n = ingested hashed (fetch_add n (length h.bytes))

module _ ⦃backing : Backing⦄ where
  unfoldable pub hash_all : List (ℕ × List ℕ) → List Hashed
  hash_all [] = []
  hash_all ((off, bytes) ∷ chunks) =
      record { hash = backing.blake3 bytes; off = off; bytes = bytes } ∷ hash_all chunks

  -- The loop over `write_blob_file(h, data)?`
  unfoldable pub write_files : Store → List Hashed → (List ℕ → Option CasError) → Outcome (Unit {0})
  unfolding write_blob_file
  write_files s [] answer = (s, ok tt)
  write_files s (h ∷ hashed) answer =
      let written = write_blob_file s h.hash h.bytes (answer h.hash) in
      let rest = write_files written.0 hashed answer in
      elim written.1 [ err e ↦ written | ok _ ↦ rest ]

  -- The rows of a batch, with the counts of the new ones: `fresh_total` and `fresh_blobs`.
  unfoldable pub insert_rows :
      List Hashed → ℕ → (fresh_total fresh_blobs : ℕ) → Store → Store × (ℕ × ℕ)
  unfolding insert_row
  insert_rows [] now fresh_total fresh_blobs s = (s, (fresh_total, fresh_blobs))
  insert_rows (h ∷ hashed) now fresh_total fresh_blobs s =
      let row = insert_row s h.hash h.bytes now in
      insert_rows hashed now (if row.0 then fresh_total + length h.bytes else fresh_total)
        (if row.0 then fresh_blobs + 1 else fresh_blobs) row.1

  abbrev pub with_ingested : Store → List Hashed → Store
  with_ingested s hashed =
      let c = s.c in record s { c = record c { ingested_bytes = ingested hashed c.ingested_bytes } }

  -- The state once the transaction has committed, before it may evict.
  unfoldable pub commit_batch : Store → ManifestKey → List Hashed → ℕ → Store
  unfolding insert_rows touch_all ingested sort_by_off write_manifest
  commit_batch s key hashed now =
      let rows = insert_rows hashed now 0 0 (with_ingested s hashed) in
      let refs = sort_by_off (map ref_of hashed) in
      let stored = rows.0 in
      record stored {
        manifests = write_manifest key (backing.to_allocvec refs) stored.manifests;
        total_bytes = fetch_add stored.total_bytes rows.1.0;
        blobs = fetch_add stored.blobs rows.1.1;
        recency = touch_all hashed now stored.recency;
      }

  -- `files` answers the writes of files and `a.write` the begin of the transaction; `failed` is an
  -- error in it or at its end, with the number of rows that were inserted before.
  unfoldable pub ingest_chunks_inner :
      Store
      → ManifestKey
      → List (ℕ × List ℕ)
      → (files : List ℕ → Option CasError) → Answers
      → (failed : Option (ℕ × CasError)) → (later : Answers) → Outcome (Unit {0})
  unfolding hash_all write_files commit_batch evict
  ingest_chunks_inner s key chunks files a failed later =
      let hashed = hash_all chunks in
      let written = write_files s hashed files in
      elim written.1 [
        | err e ↦ (written.0, err e)
        | ok _ ↦ when_ok written.0 a.write (elim failed [
          | some (n, e) ↦ (with_ingested written.0 (take n hashed), err e)
          | none ↦ evict_if_over (commit_batch written.0 key hashed a.now) later tt
        ])
      ]

  -- The blobs of a list, each checked: `answer` is what is answered to the read and to the drop of one.
  unfoldable pub scrub_all :
      List (List ℕ) → (answer : List ℕ → Answers) → ScrubReport → Store → Outcome ScrubReport
  unfolding drop_corrupt
  scrub_all [] answer rep s = (s, ok rep)
  scrub_all (h ∷ hashes) answer rep s =
      let counted : ScrubReport = record rep { checked = rep.checked + 1 } in
      let corrupt : ScrubReport = record counted { corrupt = rep.corrupt + 1 } in
      let missing : ScrubReport = record counted { missing = rep.missing + 1 } in
      let dropped = drop_corrupt s h ((answer h).stays h) (answer h).write in
      let found : Option Bool = elim (opened (lookup h s.files) (answer h).file) [
        | none ↦ none
        | some bytes ↦ some (bytes_eq (backing.blake3 bytes) h)
      ] in
      elim found [
        | some true ↦ scrub_all hashes answer counted s
        | some false ↦ elim dropped.1 [
          | err e ↦ (dropped.0, err e)
          | ok _ ↦ scrub_all hashes answer corrupt dropped.0
        ]
        | none ↦ elim dropped.1 [
          | err e ↦ (dropped.0, err e)
          | ok _ ↦ scrub_all hashes answer missing dropped.0
        ]
      ]

  unfoldable pub scrub :
      Store
      → (sample : ℕ) → (read : Option CasError) → (answer : List ℕ → Answers) → Outcome ScrubReport
  unfolding scrub_all hashes_of
  scrub s sample read answer =
      let all = hashes_of (backing.chunks.iter s.chunks) in
      when_ok s read (
        scrub_all (if sample == 0 then all else take sample all) answer
          (record { checked = 0; corrupt = 0; missing = 0 }) s)

  -- `stays` are the files that `remove_dir_all` leaves, and `file` answers `create_dir_all`, when the
  -- tables and the other files are gone already.
  unfoldable pub clear :
      Store
      → (write : Option CasError) → (stays : List ℕ → Bool) → (file : Option CasError)
      → Outcome (Unit {0})
  clear s write stays file =
      let emptied : Store = record s {
        manifests = backing.manifests.empty;
        chunks = backing.chunks.empty;
        files = keep (λ f. stays f.0) s.files;
      } in
      when_ok s write
        (when_ok emptied file (record emptied { total_bytes = 0; blobs = 0; recency = [] }, ok tt))

  abbrev pub stats : Store → CasStats
  stats s = record {
    hits = s.c.hits;
    misses = s.c.misses;
    blobs = s.blobs;
    total_bytes = s.total_bytes;
    max_bytes = s.cfg.max_bytes;
    ingested_bytes = s.c.ingested_bytes;
    evictions = s.c.evictions;
    evicted_bytes = s.c.evicted_bytes;
    corrupt_dropped = s.c.corrupt_dropped;
  }
