-- ===== src/Cas/Accounts/Manifests.antt =====
-- crates/mist-cas/src/lib.rs: the operations on manifests, batches and the whole store, and its counters after them.
use mist.Prelude.{
  Bool, ℕ, ◌%◌, ◌^◌, Option, none, some, List, [], length, ◌==◌, ◌≡◌, ◌∙◌, inl, inr, arith,
  Bool-cases, Option-cases,
}
use mist.Prelude.Result.{Result-cases}
use mist.Prelude.Map.{lookup}
use mist.Prelude.Map.Sums.{total-same}
use mist.Cas.Store.{hash_key, ChunkRef, Backing, Answers, CasError, ManifestKey}
use mist.Cas.Blobs.{Store, account, account_ingest, write_blob_file, insert_row}
use mist.Cas.Manifests.{
  put_manifest, merge_chunk, rebind_manifest, drop_node, drop_share, ingest_chunk, merged_manifest,
  keys_of, last_of, remove_keys,
}
use mist.Cas.Batch.{clear}
use mist.Cas.Accounts.{Accounted, evict_if_over-Accounted}
use mist.Cas.Accounts.Blobs.{Measured, write_blob_file-Accounted, insert_row-account, either_none}

module _ ⦃backing : Backing⦄ (size : List ℕ → ℕ) where
  pub clear-Accounted :
      (s : Store) (write : Option CasError) (stays : List ℕ → Bool)
      → Accounted size s
      → Accounted size (clear s write stays none).0
  unfolding clear lookup
  clear-Accounted s write stays a = elim (Option-cases write) [
    | inr e ↦ rw e.1 a
    | inl w ↦ rw w (
        let t = backing.chunks.empty in
        let bare : (h : List ℕ) → lookup h (backing.chunks.iter t) ≡ none =
          λ h. backing.chunks.lookup-iter h t ∙ backing.chunks.get-empty h in
        let zero_sum =
          total-same (λ r. r.len) (backing.chunks.iter t) [] (backing.chunks.iter-Unique t) tt
            bare in
        let zero_count =
          total-same (λ _. 1) (backing.chunks.iter t) [] (backing.chunks.iter-Unique t) tt bare in
        record {
          summed = omega (arith, zero_sum);
          counted = omega (arith, zero_count);
          sized = λ h r l. ground (arith, l, backing.chunks.get-empty h);
        })
  ]

  pub drop_node-Accounted :
      (s : Store) (share ino generation : ℕ) (read write : Option CasError)
      → Accounted size s
      → Accounted size (drop_node s share ino generation read write).0
  unfolding drop_node
  drop_node-Accounted s share ino generation (some e) write a = a
  drop_node-Accounted s share ino generation none write a =
      let key : ManifestKey = record {
        share = share;
        ino = ino;
        generation = generation;
        content_version = 0;
      } in
      let keys = keys_of (backing.manifests.range key (last_of key) s.manifests) in
      elim (Bool-cases (length keys == 0)) [
        | inl y ↦ rw y a
        | inr n ↦
            rw n
              (either_none size write s (record s { manifests = remove_keys keys s.manifests }) a a)
      ]

  pub drop_share-Accounted :
      (s : Store) (share : ℕ) (answer : Option CasError)
      → Accounted size s
      → Accounted size (drop_share s share answer).0
  unfolding drop_share
  drop_share-Accounted s share none a = a
  drop_share-Accounted s share (some e) a = a

  pub put_manifest-Accounted :
      (s : Store) (key : ManifestKey) (chunks : List ChunkRef) (answer : Option CasError)
      → Accounted size s
      → Accounted size (put_manifest s key chunks answer).0
  unfolding put_manifest
  put_manifest-Accounted s key chunks none a = a
  put_manifest-Accounted s key chunks (some e) a = a

  pub merge_chunk-Accounted :
      (s : Store) (key : ManifestKey) (chunk : ChunkRef) (answer : Option CasError)
      → Accounted size s
      → Accounted size (merge_chunk s key chunk answer).0
  unfolding merge_chunk
  merge_chunk-Accounted s key chunk none a = a
  merge_chunk-Accounted s key chunk (some e) a = a

  pub rebind_manifest-Accounted :
      (s : Store) (src dest : ManifestKey) (answer : Option CasError)
      → Accounted size s
      → Accounted size (rebind_manifest s src dest answer).0
  unfolding rebind_manifest
  rebind_manifest-Accounted s src dest (some e) a = a
  rebind_manifest-Accounted s src dest none a =
      elim (Option-cases (backing.manifests.remove src s.manifests).0) [
        | inl n ↦ rw n a
        | inr found ↦ rw found.1 a
      ]

  pub ingest_chunk-Accounted :
      (s : Store) (key : ManifestKey) (off : ℕ) (bytes : List ℕ) (answers later : Answers)
      → Measured size bytes
      → Accounted size s
      → Accounted size (ingest_chunk s key off bytes answers later).0
  unfolding ingest_chunk account_ingest
  ingest_chunk-Accounted s key off bytes answers later m a =
      let h = backing.blake3 bytes in
      let written = write_blob_file s h bytes answers.file in
      let acc = write_blob_file-Accounted size s h bytes answers.file a in
      elim (Result-cases written.1) [
        | inr e ↦ rw (ingest_chunk, e.1) acc
        | inl o ↦
            rw (ingest_chunk, o.1)
              (elim (Option-cases answers.write) [
                | inr e ↦ rw e.1 acc
                | inl w ↦ rw w (
                    let row = insert_row written.0 h bytes answers.now in
                    let chunk : ChunkRef = record {
                      off = off;
                      len = length bytes % 2 ^ 32;
                      hash = h;
                    } in
                    let stored = row.1 in
                    let merged : Store = record stored {
                      manifests = merged_manifest key chunk stored.manifests;
                    } in
                    evict_if_over-Accounted size (account merged h (length bytes) row.0 answers.now)
                      later h (insert_row-account size written.0 bytes answers.now m acc))
              ])
      ]
