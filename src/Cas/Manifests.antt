-- ===== src/Cas/Manifests.antt =====
-- crates/mist-cas/src/lib.rs: the manifests, the ingest of chunks into them, `scrub`, `clear` and
-- `stats`. Whether a commit is durable is not part of the state.
use mist.Prelude.{
  ℕ, ◌-◌, ◌%◌, ◌^◌, Option, none, some, List, [], ◌∷◌, length, keep, not, ltb, leb, ◌==◌,
  if◌then◌else◌,
}
use mist.Prelude.Result.{Result, ok, err}
use mist.Prelude.Map.{Map}
use mist.Cas.Store.{
  CasError, hash_key, manifest_key, ManifestKey, ChunkRef, ChunkRow, Backing, Answers,
}
use mist.Cas.Blobs.{Store, Outcome, when_ok, account_ingest, write_blob_file, insert_row}

-- `binary_search_by_key(&off, |c| c.off)` on a list in order, and what the two results do with it: the
-- chunk replaces the one at its offset, or goes where the order has its place.
unfoldable pub merge : ChunkRef → List ChunkRef → List ChunkRef
merge chunk [] = chunk ∷ []
merge chunk (c ∷ chunks) =
    let rest = merge chunk chunks in
    if ltb c.off chunk.off
    then c ∷ rest
    else if c.off == chunk.off
    then chunk ∷ chunks
    else chunk ∷ c ∷ chunks

-- `refs.sort_by_key(|c| c.off)`, which is stable
unfoldable pub place_ref : ChunkRef → List ChunkRef → List ChunkRef
place_ref chunk [] = chunk ∷ []
place_ref chunk (c ∷ chunks) =
    let rest = place_ref chunk chunks in
    if leb chunk.off c.off then chunk ∷ c ∷ chunks else c ∷ rest

unfoldable pub sort_by_off : List ChunkRef → List ChunkRef
unfolding place_ref
sort_by_off [] = []
sort_by_off (c ∷ chunks) = place_ref c (sort_by_off chunks)

unfoldable pub keys_of : {V : Type 0} → Map ManifestKey V → List ManifestKey
keys_of [] = []
keys_of ((k, v) ∷ m) = k ∷ keys_of m

unfoldable pub hashes_of : Map (List ℕ) ChunkRow → List (List ℕ)
hashes_of [] = []
hashes_of ((h, row) ∷ m) = h ∷ hashes_of m

-- `(share, ino, generation, 0)` and `(share, ino, generation, u64::MAX)`
abbrev pub first_of : ManifestKey → ManifestKey
first_of k = record k { content_version = 0 }

abbrev pub last_of : ManifestKey → ManifestKey
last_of k = record k { content_version = 2 ^ 64 - 1 }

module _ ⦃backing : Backing⦄ where
  abbrev pub Manifests : Type 0
  Manifests = backing.manifests.T

  unfoldable pub remove_keys : List ManifestKey → Manifests → Manifests
  remove_keys [] t = t
  remove_keys (k ∷ ks) t = remove_keys ks (backing.manifests.remove k t).1

  unfoldable pub stale_keys : ManifestKey → Manifests → List ManifestKey
  unfolding keys_of
  stale_keys key t =
      keep (λ k. not (k.content_version == key.content_version))
        (keys_of (backing.manifests.range (first_of key) (last_of key) t))

  -- The other versions of a node go, and one row is written.
  unfoldable pub write_manifest : ManifestKey → List ℕ → Manifests → Manifests
  unfolding remove_keys stale_keys
  write_manifest key bytes t =
      (backing.manifests.insert key bytes (remove_keys (stale_keys key t) t)).1

  unfoldable pub put_manifest :
      Store → ManifestKey → List ChunkRef → Option CasError → Outcome (Unit {0})
  unfolding write_manifest
  put_manifest s key chunks answer =
      when_ok s answer (
        record s { manifests = write_manifest key (backing.to_allocvec chunks) s.manifests },
        ok tt,
      )

  -- A row that does not decode counts as none.
  unfoldable pub decoded : Option (List ℕ) → Option (List ChunkRef)
  decoded none = none
  decoded (some bytes) = backing.from_bytes bytes

  abbrev pub unwrap_or_default : Option (List ChunkRef) → List ChunkRef
  unwrap_or_default none = []
  unwrap_or_default (some chunks) = chunks

  unfoldable pub merged_manifest : ManifestKey → ChunkRef → Manifests → Manifests
  unfolding remove_keys stale_keys decoded merge
  merged_manifest key chunk t =
      let t' = remove_keys (stale_keys key t) t in
      let chunks = unwrap_or_default (decoded (backing.manifests.get key t')) in
      (backing.manifests.insert key (backing.to_allocvec (merge chunk chunks)) t').1

  unfoldable pub merge_chunk : Store → ManifestKey → ChunkRef → Option CasError → Outcome (Unit {0})
  unfolding merged_manifest
  merge_chunk s key chunk answer =
      when_ok s answer (record s { manifests = merged_manifest key chunk s.manifests }, ok tt)

  unfoldable pub get_manifest :
      Store → ManifestKey → Option CasError → Result CasError (Option (List ChunkRef))
  unfolding decoded
  get_manifest s key (some e) = err e
  get_manifest s key none = ok (decoded (backing.manifests.get key s.manifests))

  unfoldable pub rebind_manifest :
      Store → (src dest : ManifestKey) → Option CasError → Outcome (Unit {0})
  unfolding write_manifest
  rebind_manifest s src dest answer =
      let taken = backing.manifests.remove src s.manifests in
      let moved : Store = elim taken.0 [
        | none ↦ record s { manifests = taken.1 }
        | some bytes ↦ record s { manifests = write_manifest dest bytes taken.1 }
      ] in
      when_ok s answer (moved, ok tt)

  unfoldable pub drop_node :
      Store → (share ino generation : ℕ) → (read write : Option CasError) → Outcome (Unit {0})
  unfolding keys_of remove_keys
  drop_node s share ino generation read write =
      let key : ManifestKey = record {
        share = share;
        ino = ino;
        generation = generation;
        content_version = 0;
      } in
      let keys = keys_of (backing.manifests.range key (last_of key) s.manifests) in
      let dropped : Outcome (Unit {0}) =
        when_ok s write (record s { manifests = remove_keys keys s.manifests }, ok tt) in
      when_ok s read (if length keys == 0 then (s, ok tt) else dropped)

  unfoldable pub drop_share : Store → (share : ℕ) → Option CasError → Outcome (Unit {0})
  unfolding keys_of remove_keys
  drop_share s share answer =
      let low : ManifestKey = record {
        share = share;
        ino = 0;
        generation = 0;
        content_version = 0;
      } in
      let high : ManifestKey = record {
        share = share;
        ino = 2 ^ 64 - 1;
        generation = 2 ^ 32 - 1;
        content_version = 2 ^ 64 - 1;
      } in
      let keys = keys_of (backing.manifests.range low high s.manifests) in
      when_ok s answer (record s { manifests = remove_keys keys s.manifests }, ok tt)

  unfoldable pub ingest_chunk :
      Store → ManifestKey → ℕ → List ℕ → Answers → Answers → Outcome (List ℕ)
  unfolding write_blob_file insert_row account_ingest merged_manifest
  ingest_chunk s key off bytes a later =
      let hash = backing.blake3 bytes in
      let written = write_blob_file s hash bytes a.file in
      elim written.1 [
        | err e ↦ (written.0, err e)
        | ok _ ↦
            let row = insert_row written.0 hash bytes a.now in
            let chunk : ChunkRef = record { off = off; len = length bytes % 2 ^ 32; hash = hash } in
            let stored = row.1 in
            let merged : Store = record stored {
              manifests = merged_manifest key chunk stored.manifests;
            } in
            when_ok written.0 a.write
              (account_ingest merged hash (length bytes) row.0 a.now later hash)
      ]
