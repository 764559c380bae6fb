-- ===== src/Cas/Accounts/Calls.antt =====
-- crates/mist-cas/src/lib.rs: sequences of calls on a store, and its counters after them.
use mist.Prelude.{
  ℕ, ◌%◌, ◌^◌, Bool, Option, none, some, List, [], ◌∷◌, length, ◌≡◌, refl, sym, ap, ◌∙◌,
}
use mathlib.Core.Path.{subst}
use mist.Prelude.Result.{Result, ok, err}
use mist.Prelude.Map.{Map}
use mist.Prelude.Map.Sums.{total-one}
use mist.Cas.Store.{
  hash_key, ChunkRow, ChunkRef, Backing, CasConfig, Answers, CasError, ManifestKey,
}
use mist.Cas.Blobs.{
  blob_file_range, Store, sum_lens, evict, put_blob, get_blob_range_into, get_blob, open_store,
}
use mist.Cas.Manifests.{
  put_manifest, merge_chunk, rebind_manifest, drop_node, drop_share, ingest_chunk,
}
use mist.Cas.Batch.{ingest_chunks_inner, scrub, clear}
use mist.Cas.Accounts.{Accounted, evict-Accounted}
use mist.Cas.Accounts.Blobs.{
  blob_file_range-Accounted, Measured, put_blob-Accounted, get_blob_range_into-Accounted,
  get_blob-Accounted,
}
use mist.Cas.Accounts.Manifests.{
  clear-Accounted, drop_node-Accounted, drop_share-Accounted, put_manifest-Accounted,
  merge_chunk-Accounted, rebind_manifest-Accounted, ingest_chunk-Accounted,
}
use mist.Cas.Accounts.Batch.{AllMeasured, ingest_chunks_inner-Accounted, scrub-Accounted}

-- The calls of a store, each with what it is answered.
pub data Call : Type 0 where
  put : (bytes : List ℕ) → (a later : Answers) → Call
  ingest : ManifestKey → (off : ℕ) → (bytes : List ℕ) → (a later : Answers) → Call
  ingest_all :
      ManifestKey
      → List (ℕ × List ℕ)
      → (files : List ℕ → Option CasError) → Answers
      → (failed : Option (ℕ × CasError)) → (later : Answers) → Call
  manifest : ManifestKey → List ChunkRef → Option CasError → Call
  merge_in : ManifestKey → ChunkRef → Option CasError → Call
  rebind : (src dest : ManifestKey) → Option CasError → Call
  forget_node : (share ino generation : ℕ) → (read write : Option CasError) → Call
  forget_share : (share : ℕ) → Option CasError → Call
  read_range : (hash : List ℕ) → (off len : ℕ) → (verify : Bool) → Answers → Call
  read_whole : (hash : List ℕ) → Answers → Call
  serve : (hash : List ℕ) → (off : ℕ) → Answers → Call
  shrink : Answers → Call
  check : (sample : ℕ) → (read : Option CasError) → (answer : List ℕ → Answers) → Call
  wipe : (write : Option CasError) → (stays : List ℕ → Bool) → (file : Option CasError) → Call

module _ ⦃backing : Backing⦄ where
  unfoldable pub apply : Store → Call → Store
  apply s (put bytes a later) = (put_blob s bytes a later).0
  apply s (ingest key off bytes a later) = (ingest_chunk s key off bytes a later).0
  apply s (ingest_all key chunks files a failed later) =
      (ingest_chunks_inner s key chunks files a failed later).0
  apply s (manifest key chunks answer) = (put_manifest s key chunks answer).0
  apply s (merge_in key chunk answer) = (merge_chunk s key chunk answer).0
  apply s (rebind src dest answer) = (rebind_manifest s src dest answer).0
  apply s (forget_node share ino generation read write) =
      (drop_node s share ino generation read write).0
  apply s (forget_share share answer) = (drop_share s share answer).0
  apply s (read_range hash off len verify a) = (get_blob_range_into s hash off len verify a).0
  apply s (read_whole hash a) = (get_blob s hash a).0
  apply s (serve hash off a) = (blob_file_range s hash off a).0
  apply s (shrink a) = (evict s a).0
  apply s (check sample read answer) = (scrub s sample read answer).0
  apply s (wipe write stays file) = (clear s write stays file).0

  unfoldable pub run : Store → List Call → Store
  unfolding apply
  run s [] = s
  run s (call ∷ calls) = run (apply s call) calls

  module _ (size : List ℕ → ℕ) where
    -- The contents that a call stores are measured, and `clear` can create its directory.
    abbrev pub Fits : Call → Type 0
    Fits (put bytes _ _) = Measured size bytes
    Fits (ingest _ _ bytes _ _) = Measured size bytes
    Fits (ingest_all _ chunks _ _ _ _) = AllMeasured size chunks
    Fits (wipe _ _ file) = file ≡ none
    Fits _ = Unit

    abbrev pub AllFit : List Call → Type 0
    AllFit [] = Unit
    AllFit (call ∷ calls) = Fits call × AllFit calls

    apply-Accounted :
        (s : Store) (call : Call) → Fits call → Accounted size s → Accounted size (apply s call)
    unfolding apply
    apply-Accounted s (put bytes a later) m acc = put_blob-Accounted size s bytes a later m acc
    apply-Accounted s (ingest key off bytes a later) m acc =
        ingest_chunk-Accounted size s key off bytes a later m acc
    apply-Accounted s (ingest_all key chunks files a failed later) m acc =
        ingest_chunks_inner-Accounted size s key chunks files a failed later m acc
    apply-Accounted s (manifest key chunks answer) m acc =
        put_manifest-Accounted size s key chunks answer acc
    apply-Accounted s (merge_in key chunk answer) m acc =
        merge_chunk-Accounted size s key chunk answer acc
    apply-Accounted s (rebind src dest answer) m acc =
        rebind_manifest-Accounted size s src dest answer acc
    apply-Accounted s (forget_node share ino generation read write) m acc =
        drop_node-Accounted size s share ino generation read write acc
    apply-Accounted s (forget_share share answer) m acc =
        drop_share-Accounted size s share answer acc
    apply-Accounted s (read_range hash off len verify a) m acc =
        get_blob_range_into-Accounted size s hash off len verify a acc
    apply-Accounted s (read_whole hash a) m acc = get_blob-Accounted size s hash a acc
    apply-Accounted s (serve hash off a) m acc = blob_file_range-Accounted size s hash off a acc
    apply-Accounted s (shrink a) m acc = evict-Accounted size s a acc
    apply-Accounted s (check sample read answer) m acc =
        scrub-Accounted size s sample read answer acc
    apply-Accounted s (wipe write stays file) m acc = rw m (clear-Accounted size s write stays acc)

    run-Accounted :
        (s : Store) (calls : List Call)
        → AllFit calls
        → Accounted size s
        → Accounted size (run s calls)
    unfolding run
    run-Accounted s [] m acc = acc
    run-Accounted s (call ∷ calls) m acc =
        run-Accounted (apply s call) calls m.1 (apply-Accounted s call m.0 acc)

  opened-Accounted :
      (size : List ℕ → ℕ) (cfg : CasConfig) (manifests : backing.manifests.T)
      (chunks : backing.chunks.T) (files : Map (List ℕ) (List ℕ)) (s : Store)
      → open_store cfg manifests chunks files none ≡ ok s
      → ((h : List ℕ) (row : ChunkRow) → backing.chunks.get h chunks ≡ some row → row.len ≡ size h)
      → Accounted size s
  unfolding open_store
  opened-Accounted size cfg manifests chunks files s o sized =
      let AccountedResult : Result CasError Store → Type 0 =
        λ r. elim r [ ok s' ↦ Accounted size s' | err e ↦ Unit ] in
      subst AccountedResult o (record {
        summed = refl;
        counted = ap (λ n. n % 2 ^ 64) (sym (total-one (backing.chunks.iter chunks)));
        sized = sized;
      })

  -- After any sequence of calls on a store that was just opened, whichever files cannot be opened,
  -- read, written or removed and whichever transactions fail, `total_bytes` is the sum of the lengths in the table of chunks and `blobs` the
  -- number of its rows, both modulo 2^64. The conditions: stored contents are shorter than 2^32
  -- bytes, contents (and the rows at the start) with the same hash have the same length, and
  -- `clear` can create its directory.
  pub run-counters :
      (size : List ℕ → ℕ) (cfg : CasConfig) (manifests : backing.manifests.T)
      (chunks : backing.chunks.T) (files : Map (List ℕ) (List ℕ)) (s : Store) (calls : List Call)
      → open_store cfg manifests chunks files none ≡ ok s
      → ((h : List ℕ) (row : ChunkRow) → backing.chunks.get h chunks ≡ some row → row.len ≡ size h)
      → AllFit size calls
      → ((run s calls).total_bytes ≡ sum_lens (backing.chunks.iter (run s calls).chunks) % 2 ^ 64)
        × ((run s calls).blobs ≡ length (backing.chunks.iter (run s calls).chunks) % 2 ^ 64)
  run-counters size cfg manifests chunks files s calls o sized m =
      let acc =
        run-Accounted size s calls m (opened-Accounted size cfg manifests chunks files s o sized) in
      (
        acc.summed,
        acc.counted ∙ ap (λ n. n % 2 ^ 64) (total-one (backing.chunks.iter (run s calls).chunks)),
      )
