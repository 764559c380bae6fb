-- ===== src/Tests/Contents.antt =====
-- Concrete inputs for the theorems about crates/mist-cas/src/lib.rs.
use mist.Prelude.{
  ℕ, ◌%◌, ◌^◌, true, false, none, some, List, [], ◌∷◌, length, take, drop, any, keep, ◌==◌, ◌≡◌,
  refl, inl, arith, if◌then◌else◌, bytes_eq,
}
use mist.Prelude.Result.{ok}
use mist.Prelude.Map.{Map, lookup, insert, remove}
use mist.Cas.Store.{
  hash_key, manifest_key, ManifestKey, ChunkRef, ChunkRow, CasConfig, Answers, key_eq, same_node,
  merged, sort_by_last, place, choose, victims_of, remove_all, remove_files,
}
use mist.Cas.Blobs.{
  Store, open_store, sum_lens, put_blob, write_blob_file, insert_row, account, account_ingest,
  evict, evict_victims, remove_rows, get_blob_range,
}
use mist.Cas.Manifests.{
  merge_chunk, get_manifest, merge, merged_manifest, remove_keys, stale_keys, keys_of, decoded,
}
use mist.Cas.Accounts.Calls.{Call, put, run, apply, run-counters}
use mist.Cas.Shrink.{Shrunk, evict-Shrunk}
use mist.Cas.Versions.{Ascends, ref_at, refs_of, merge_chunk-get_manifest}
use mist.Cas.ReadBack.{get_blob_range-put_blob}
use mist.Tests.Tables.{listed_store, keep_keys}

abbrev small : CasConfig
small = record { max_bytes = 6; target = 4 }

abbrev at_time : ℕ → Answers
at_time now = record {
  now = now;
  opens = none;
  file = none;
  read = none;
  write = none;
  stays = λ _. false;
}

abbrev fresh : Store
fresh = record {
  cfg = small;
  manifests = ([], tt);
  chunks = ([], tt);
  files = [];
  total_bytes = 0;
  blobs = 0;
  recency = [];
  blob_fds = [];
  c = record {
    hits = 0;
    misses = 0;
    ingested_bytes = 0;
    evictions = 0;
    evicted_bytes = 0;
    corrupt_dropped = 0;
  };
}

fresh-opened : open_store small ([], tt) ([], tt) [] none ≡ ok fresh
unfolding open_store
fresh-opened = refl

abbrev puts : List Call
puts =
    put (1 ∷ 2 ∷ 3 ∷ []) (at_time 10) (at_time 10)
    ∷ put (4 ∷ 5 ∷ []) (at_time 2000) (at_time 2000)
    ∷ put (6 ∷ 7 ∷ 8 ∷ []) (at_time 3000) (at_time 3000)
    ∷ []

-- The third call evicts the blobs of the first two.
puts-total : (run fresh puts).total_bytes ≡ 3
unfolding run apply put_blob write_blob_file insert_row account account_ingest evict evict_victims
    remove_rows remove_all remove_files merged sort_by_last place choose victims_of lookup insert
    remove any bytes_eq
puts-total = refl

run-counters_example :
    ((run fresh puts).total_bytes
      ≡ sum_lens (listed_store.chunks.iter (run fresh puts).chunks) % 2 ^ 64)
    × ((run fresh puts).blobs ≡ length (listed_store.chunks.iter (run fresh puts).chunks) % 2 ^ 64)
run-counters_example =
    run-counters length small ([], tt) ([], tt) [] fresh puts fresh-opened
      (λ h row l. ground (arith, l, listed_store.chunks.get-empty h))
      ((omega arith, refl), ((omega arith, refl), ((omega arith, refl), tt)))

abbrev one_row : ChunkRow
one_row = record { len = 3; last = 10 }

abbrev rows_none : Map (List ℕ) ChunkRow
rows_none = []

abbrev one_only : Map (List ℕ) ChunkRow
one_only = ((1 ∷ 2 ∷ 3 ∷ []), one_row) ∷ []

two_unique : lookup (4 ∷ 5 ∷ []) one_only ≡ none
unfolding lookup bytes_eq
two_unique = refl

one_unique : lookup (1 ∷ 2 ∷ 3 ∷ []) rows_none ≡ none
unfolding lookup
one_unique = refl

abbrev two : Store
two = record fresh {
  chunks = (
    ((4 ∷ 5 ∷ []), record { len = 2; last = 2000 }) ∷ ((1 ∷ 2 ∷ 3 ∷ []), one_row) ∷ [],
    (two_unique, (one_unique, tt)),
  );
  total_bytes = 5;
  blobs = 2;
}

evict-Shrunk_example :
    Shrunk small 2000 []
      (evict two (at_time 2000)).0.chunks
      (evict two (at_time 2000)).0.total_bytes
evict-Shrunk_example = evict-Shrunk two (at_time 2000) refl refl (omega arith) refl

two-evicted : (evict two (at_time 2000)).1 ≡ ok 3
unfolding evict evict_victims remove_rows remove_all remove_files merged sort_by_last place choose
    victims_of lookup insert remove any bytes_eq
two-evicted = refl

abbrev version : ℕ → ManifestKey
version n = record { share = 0; ino = 7; generation = 1; content_version = n }

abbrev chunk_at : ℕ → ChunkRef
chunk_at off = record { off = off; len = 2; hash = off ∷ [] }

abbrev merged_in : Store
merged_in =
    (merge_chunk (merge_chunk fresh (version 1) (chunk_at 4) none).0 (version 1) (chunk_at 0)
      none).0

merged-refs : refs_of merged_in (version 1) ≡ chunk_at 0 ∷ chunk_at 4 ∷ []
unfolding merge_chunk merge merged_manifest remove_keys stale_keys keys_of decoded lookup insert
    remove any keep keep_keys
merged-refs = refl

ascends : Ascends 0 (refs_of merged_in (version 1))
unfolding merge_chunk merge merged_manifest remove_keys stale_keys keys_of decoded lookup insert
    remove any keep keep_keys
ascends = (omega arith, (omega arith, tt))

merge_chunk-get_manifest_example :
    (get_manifest (merge_chunk merged_in (version 1) (chunk_at 2) none).0 (version 1) none ≡ (
      if key_eq (version 1) (version 1)
      then ok (some (merge (chunk_at 2) (refs_of merged_in (version 1))))
      else if same_node (version 1) (version 1)
      then ok none
      else get_manifest merged_in (version 1) none))
    × (Ascends 0 (merge (chunk_at 2) (refs_of merged_in (version 1)))
        × ((off : ℕ)
            → ref_at off (merge (chunk_at 2) (refs_of merged_in (version 1))) ≡ (
                if (chunk_at 2).off == off
                then some (chunk_at 2)
                else ref_at off (refs_of merged_in (version 1)))))
merge_chunk-get_manifest_example =
    merge_chunk-get_manifest merged_in (version 1) (version 1) (chunk_at 2) (omega arith)
      (omega arith) ascends

fresh-empty : lookup (1 ∷ 2 ∷ 3 ∷ []) fresh.files ≡ none
unfolding lookup
fresh-empty = refl

get_blob_range-put_blob_example :
    ((put_blob fresh (1 ∷ 2 ∷ 3 ∷ []) (at_time 10) (at_time 10)).1 ≡ ok (1 ∷ 2 ∷ 3 ∷ []))
    × ((get_blob_range
          (put_blob fresh (1 ∷ 2 ∷ 3 ∷ []) (at_time 10) (at_time 10)).0
          (1 ∷ 2 ∷ 3 ∷ [])
          1
          2
          true
          (at_time 20)).1
        ≡ ok (some (take 2 (drop 1 (1 ∷ 2 ∷ 3 ∷ [])))))
get_blob_range-put_blob_example =
    get_blob_range-put_blob fresh (1 ∷ 2 ∷ 3 ∷ []) (at_time 10) (at_time 10) 1 2 true (at_time 20)
      (inl fresh-empty) refl refl refl refl (omega arith) (omega arith) (omega arith)
