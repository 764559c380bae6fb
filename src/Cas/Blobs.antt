-- ===== src/Cas/Blobs.antt =====
-- crates/mist-cas/src/lib.rs: the operations on blobs, with eviction, scrubbing and clearing. Each is
-- given what the clock, the file system and the database answer to it. Log lines are left out.
use mist.Prelude.{
  ℕ, ◌+◌, ◌-◌, ◌%◌, ◌^◌, Bool, true, false, Option, none, some, List, [], ◌∷◌, ◌++◌, length, take,
  drop, ltb, leb, ◌==◌, if◌then◌else◌, bytes_eq, not, ◌||◌,
}
use mist.Prelude.Result.{Result, ok, err}
use mist.Prelude.Map.{Map, insert, lookup, remove}
use mist.Prelude.Map.Sums.{total}
use mist.Cas.Store.{
  CasError, hash_key, ChunkRow, Backing, CasConfig, Counters, CasStore, Answers,
  access_write_granularity, fetch_add, fetch_sub, is_none, merged, sort_by_last, victims_of,
  remove_all, remove_files, opened, manifest_key,
}

abbrev pub max_open : ℕ
max_open = 32

module _ ⦃backing : Backing⦄ where
  abbrev pub Store : Type 0
  Store = CasStore backing.manifests.T backing.chunks.T

  abbrev pub Outcome : Type 0 → Type 0
  Outcome A = Store × Result CasError A

  -- `begin_write()?` to `commit()?`: the rest of the operation, unless the transaction fails.
  abbrev pub when_ok : {A : Type 0} → Store → Option CasError → Outcome A → Outcome A
  when_ok s (some e) rest = (s, err e)
  when_ok s none rest = rest

  -- `CasStore::open`, which sums over the rows that are there.
  abbrev pub sum_lens : Map (List ℕ) ChunkRow → ℕ
  sum_lens rows = total (λ row. row.len) rows

  abbrev no_counts : Counters
  no_counts = record {
    hits = 0;
    misses = 0;
    ingested_bytes = 0;
    evictions = 0;
    evicted_bytes = 0;
    corrupt_dropped = 0;
  }

  unfoldable pub open_store :
      CasConfig
      → backing.manifests.T
      → backing.chunks.T
      → Map (List ℕ) (List ℕ)
      → Option CasError
      → Result CasError Store
  open_store cfg manifests chunks files (some e) = err e
  open_store cfg manifests chunks files none =
      let rows = backing.chunks.iter chunks in
      ok (record {
        cfg = cfg;
        manifests = manifests;
        chunks = chunks;
        files = files;
        total_bytes = sum_lens rows % 2 ^ 64;
        blobs = length rows % 2 ^ 64;
        recency = [];
        blob_fds = [];
        c = no_counts;
      })

  unfoldable pub remove_rows : List (List ℕ) → backing.chunks.T → backing.chunks.T
  remove_rows [] t = t
  remove_rows (h ∷ hashes) t = remove_rows hashes (backing.chunks.remove h t).1

  -- The part of `evict` from its write transaction on.
  unfoldable pub evict_victims : Store → (stays : List ℕ → Bool) → List (List ℕ) → ℕ → Store
  unfolding remove_rows remove_all remove_files
  evict_victims s stays victims freed =
      let c = s.c in
      let count = length victims in
      record s {
        chunks = remove_rows victims s.chunks;
        recency = remove_all victims s.recency;
        files = remove_files stays victims s.files;
        total_bytes = fetch_sub s.total_bytes freed;
        blobs = fetch_sub s.blobs count;
        c = record c {
          evictions = fetch_add c.evictions count;
          evicted_bytes = fetch_add c.evicted_bytes freed;
        };
      }

  unfoldable pub evict : Store → Answers → Outcome ℕ
  unfolding evict_victims victims_of merged sort_by_last
  evict s a =
      let rows = sort_by_last (merged s.recency (backing.chunks.iter s.chunks)) in
      let chosen = victims_of s.cfg s.total_bytes a.now rows in
      let kept : Outcome ℕ = (s, ok 0) in
      if leb s.total_bytes s.cfg.target
      then kept
      else when_ok s a.read (
          if length chosen.0 == 0
          then kept
          else when_ok s a.write (evict_victims s a.stays chosen.0 chosen.1, ok chosen.1))

  -- `evict()?` at the end of an ingest, and its result.
  abbrev pub evict_if_over : {A : Type 0} → Store → Answers → A → Outcome A
  evict_if_over s a result =
      let after = evict s a in
      if ltb s.cfg.max_bytes s.total_bytes
      then (after.0, elim after.1 [ err e ↦ err e | ok freed ↦ ok result ])
      else (s, ok result)

  -- The counts of `account_ingest`, before it may evict.
  unfoldable pub account : Store → List ℕ → ℕ → Bool → ℕ → Store
  account s hash len fresh now =
      let c = s.c in
      record s {
        total_bytes = if fresh then fetch_add s.total_bytes len else s.total_bytes;
        blobs = if fresh then fetch_add s.blobs 1 else s.blobs;
        recency = insert hash now s.recency;
        c = record c { ingested_bytes = fetch_add c.ingested_bytes len };
      }

  unfoldable pub account_ingest :
      {A : Type 0} → Store → List ℕ → ℕ → Bool → ℕ → Answers → A → Outcome A
  unfolding account evict
  account_ingest s hash len fresh now later result =
      evict_if_over (account s hash len fresh now) later result

  -- A blob's file is there as a whole or not at all.
  unfoldable pub write_blob_file : Store → List ℕ → List ℕ → Option CasError → Outcome (Unit {0})
  write_blob_file s hash bytes answer =
      if is_none (lookup hash s.files)
      then when_ok s answer (record s { files = insert hash bytes s.files }, ok tt)
      else (s, ok tt)

  -- The row of `bytes`, and whether it is new.
  unfoldable pub insert_row : Store → List ℕ → List ℕ → ℕ → Bool × Store
  insert_row s hash bytes now =
      let inserted =
        backing.chunks.insert hash (record { len = length bytes % 2 ^ 32; last = now }) s.chunks in
      (is_none inserted.0, record s { chunks = inserted.1 })

  -- `later` answers the eviction that an ingest may end with.
  unfoldable pub put_blob : Store → List ℕ → Answers → Answers → Outcome (List ℕ)
  unfolding write_blob_file insert_row account_ingest
  put_blob s bytes a later =
      let hash = backing.blake3 bytes in
      let written = write_blob_file s hash bytes a.file in
      elim written.1 [
        | err e ↦ (written.0, err e)
        | ok _ ↦
            let row = insert_row written.0 hash bytes a.now in
            when_ok written.0 a.write
              (account_ingest row.1 hash (length bytes) row.0 a.now later hash)
      ]

  unfoldable pub touch : Store → List ℕ → ℕ → Option CasError → Store
  touch s hash now answer =
      let s' = record s { recency = insert hash now s.recency } in
      let stale : Bool = elim (lookup hash s.recency) [
        | some prev ↦ leb access_write_granularity (now - prev)
        | none ↦ true
      ] in
      let written : Store = elim answer [
        | some e ↦ s'
        | none ↦ elim (backing.chunks.get hash s.chunks) [
          | none ↦ s'
          | some row ↦ record s' {
            chunks = (backing.chunks.insert hash (record { len = row.len; last = now }) s.chunks).1;
          }
        ]
      ] in
      if stale then written else s'

  -- The file goes, unless its removal fails, even if the transaction then fails.
  unfoldable pub drop_corrupt :
      Store → List ℕ → (stays : Bool) → Option CasError → Outcome (Unit {0})
  drop_corrupt s hash stays answer =
      let gone = record s { files = if stays then s.files else remove hash s.files } in
      let c = s.c in
      let removed = backing.chunks.remove hash s.chunks in
      let dropped : Store = record gone {
        chunks = removed.1;
        recency = remove hash s.recency;
        c = record c { corrupt_dropped = fetch_add c.corrupt_dropped 1 };
      } in
      when_ok gone answer (elim removed.0 [
        | none ↦ (dropped, ok tt)
        | some row ↦ (
          record dropped {
            total_bytes = fetch_sub s.total_bytes row.len;
            blobs = fetch_sub s.blobs 1;
          },
          ok tt,
        )
      ])

  abbrev pub note_miss : Store → Store
  note_miss s = let c = s.c in record s { c = record c { misses = fetch_add c.misses 1 } }

  abbrev pub note_hit : Store → Store
  note_hit s = let c = s.c in record s { c = record c { hits = fetch_add c.hits 1 } }

  -- A blob that cannot be read right is dropped, and the read is a miss.
  abbrev pub drop_and_miss : Store → List ℕ → Answers → Outcome (Option (List ℕ))
  drop_and_miss s hash a =
      let dropped = drop_corrupt s hash (a.stays hash) a.write in
      elim dropped.1 [ err e ↦ (dropped.0, err e) | ok _ ↦ (note_miss dropped.0, ok none) ]

  -- `a.opens` answers the opening of the file, and `a.file` the reads of it.
  unfoldable pub get_blob_range_into :
      Store → List ℕ → (off len : ℕ) → (verify : Bool) → Answers → Outcome (Option (List ℕ))
  unfolding drop_corrupt touch
  get_blob_range_into s hash off len verify a = elim (opened (lookup hash s.files) a.opens) [
    | none ↦ (note_miss s, ok none)
    | some whole ↦
        let range = take len (drop off whole) in
        let bad =
          if verify
          then not (bytes_eq (backing.blake3 whole) hash) || ltb (length whole) (off + len)
          else not (length range == len) in
        let found : Outcome (Option (List ℕ)) =
          (note_hit (touch s hash a.now a.write), ok (some range)) in
        if not (is_none a.file) || bad then drop_and_miss s hash a else found
  ]

  unfoldable pub get_blob_range :
      Store → List ℕ → (off len : ℕ) → (verify : Bool) → Answers → Outcome (Option (List ℕ))
  unfolding get_blob_range_into
  get_blob_range s hash off len verify a = get_blob_range_into s hash off len verify a

  unfoldable pub get_blob : Store → List ℕ → Answers → Outcome (Option (List ℕ))
  unfolding get_blob_range
  get_blob s hash a = when_ok s a.read (elim (backing.chunks.get hash s.chunks) [
    | none ↦ (note_miss s, ok none)
    | some row ↦ get_blob_range s hash 0 row.len false a
  ])

  -- The oldest of 32 open files is closed for a new one.
  unfoldable pub keep_open : Store → List ℕ → List ℕ → Store
  keep_open s hash file =
      let fds = if leb max_open (length s.blob_fds) then drop 1 s.blob_fds else s.blob_fds in
      record s { blob_fds = fds ++ (hash, file) ∷ [] }

  -- The file to send from and the offset in it.
  unfoldable pub blob_file_range :
      Store → List ℕ → (off : ℕ) → Answers → Store × Option (List ℕ × ℕ)
  unfolding keep_open touch
  blob_file_range s hash off a = elim (lookup hash s.blob_fds) [
    | some file ↦ (note_hit (touch s hash a.now a.write), some (file, off))
    | none ↦ elim (opened (lookup hash s.files) a.opens) [
      | none ↦ (s, none)
      | some file ↦ (note_hit (touch (keep_open s hash file) hash a.now a.write), some (file, off))
    ]
  ]
