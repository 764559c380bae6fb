-- ===== src/Cas/Accounts/Blobs.antt =====
-- crates/mist-cas/src/lib.rs: the operations on blobs, and the counters of the store after them.
use mist.Prelude.{
  ℕ, ◌+◌, ◌-◌, ◌%◌, ◌^◌, ◌<◌, Bool, true, false, Option, none, some, List, length, ltb, leb, ◌==◌,
  take, if◌then◌else◌, ◌≡◌, sym, ap, ◌∙◌, inl, inr, arith, Bool-cases, Option-cases, bytes_eq, drop,
  not, ◌||◌,
}
use mist.Prelude.Result.{ok, Result-cases}
use mist.Prelude.Map.{lookup, insert}
use mist.Cas.Store.{
  hash_key, ChunkRow, Backing, Answers, CasError, is_none, opened, access_write_granularity,
}
use mist.Cas.Blobs.{
  Store, account, account_ingest, write_blob_file, put_blob, insert_row, touch, drop_corrupt,
  get_blob_range_into, get_blob, get_blob_range, drop_and_miss, blob_file_range, keep_open, when_ok,
}
use mist.Cas.Accounts.{
  Accounted, insert-new, insert-old, remove-old, remove-absent, evict_if_over-Accounted,
}

module _ ⦃backing : Backing⦄ (size : List ℕ → ℕ) where
  -- Contents that a u32 can measure, and whose hash belongs to no other length.
  abbrev pub Measured : List ℕ → Type 0
  Measured bytes = (length bytes < 2 ^ 32) × (length bytes ≡ size (backing.blake3 bytes))

  pub insert_row-account :
      (s : Store) (bytes : List ℕ) (now : ℕ)
      → Measured bytes
      → Accounted size s
      → Accounted size (
          account
            (insert_row s (backing.blake3 bytes) bytes now).1
            (backing.blake3 bytes)
            (length bytes)
            (insert_row s (backing.blake3 bytes) bytes now).0
            now)
  unfolding insert_row account
  insert_row-account s bytes now m a =
      let h = backing.blake3 bytes in
      let row : ChunkRow = record { len = length bytes % 2 ^ 32; last = now } in
      let same : row.len ≡ length bytes = omega (arith, m.0) in
      let old = backing.chunks.old-insert h row s.chunks in
      elim (Option-cases (backing.chunks.get h s.chunks)) [
        | inl n ↦
            let new = insert-new size s.chunks s.total_bytes s.blobs h row a (same ∙ m.1) n in
            let summed = ap (λ n. (s.total_bytes + n) % 2 ^ 64) (sym same) ∙ new.summed in
            rw old (rw n (record { summed = summed; counted = new.counted; sized = new.sized }))
        | inr found ↦
            let kept =
              insert-old size s.chunks s.total_bytes s.blobs h row found.0 a (same ∙ m.1) found.1 in
            rw old (rw found.1 kept)
      ]

  pub write_blob_file-Accounted :
      (s : Store) (hash bytes : List ℕ) (answer : Option CasError)
      → Accounted size s
      → Accounted size (write_blob_file s hash bytes answer).0
  unfolding write_blob_file
  write_blob_file-Accounted s hash bytes answer a =
      elim (Bool-cases (is_none (lookup hash s.files))) [
        | inl y ↦ rw y (elim (Option-cases answer) [ inl n ↦ rw n a | inr e ↦ rw e.1 a ])
        | inr n ↦ rw n a
      ]

  pub put_blob-Accounted :
      (s : Store) (bytes : List ℕ) (answers later : Answers)
      → Measured bytes
      → Accounted size s
      → Accounted size (put_blob s bytes answers later).0
  unfolding put_blob account_ingest
  put_blob-Accounted s bytes answers later m a =
      let h = backing.blake3 bytes in
      let written = write_blob_file s h bytes answers.file in
      let acc = write_blob_file-Accounted s h bytes answers.file a in
      elim (Result-cases written.1) [
        | inr e ↦ rw (put_blob, e.1) acc
        | inl o ↦
            rw (put_blob, o.1)
              (elim (Option-cases answers.write) [
                | inr e ↦ rw e.1 acc
                | inl w ↦ rw w (
                    evict_if_over-Accounted size
                      (account (insert_row written.0 h bytes answers.now).1 h (length bytes)
                        (insert_row written.0 h bytes answers.now).0 answers.now)
                      later h (insert_row-account written.0 bytes answers.now m acc))
              ])
      ]

  either-Accounted :
      (first : Bool) (s s' : Store)
      → Accounted size s
      → Accounted size s'
      → Accounted size (if first then s else s')
  either-Accounted true s s' a a' = a
  either-Accounted false s s' a a' = a'

  pub touch-Accounted :
      (s : Store) (hash : List ℕ) (now : ℕ) (answer : Option CasError)
      → Accounted size s
      → Accounted size (touch s hash now answer)
  unfolding touch
  touch-Accounted s hash now answer a =
      let s' = record s { recency = insert hash now s.recency } in
      let stale : Bool = elim (lookup hash s.recency) [
        | some prev ↦ leb access_write_granularity (now - prev)
        | none ↦ true
      ] in
      elim (Option-cases answer) [
        | inr e ↦ rw (touch, e.1) (either-Accounted stale s' s' a a)
        | inl w ↦
            rw (touch, w)
              (elim (Option-cases (backing.chunks.get hash s.chunks)) [
                | inl n ↦ rw n (either-Accounted stale s' s' a a)
                | inr found ↦ rw found.1 (
                    let row : ChunkRow = record { len = found.0.len; last = now } in
                    let written : Store = record s' {
                      chunks = (backing.chunks.insert hash row s.chunks).1;
                    } in
                    either-Accounted stale written s'
                      (insert-old size s.chunks s.total_bytes s.blobs hash row found.0 a
                        (a.sized hash found.0 found.1) found.1)
                      a)
              ])
      ]

  pub drop_corrupt-Accounted :
      (s : Store) (hash : List ℕ) (stays : Bool) (answer : Option CasError)
      → Accounted size s
      → Accounted size (drop_corrupt s hash stays answer).0
  unfolding drop_corrupt
  drop_corrupt-Accounted s hash stays answer a = elim (Option-cases answer) [
    | inr e ↦ rw e.1 a
    | inl n ↦ rw n (
        rw (backing.chunks.old-remove hash s.chunks)
          (elim (Option-cases (backing.chunks.get hash s.chunks)) [
            | inl absent ↦
                let kept = remove-absent size s.chunks s.total_bytes s.blobs hash a absent in
                rw absent kept
            | inr found ↦
                let less = remove-old size s.chunks s.total_bytes s.blobs hash found.0 a found.1 in
                rw found.1 less
          ]))
  ]

  drop_and_miss-Accounted :
      (s : Store) (hash : List ℕ) (answers : Answers)
      → Accounted size s
      → Accounted size (drop_and_miss s hash answers).0
  drop_and_miss-Accounted s hash answers a =
      let acc = drop_corrupt-Accounted s hash (answers.stays hash) answers.write a in
      elim (Result-cases (drop_corrupt s hash (answers.stays hash) answers.write).1) [
        | inr e ↦ rw (drop_and_miss, e.1) acc
        | inl o ↦ rw (drop_and_miss, o.1) acc
      ]

  pub get_blob_range_into-Accounted :
      (s : Store) (hash : List ℕ) (off len : ℕ) (verify : Bool) (a : Answers)
      → Accounted size s
      → Accounted size (get_blob_range_into s hash off len verify a).0
  unfolding get_blob_range_into
  get_blob_range_into-Accounted s hash off len verify answers a =
      elim (Option-cases (opened (lookup hash s.files) answers.opens)) [
        | inl n ↦ rw (get_blob_range_into, n) a
        | inr found ↦
            rw (get_blob_range_into, found.1)
              (let whole = found.0 in
                let range = take len (drop off whole) in
                let bad =
                  if verify
                  then not (bytes_eq (backing.blake3 whole) hash) || ltb (length whole) (off + len)
                  else not (length range == len) in
                elim (Bool-cases (not (is_none answers.file) || bad)) [
                  | inl y ↦ rw y (drop_and_miss-Accounted s hash answers a)
                  | inr fine ↦ rw fine (touch-Accounted s hash answers.now answers.write a)
                ])
      ]

  pub blob_file_range-Accounted :
      (s : Store) (hash : List ℕ) (off : ℕ) (a : Answers)
      → Accounted size s
      → Accounted size (blob_file_range s hash off a).0
  unfolding blob_file_range keep_open
  blob_file_range-Accounted s hash off answers a = elim (Option-cases (lookup hash s.blob_fds)) [
    | inr found ↦ rw (blob_file_range, found.1) (touch-Accounted s hash answers.now answers.write a)
    | inl n ↦
        rw (blob_file_range, n)
          (elim (Option-cases (opened (lookup hash s.files) answers.opens)) [
            | inl m ↦ rw m a
            | inr file ↦
                rw file.1
                  (touch-Accounted (keep_open s hash file.0) hash answers.now answers.write a)
          ])
  ]

  pub get_blob-Accounted :
      (s : Store) (hash : List ℕ) (a : Answers)
      → Accounted size s
      → Accounted size (get_blob s hash a).0
  unfolding get_blob get_blob_range
  get_blob-Accounted s hash answers a = elim (Option-cases answers.read) [
    | inr e ↦ rw (get_blob, e.1) a
    | inl r ↦
        rw (get_blob, r)
          (elim (Option-cases (backing.chunks.get hash s.chunks)) [
            | inl n ↦ rw n a
            | inr found ↦
                rw found.1 (get_blob_range_into-Accounted s hash 0 found.0.len false answers a)
          ])
  ]

  pub either_none :
      (answer : Option CasError) (s s' : Store)
      → Accounted size s
      → Accounted size s'
      → Accounted size (when_ok s answer (s', ok tt)).0
  either_none none s s' a a' = a'
  either_none (some e) s s' a a' = a
