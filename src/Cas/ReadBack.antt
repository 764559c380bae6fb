-- ===== src/Cas/ReadBack.antt =====
-- crates/mist-cas/src/lib.rs: a blob that was stored is read back.
use mist.Prelude.{
  ℕ, zero, suc, ◌+◌, ◌^◌, ◌≤◌, ◌<◌, Bool, true, false, Option, none, some, List, [], ◌∷◌, length,
  take, drop, ltb, ◌≡◌, refl, ◌∙◌, ◌⊎◌, inl, inr, arith, Bool-cases, bytes_eq_refl, length-drop,
  le→ltb-false, ==_refl,
}
use mist.Prelude.Result.{ok}
use mist.Prelude.Map.{lookup, lookup-insert}
use mist.Cas.Store.{hash_key, Backing, CasError, Answers}
use mist.Cas.Blobs.{
  Store, write_blob_file, insert_row, account, account_ingest, put_blob, get_blob_range_into,
  get_blob_range,
}

length-take {ℓ} : {A : Type ℓ} (n : ℕ) (xs : List A) → n ≤ length xs → length (take n xs) ≡ n
length-take zero xs h = refl
length-take (suc n) [] h = omega (arith, h)
length-take (suc n) (x ∷ xs) h = omega (arith, length-take n xs (omega (arith, h)))

module _ ⦃backing : Backing⦄ where
  written :
      (s : Store) (hash bytes : List ℕ) (answer : Option CasError)
      → (lookup hash s.files ≡ none) ⊎ (lookup hash s.files ≡ some bytes)
      → answer ≡ none
      → (lookup hash (write_blob_file s hash bytes answer).0.files ≡ some bytes)
        × (((write_blob_file s hash bytes answer).1 ≡ ok tt)
            × (((write_blob_file s hash bytes answer).0.total_bytes ≡ s.total_bytes)
                × ((write_blob_file s hash bytes answer).0.cfg.max_bytes ≡ s.cfg.max_bytes)))
  unfolding write_blob_file
  written s hash bytes answer (inl n) f = rw n (
      rw f (
        lookup-insert hash hash bytes s.files ∙ rw (bytes_eq_refl hash) refl,
        (refl, (refl, refl)),
      ))
  written s hash bytes answer (inr found) f = rw found (found, (refl, (refl, refl)))

  -- A file with the right contents, at a range within them, is read as that range.
  read_whole_file :
      (s : Store) (bytes : List ℕ) (off len : ℕ) (verify : Bool) (a : Answers)
      → lookup (backing.blake3 bytes) s.files ≡ some bytes
      → off + len ≤ length bytes
      → a.opens ≡ none
      → a.file ≡ none
      → (get_blob_range s (backing.blake3 bytes) off len verify a).1
        ≡ ok (some (take len (drop off bytes)))
  unfolding get_blob_range get_blob_range_into
  read_whole_file s bytes off len true a found fits o f =
      rw (get_blob_range_into, o, found)
        (rw f (
          rw (bytes_eq_refl (backing.blake3 bytes))
            (rw (le→ltb-false (length bytes) (off + len) fits) refl)))
  read_whole_file s bytes off len false a found fits o f =
      let whole : length (take len (drop off bytes)) ≡ len =
        length-take len (drop off bytes) (omega (arith, length-drop off bytes)) in
      rw (get_blob_range_into, o, found) (rw f (rw whole (rw (==_refl len) refl)))

  put_blob-stored :
      (s : Store) (bytes : List ℕ) (a later : Answers)
      → (lookup (backing.blake3 bytes) s.files ≡ none)
        ⊎ (lookup (backing.blake3 bytes) s.files ≡ some bytes)
      → a.file ≡ none
      → a.write ≡ none
      → s.total_bytes + length bytes ≤ s.cfg.max_bytes
      → s.cfg.max_bytes < 2 ^ 64
      → put_blob s bytes a later ≡ (
        (let row =
              insert_row
                (write_blob_file s (backing.blake3 bytes) bytes a.file).0
                (backing.blake3 bytes)
                bytes
                a.now in
            account row.1 (backing.blake3 bytes) (length bytes) row.0 a.now),
        ok (backing.blake3 bytes),
      )
  unfolding put_blob account_ingest account insert_row
  put_blob-stored s bytes a later fresh f w room small =
      let hash = backing.blake3 bytes in
      let there = written s hash bytes a.file fresh f in
      let row = insert_row (write_blob_file s hash bytes a.file).0 hash bytes a.now in
      let after = account row.1 hash (length bytes) row.0 a.now in
      let under : ltb after.cfg.max_bytes after.total_bytes ≡ false = elim (Bool-cases row.0) [
        | inl y ↦ rw y (ground (arith, there.1.1.0, there.1.1.1, room, small))
        | inr n ↦ rw n (ground (arith, there.1.1.0, there.1.1.1, room, small))
      ] in
      rw (put_blob, there.1.0) (rw w (rw under refl))

  -- Contents that were stored (with no other file under their hash, room for them under the hard cap,
  -- and no error), are read back at any range within them, with or without verification.
  pub get_blob_range-put_blob :
      (s : Store) (bytes : List ℕ) (a later : Answers) (off len : ℕ) (verify : Bool) (b : Answers)
      → (lookup (backing.blake3 bytes) s.files ≡ none)
        ⊎ (lookup (backing.blake3 bytes) s.files ≡ some bytes)
      → a.file ≡ none
      → a.write ≡ none
      → b.opens ≡ none
      → b.file ≡ none
      → s.total_bytes + length bytes ≤ s.cfg.max_bytes
      → s.cfg.max_bytes < 2 ^ 64
      → off + len ≤ length bytes
      → ((put_blob s bytes a later).1 ≡ ok (backing.blake3 bytes))
        × ((get_blob_range (put_blob s bytes a later).0 (backing.blake3 bytes) off len verify b).1
            ≡ ok (some (take len (drop off bytes))))
  unfolding account insert_row
  get_blob_range-put_blob s bytes a later off len verify b fresh f w o g room small fits =
      let hash = backing.blake3 bytes in
      let there = written s hash bytes a.file fresh f in
      let row = insert_row (write_blob_file s hash bytes a.file).0 hash bytes a.now in
      let after = account row.1 hash (length bytes) row.0 a.now in
      let stored = put_blob-stored s bytes a later fresh f w room small in
      rw stored (refl, read_whole_file after bytes off len verify b there.0 fits o g)
