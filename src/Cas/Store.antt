-- ===== src/Cas/Store.antt =====
-- crates/mist-cas/src/lib.rs: the store's data and its blobs. The redb and postcard crates and blake3
-- are parameters. The files under `blobs/` are a map from hashes to contents, and an open file is its
-- contents, since a blob's file is written once. `evict_to` of the
-- source is a fraction: here is the target it gives, `(max_bytes as f64 * evict_to) as u64`.
use mist.Prelude.{
  ℕ, ◌+◌, ◌-◌, ◌%◌, ◌^◌, Bool, true, false, ◌&&◌, ◌||◌, Option, none, some, List, [], ◌∷◌, ◌++◌,
  any, ltb, leb, ◌==◌, if◌then◌else◌, ◌≡◌, ◌↔◌, arith, bytes_eq, bytes_eq_refl, eq_of_bytes_eq,
}
use mist.Prelude.Map.{Map, Eq, lookup, remove}
use mist.Bytes.{from_be_bytes}
use mist.Cas.Table.{Table}

pub data CasError : Type 0 where
  io db : CasError

pub record ManifestKey : Type 0 where
  pub share : ℕ
  pub ino : ℕ
  pub generation : ℕ
  pub content_version : ℕ

abbrev pub same_node : ManifestKey → ManifestKey → Bool
same_node a b = a.share == b.share && (a.ino == b.ino && a.generation == b.generation)

abbrev pub key_eq : ManifestKey → ManifestKey → Bool
key_eq a b = same_node a b && a.content_version == b.content_version

pub key_eq_iff : (a b : ManifestKey) → (key_eq a b ≡ true) ↔ (a ≡ b)
key_eq_iff a b = (λ h. ground arith, λ h. ground arith)

instance abbrev pub manifest_key : Eq ManifestKey
manifest_key = record { beq = key_eq; beq_iff = key_eq_iff }

-- The order of the tuples.
abbrev pub key_le : ManifestKey → ManifestKey → Bool
key_le a b =
    ltb a.share b.share
    || (a.share == b.share
        && (ltb a.ino b.ino
            || (a.ino == b.ino
                && (ltb a.generation b.generation
                    || (a.generation == b.generation && leb a.content_version b.content_version)))))

-- A hash is its 32 bytes.
pub bytes_eq_iff : (a b : List ℕ) → (bytes_eq a b ≡ true) ↔ (a ≡ b)
bytes_eq_iff a b = (eq_of_bytes_eq a b, λ h. rw h (bytes_eq_refl b))

instance abbrev pub hash_key : Eq (List ℕ)
hash_key = record { beq = bytes_eq; beq_iff = bytes_eq_iff }

abbrev pub hash_le : List ℕ → List ℕ → Bool
hash_le a b = leb (from_be_bytes a) (from_be_bytes b)

pub record ChunkRef : Type 0 where
  pub off : ℕ
  pub len : ℕ
  pub hash : List ℕ

-- A row of `CHUNKS`: `(len, last_access unix-secs)`
pub record ChunkRow : Type 0 where
  pub len : ℕ
  pub last : ℕ

-- The crates the store is built on.
pub record Backing : Type 1 where
  pub manifests : Table ManifestKey (List ℕ) key_le
  pub chunks : Table (List ℕ) ChunkRow hash_le
  pub to_allocvec : List ChunkRef → List ℕ
  pub from_bytes : List ℕ → Option (List ChunkRef)
  pub from_bytes-to_allocvec : (refs : List ChunkRef) → from_bytes (to_allocvec refs) ≡ some refs
  pub blake3 : List ℕ → List ℕ

pub record CasConfig : Type 0 where
  pub max_bytes : ℕ
  pub target : ℕ

pub record Counters : Type 0 where
  pub hits : ℕ
  pub misses : ℕ
  pub ingested_bytes : ℕ
  pub evictions : ℕ
  pub evicted_bytes : ℕ
  pub corrupt_dropped : ℕ

pub record CasStore (M C : Type 0) : Type 0 where
  pub cfg : CasConfig
  pub manifests : M
  pub chunks : C
  pub files : Map (List ℕ) (List ℕ)
  pub total_bytes : ℕ
  pub blobs : ℕ
  pub recency : Map (List ℕ) ℕ
  pub blob_fds : List (List ℕ × List ℕ)
  pub c : Counters

-- What the clock, the file system and the database answer to one operation: the opening of a blob's
-- file, the reads or writes of it, the transactions that read and write, and the files whose removal
-- fails. A transaction that fails changes no table.
pub record Answers : Type 0 where
  pub now : ℕ
  pub opens : Option CasError
  pub file : Option CasError
  pub read : Option CasError
  pub write : Option CasError
  pub stays : List ℕ → Bool

abbrev pub eviction_protection : ℕ
eviction_protection = 600

abbrev pub access_write_granularity : ℕ
access_write_granularity = 3600

-- `fetch_add` and `fetch_sub` of a u64
abbrev pub fetch_add : ℕ → ℕ → ℕ
fetch_add a n = (a + n) % 2 ^ 64

abbrev pub fetch_sub : ℕ → ℕ → ℕ
fetch_sub a n = (a + (2 ^ 64 - n % 2 ^ 64)) % 2 ^ 64

abbrev pub max : ℕ → ℕ → ℕ
max a b = if leb a b then b else a

abbrev pub unwrap_or : ℕ → Option ℕ → ℕ
unwrap_or d none = d
unwrap_or d (some v) = v

abbrev pub is_none {ℓ} : {A : Type ℓ} → Option A → Bool
is_none none = true
is_none (some _) = false

-- The rows with the later of the two times of access.
unfoldable pub merged : Map (List ℕ) ℕ → Map (List ℕ) ChunkRow → Map (List ℕ) ChunkRow
merged recency [] = []
merged recency ((h, row) ∷ rows) =
    (h, record row { last = max (unwrap_or 0 (lookup h recency)) row.last }) ∷ merged recency rows

-- `sort_by_key(|&(_, _, last)| last)`, which is stable
unfoldable pub place : List ℕ → ChunkRow → Map (List ℕ) ChunkRow → Map (List ℕ) ChunkRow
place h row [] = (h, row) ∷ []
place h row ((j, r) ∷ rows) =
    let rest = place h row rows in
    if leb row.last r.last then (h, row) ∷ (j, r) ∷ rows else (j, r) ∷ rest

unfoldable pub sort_by_last : Map (List ℕ) ChunkRow → Map (List ℕ) ChunkRow
unfolding place
sort_by_last [] = []
sort_by_last ((h, row) ∷ rows) = place h row (sort_by_last rows)

-- `contains` of a set of hashes
abbrev pub contains : List ℕ → List (List ℕ) → Bool
contains h hashes = any (bytes_eq h) hashes

abbrev pub is_protected : ℕ → ChunkRow → Bool
is_protected now row = ltb (now - row.last) eviction_protection

-- One pass over the rows: the victims, and the bytes that are freed with those before it.
unfoldable pub choose :
    (skip : List ℕ → ChunkRow → Bool)
    → (total target freed : ℕ) → Map (List ℕ) ChunkRow
    → List (List ℕ) × ℕ
choose skip total target freed [] = ([], freed)
choose skip total target freed ((h, row) ∷ rows) =
    let skipped = skip h row in
    let rest = choose skip total target (if skipped then freed else freed + row.len) rows in
    if leb (total - freed) target
    then ([], freed)
    else if skipped
    then rest
    else (h ∷ rest.0, rest.1)

-- The victims of an eviction: unprotected rows first, and any if those do not reach the hard cap.
unfoldable pub victims_of : CasConfig → (total now : ℕ) → Map (List ℕ) ChunkRow → List (List ℕ) × ℕ
unfolding choose
victims_of cfg total now rows =
    let soft = choose (λ h row. is_protected now row) total cfg.target 0 rows in
    let hard = choose (λ h row. contains h soft.0) total cfg.target soft.1 rows in
    if ltb cfg.max_bytes (total - soft.1) then (soft.0 ++ hard.0, hard.1) else soft

-- `for h in hashes { map.remove(h) }`
unfoldable pub remove_all : {V : Type 0} → List (List ℕ) → Map (List ℕ) V → Map (List ℕ) V
remove_all [] m = m
remove_all (h ∷ hashes) m = remove_all hashes (remove h m)

-- `let _ = remove_file(h)` for each: a file whose removal fails stays.
unfoldable pub remove_files :
    (List ℕ → Bool) → List (List ℕ) → Map (List ℕ) (List ℕ) → Map (List ℕ) (List ℕ)
remove_files stays [] m = m
remove_files stays (h ∷ hashes) m = remove_files stays hashes (if stays h then m else remove h m)

-- `File::open(path)` of a file that may be there
abbrev pub opened : Option (List ℕ) → Option CasError → Option (List ℕ)
opened file none = file
opened file (some e) = none
