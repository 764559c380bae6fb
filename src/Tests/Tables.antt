-- ===== src/Tests/Tables.antt =====
-- Association lists as the tables, and codings, that the tests of the content store run on.
use mist.Prelude.{
  ℕ, zero, suc, Bool, true, ◌&&◌, Option, none, some, List, [], ◌∷◌, map, if◌then◌else◌, ◌≡◌, refl,
  ap, ◌∙◌, arith,
}
use mist.Prelude.Map.{Map, Eq, lookup, insert, remove, lookup-insert, lookup-remove}
use mist.Prelude.Map.Unique.{Unique, insert-Unique, remove-Unique}
use mist.Cas.Table.{Table}
use mist.Cas.Store.{Backing, ChunkRef, hash_key, manifest_key, key_le, hash_le}

pub and_if :
    {V : Type 0} (a b : Bool) (o : Option V)
    → (if a && b then o else none) ≡ (if a then if b then o else none else none)
and_if a b o = ground arith

module _ {K V : Type 0} ⦃e : Eq K⦄ where
  unfoldable pub keep_keys : (K → Bool) → Map K V → Map K V
  keep_keys p [] = []
  keep_keys p ((k, v) ∷ m) = let rest = keep_keys p m in if p k then (k, v) ∷ rest else rest

  pub lookup-keep_keys :
      (p : K → Bool) (k : K) (m : Map K V)
      → lookup k (keep_keys p m) ≡ (if p k then lookup k m else none)
  unfolding lookup keep_keys
  lookup-keep_keys p k [] = ground arith
  lookup-keep_keys p k ((j, v) ∷ m) =
      let same : e.beq j k ≡ true → p j ≡ p k = λ t. ap p ((e.beq_iff j k).0 t) in
      ground (arith, lookup-keep_keys p k m, same)

  pub empty_lookup : (k : K) (m : Map K V) → m ≡ [] → lookup k m ≡ none
  unfolding lookup
  empty_lookup k m e = rw e refl

  abbrev pub listed_table : (le : K → K → Bool) → Table K V le
  listed_table le = record {
    T = (m : Map K V) × Unique m;
    empty = ([], tt);
    get = λ k t. lookup k t.0;
    insert = λ k v t. (lookup k t.0, (insert k v t.0, insert-Unique k v t.0 t.1));
    remove = λ k t. (lookup k t.0, (remove k t.0, remove-Unique k t.0 t.1));
    iter = λ t. t.0;
    range = λ low high t. keep_keys (λ k. le low k && le k high) t.0;
    get-empty = λ k. empty_lookup k [] refl;
    old-insert = λ k v t. refl;
    get-insert = λ k j v t. lookup-insert k j v t.0;
    old-remove = λ k t. refl;
    get-remove = λ k j t. lookup-remove k j t.0;
    iter-Unique = λ t. t.1;
    lookup-iter = λ k t. refl;
    lookup-range = λ low high k t.
        lookup-keep_keys (λ j. le low j && le j high) k t.0
        ∙ and_if (le low k) (le k high) (lookup k t.0);
  }

-- Lists of lists as one list, and chunk references as lists.
abbrev pub pack : List ℕ → List ℕ → List ℕ
pack [] rest = 0 ∷ rest
pack (x ∷ xs) rest = suc x ∷ pack xs rest

abbrev pub pack_all : List (List ℕ) → List ℕ
pack_all [] = []
pack_all (xs ∷ rest) = pack xs (pack_all rest)

abbrev pub push : ℕ → List (List ℕ) → List (List ℕ)
push x [] = []
push x (xs ∷ rest) = (x ∷ xs) ∷ rest

abbrev pub unpack_all : List ℕ → List (List ℕ)
unpack_all [] = []
unpack_all (zero ∷ bytes) = [] ∷ unpack_all bytes
unpack_all (suc x ∷ bytes) = push x (unpack_all bytes)

pub unpack-pack : (xs bytes : List ℕ) → unpack_all (pack xs bytes) ≡ xs ∷ unpack_all bytes
unpack-pack [] bytes = refl
unpack-pack (x ∷ xs) bytes = ap (push x) (unpack-pack xs bytes)

pub unpack_all-pack_all : (ls : List (List ℕ)) → unpack_all (pack_all ls) ≡ ls
unpack_all-pack_all [] = refl
unpack_all-pack_all (xs ∷ ls) = unpack-pack xs (pack_all ls) ∙ ap (xs ∷◌) (unpack_all-pack_all ls)

abbrev pub as_list : ChunkRef → List ℕ
as_list c = c.off ∷ c.len ∷ c.hash

abbrev pub as_ref : List ℕ → ChunkRef
as_ref [] = record { off = 0; len = 0; hash = [] }
as_ref (off ∷ []) = record { off = off; len = 0; hash = [] }
as_ref (off ∷ len ∷ hash) = record { off = off; len = len; hash = hash }

pub as_refs : (refs : List ChunkRef) → map as_ref (map as_list refs) ≡ refs
as_refs [] = refl
as_refs (c ∷ refs) = ap (c ∷◌) (as_refs refs)

-- The hash of contents is the contents.
instance abbrev pub listed_store : Backing
listed_store = record {
  manifests = listed_table key_le;
  chunks = listed_table hash_le;
  to_allocvec = λ refs. pack_all (map as_list refs);
  from_bytes = λ bytes. some (map as_ref (unpack_all bytes));
  from_bytes-to_allocvec = λ refs.
      ap (λ ls. some (map as_ref ls)) (unpack_all-pack_all (map as_list refs))
      ∙ ap some (as_refs refs);
  blake3 = λ bytes. bytes;
}
