-- ===== src/Cas/Versions.antt =====
-- crates/mist-cas/src/lib.rs: what the manifests read as after one chunk was merged into one of them.
use mist.Prelude.{
  ℕ, suc, ◌^◌, ◌≤◌, ◌<◌, Bool, true, false, not, ◌&&◌, Option, none, some, List, [], ◌∷◌, any, keep,
  ltb, ◌==◌, if◌then◌else◌, ◌≡◌, refl, sym, ap, ◌∙◌, inl, inr, arith, Bool-cases,
}
use mist.Prelude.Result.{Result, ok}
use mist.Prelude.Map.{Map, lookup}
use mist.Cas.Store.{
  manifest_key, ManifestKey, ChunkRef, Backing, CasError, same_node, key_eq, key_eq_iff, key_le,
  is_none,
}
use mist.Cas.Blobs.{Store}
use mist.Cas.Manifests.{
  Manifests, merge, keys_of, first_of, last_of, remove_keys, stale_keys, decoded, unwrap_or_default,
  merged_manifest, merge_chunk, get_manifest,
}

-- Offsets from `low` on, each chunk after the one before.
abbrev pub Ascends : ℕ → List ChunkRef → Type 0
Ascends low [] = Unit
Ascends low (c ∷ chunks) = (low ≤ c.off) × Ascends (suc c.off) chunks

unfoldable pub ref_at : ℕ → List ChunkRef → Option ChunkRef
ref_at off [] = none
ref_at off (c ∷ chunks) = if c.off == off then some c else ref_at off chunks

merge-Ascends :
    (low : ℕ) (chunk : ChunkRef) (chunks : List ChunkRef)
    → low ≤ chunk.off
    → Ascends low chunks
    → Ascends low (merge chunk chunks)
unfolding merge
merge-Ascends low chunk [] l a = (l, tt)
merge-Ascends low chunk (c ∷ chunks) l a = elim (Bool-cases (ltb c.off chunk.off)) [
  | inl t ↦ rw t (a.0, merge-Ascends (suc c.off) chunk chunks (ground arith) a.1)
  | inr f ↦ rw f (elim (Bool-cases (c.off == chunk.off)) [
    | inl t ↦ let same : c.off ≡ chunk.off = ground arith in rw t (l, rw (sym same) a.1)
    | inr g ↦ rw g (l, (ground arith, a.1))
  ])
]

ref_at-merge :
    (off : ℕ) (chunk : ChunkRef) (chunks : List ChunkRef)
    → ref_at off (merge chunk chunks) ≡ (if chunk.off == off then some chunk else ref_at off chunks)
unfolding merge ref_at
ref_at-merge off chunk [] = refl
ref_at-merge off chunk (c ∷ chunks) = ground (arith, ref_at-merge off chunk chunks)

any-keys_of :
    {V : Type 0} (k : ManifestKey) (m : Map ManifestKey V)
    → any (key_eq k) (keys_of m) ≡ not (is_none (lookup k m))
unfolding keys_of any lookup
any-keys_of k [] = refl
any-keys_of k ((j, v) ∷ m) = ground (arith, any-keys_of k m)

any-keep :
    (p : ManifestKey → Bool) (k : ManifestKey) (ks : List ManifestKey)
    → any (key_eq k) (keep p ks) ≡ (p k && any (key_eq k) ks)
unfolding any keep
any-keep p k [] = ground arith
any-keep p k (j ∷ ks) =
    let same : key_eq k j ≡ true → p k ≡ p j = λ t. ap p ((key_eq_iff k j).0 t) in
    elim (Bool-cases (p j)) [
      | inl t ↦ rw t (ground (arith, any-keep p k ks, same, t))
      | inr f ↦ rw f (ground (arith, any-keep p k ks, same, f))
    ]

-- Between the first and the last version of a node stand its versions only.
in_range :
    (key k : ManifestKey)
    → k.content_version < 2 ^ 64
    → (key_le (first_of key) k && key_le k (last_of key)) ≡ same_node key k
in_range key k b = ground arith

module _ ⦃backing : Backing⦄ where
  get-remove_keys :
      (ks : List ManifestKey) (k : ManifestKey) (t : Manifests)
      → backing.manifests.get k (remove_keys ks t)
        ≡ (if any (key_eq k) ks then none else backing.manifests.get k t)
  unfolding remove_keys any
  get-remove_keys [] k t = refl
  get-remove_keys (j ∷ ks) k t = ground (
    arith,
    get-remove_keys ks k (backing.manifests.remove j t).1,
    backing.manifests.get-remove j k t,
  )

  -- The other versions of a node go, and nothing else.
  get-fresh :
      (key k : ManifestKey) (t : Manifests)
      → k.content_version < 2 ^ 64
      → backing.manifests.get k (remove_keys (stale_keys key t) t) ≡ (
          if same_node key k
          then if k.content_version == key.content_version then backing.manifests.get k t else none
          else backing.manifests.get k t)
  unfolding stale_keys
  get-fresh key k t b =
      let within = backing.manifests.range (first_of key) (last_of key) t in
      ground (
        arith,
        get-remove_keys (stale_keys key t) k t,
        any-keep (λ j. not (j.content_version == key.content_version)) k (keys_of within),
        any-keys_of k within,
        backing.manifests.lookup-range (first_of key) (last_of key) k t,
        in_range key k b,
      )

  abbrev old_refs : ManifestKey → Manifests → List ChunkRef
  old_refs key t = unwrap_or_default (decoded (backing.manifests.get key t))

  decoded-merged_manifest :
      (key k : ManifestKey) (chunk : ChunkRef) (t : Manifests)
      → key.content_version < 2 ^ 64
      → k.content_version < 2 ^ 64
      → decoded (backing.manifests.get k (merged_manifest key chunk t)) ≡ (
          if key_eq key k
          then some (merge chunk (old_refs key t))
          else if same_node key k
          then none
          else decoded (backing.manifests.get k t))
  unfolding merged_manifest decoded
  decoded-merged_manifest key k chunk t bkey b =
      let t' = remove_keys (stale_keys key t) t in
      let own : backing.manifests.get key t' ≡ backing.manifests.get key t =
        ground (arith, get-fresh key key t bkey) in
      let new = backing.to_allocvec (merge chunk (old_refs key t')) in
      let read = backing.manifests.get-insert key k new t' in
      elim (Bool-cases (key_eq key k)) [
        | inl y ↦ rw y (
            let bytes : backing.manifests.get k (merged_manifest key chunk t) ≡ some new =
              read ∙ ap (λ c. if c then some new else backing.manifests.get k t') y in
            ap decoded bytes
            ∙ backing.from_bytes-to_allocvec (merge chunk (old_refs key t'))
            ∙ ap (λ o. some (merge chunk (unwrap_or_default (decoded o)))) own)
        | inr n ↦ rw n (
            let bytes : backing.manifests.get k (merged_manifest key chunk t)
                ≡ backing.manifests.get k t' =
              read ∙ ap (λ c. if c then some new else backing.manifests.get k t') n in
            ap decoded (bytes ∙ get-fresh key k t b) ∙ elim (Bool-cases (same_node key k)) [
              | inl y ↦ rw y (
                  let other : (k.content_version == key.content_version) ≡ false = ground arith in
                  rw other refl)
              | inr m ↦ rw m refl
            ])
      ]

  abbrev pub refs_of : Store → ManifestKey → List ChunkRef
  refs_of s key = unwrap_or_default (decoded (backing.manifests.get key s.manifests))

  ok_cases :
      (b c : Bool) (x y : Option (List ChunkRef))
      → ◌≡◌ {A = Result CasError (Option (List ChunkRef))}
          (ok (if b then x else if c then none else y))
          (if b then ok x else if c then ok none else ok y)
  ok_cases true c x y = refl
  ok_cases false true x y = refl
  ok_cases false false x y = refl

  -- Merging one chunk into the manifest of a version, whose offsets ascend, when the transaction
  -- commits: that version then reads as its old chunks with the new one in its place, in the order of
  -- the offsets and with the new chunk alone at its offset; every other version of the node reads as
  -- missing; and the manifests of other nodes read as before.
  pub merge_chunk-get_manifest :
      (s : Store) (key k : ManifestKey) (chunk : ChunkRef)
      → key.content_version < 2 ^ 64
      → k.content_version < 2 ^ 64
      → Ascends 0 (refs_of s key)
      → (get_manifest (merge_chunk s key chunk none).0 k none ≡ (
          if key_eq key k
          then ok (some (merge chunk (refs_of s key)))
          else if same_node key k
          then ok none
          else get_manifest s k none))
        × (Ascends 0 (merge chunk (refs_of s key))
            × ((off : ℕ)
                → ref_at off (merge chunk (refs_of s key))
                  ≡ (if chunk.off == off then some chunk else ref_at off (refs_of s key))))
  unfolding merge_chunk merged_manifest get_manifest decoded
  merge_chunk-get_manifest s key k chunk bkey b a =
      let read = ap ok (decoded-merged_manifest key k chunk s.manifests bkey b) in
      let cases =
        ok_cases (key_eq key k) (same_node key k) (some (merge chunk (refs_of s key)))
          (decoded (backing.manifests.get k s.manifests)) in
      (
        read ∙ cases,
        (
          merge-Ascends 0 chunk (refs_of s key) (omega arith) a,
          λ off. ref_at-merge off chunk (refs_of s key),
        ),
      )
