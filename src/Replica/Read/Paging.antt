-- ===== src/Replica/Read/Paging.antt =====
-- Directory pages of crates/mist-replica/src/lib.rs as stretches of the live entries.
use mist.Prelude.{
  ℕ, zero, suc, ◌-◌, ◌≤◌, ◌<◌, true, false, List, [], ◌∷◌, ◌++◌, length, take, drop, keep, ltb, leb,
  ◌≡◌, refl, sym, ap, ◌∙◌, arith, inl, inr, Bool-cases, append-nil, append_assoc, length-append,
  map,
}
use mist.Replica.Hashing.{Hashing}
use mist.Replica.Dir.{CEnt, Dir, alive, from_partition_point, range_after}
use mist.Replica.Dir.Slots.{ReadDirEntry, slots, live_of, entry_in}
use mist.Replica.Dir.Valid.{Ascending, view, IsWellFormed}
use mist.Replica.Read.{fill, page}

-- The entries behind a cookie.
pub later : ℕ → List ReadDirEntry → List ReadDirEntry
later cookie = keep (λ e. ltb cookie e.cookie)

map-keep :
    (arena : List ℕ) (es : List CEnt)
    → map (entry_in arena) (keep alive es) ≡ live_of (slots arena es)
unfolding keep
map-keep arena [] = refl
map-keep arena (e ∷ es) = elim (Bool-cases (alive e)) [
  | inl t ↦ rw t (ap (λ l. entry_in arena e ∷ l) (map-keep arena es))
  | inr f ↦ rw f (map-keep arena es)
]

all_later :
    (arena : List ℕ) (lo hi cookie : ℕ) (es : List CEnt)
    → cookie < lo
    → Ascending lo hi es
    → later cookie (live_of (slots arena es)) ≡ live_of (slots arena es)
unfolding later keep
all_later arena lo hi cookie [] h asc = refl
all_later arena lo hi cookie (e ∷ es) h asc =
    let above : ltb cookie e.cookie ≡ true = ground (arith, asc.0) in
    let rest = all_later arena (suc e.cookie) hi cookie es (omega (arith, asc.0)) asc.1 in
    elim (Bool-cases (alive e)) [
      | inl t ↦ rw (t, above) (ap (λ l. entry_in arena e ∷ l) rest)
      | inr f ↦ rw f rest
    ]

range_later :
    (arena : List ℕ) (lo hi cookie : ℕ) (es : List CEnt)
    → Ascending lo hi es
    → map (entry_in arena) (keep alive (from_partition_point (λ e. leb e.cookie cookie) es))
      ≡ later cookie (live_of (slots arena es))
unfolding from_partition_point
range_later arena lo hi cookie [] asc = unfold later keep in refl
range_later arena lo hi cookie (e ∷ es) asc = elim (Bool-cases (leb e.cookie cookie)) [
  | inl below ↦
      let skip : ltb cookie e.cookie ≡ false = ground arith in
      rw below (
        range_later arena (suc e.cookie) hi cookie es asc.1
        ∙ unfold later keep in elim (Bool-cases (alive e)) [ inl t ↦ rw (t, skip) | inr f ↦ rw f ])
  | inr above ↦ rw above (
      map-keep arena (e ∷ es)
      ∙ sym (all_later arena e.cookie hi cookie (e ∷ es) (ground arith) (omega arith, asc.1)))
]

length-map : (arena : List ℕ) (es : List CEnt) → length (map (entry_in arena) es) ≡ length es
length-map arena [] = refl
length-map arena (e ∷ es) = ap suc (length-map arena es)

take-nil : (arena : List ℕ) (n : ℕ) → take n (map (entry_in arena) []) ≡ []
take-nil arena zero = refl
take-nil arena (suc n) = refl

fill_lem :
    (arena : List ℕ) (max : ℕ) (acc : List ReadDirEntry) (es : List CEnt)
    → length acc ≤ max
    → (fill arena max acc es).0 ≡ acc ++ take (max - length acc) (map (entry_in arena) es)
unfolding fill
fill_lem arena max acc [] h =
    sym (ap (λ l. acc ++ l) (take-nil arena (max - length acc)) ∙ append-nil acc)
fill_lem arena max acc (e ∷ es) h = elim (Bool-cases (leb max (length acc))) [
  | inl t ↦ let z : max - length acc ≡ 0 = ground arith in rw (t, z) (sym (append-nil acc))
  | inr f ↦
      let one = length-append acc (entry_in arena e ∷ []) in
      let z : max - length acc ≡ suc (max - length (acc ++ entry_in arena e ∷ [])) =
        ground (arith, one) in
      rw (f, z)
        (fill_lem arena max (acc ++ entry_in arena e ∷ []) es (ground (arith, one))
          ∙ append_assoc acc (entry_in arena e ∷ []) _)
]

fill-eof :
    (arena : List ℕ) (max : ℕ) (acc : List ReadDirEntry) (es : List CEnt)
    → length acc ≤ max
    → (fill arena max acc es).1 ≡ leb (length es) (max - length acc)
unfolding fill
fill-eof arena max acc [] h = ground arith
fill-eof arena max acc (e ∷ es) h =
    let one = length-append acc (entry_in arena e ∷ []) in
    elim (Bool-cases (leb max (length acc))) [
      | inl t ↦ rw t (ground arith)
      | inr f ↦ rw f (
          fill-eof arena max (acc ++ entry_in arena e ∷ []) es (ground (arith, one))
          ∙ ground (arith, one))
    ]

module _ ⦃hashing : Hashing⦄ where
  -- On a well-formed directory a page from a cookie has the first `max` live entries behind the
  -- cookie, in the order of their cookies, compaction or not; it is the end if no more than `max` are
  -- behind the cookie; and it carries the generation of the directory.
  pub page_lem :
      (d : Dir) (cookie max : ℕ)
      → IsWellFormed d
      → page d cookie max ≡ record {
        entries = take max (later cookie (view d));
        eof = leb (length (later cookie (view d))) max;
        dirgen = d.dirgen;
      }
  unfolding page range_after
  page_lem d cookie max v =
      let es = keep alive (from_partition_point (λ e. leb e.cookie cookie) d.ents) in
      let shown = range_later d.arena 3 d.next_cookie cookie d.ents v.ascending in
      let room : max - 0 ≡ max = omega arith in
      let entries =
        fill_lem d.arena max [] es (omega arith)
        ∙ ap (λ n. take n (map (entry_in d.arena) es)) room
        ∙ ap (take max) shown in
      let eof =
        fill-eof d.arena max [] es (omega arith)
        ∙ ap (λ n. leb (length es) n) room
        ∙ ap (λ n. leb n max) (sym (length-map d.arena es) ∙ ap length shown) in
      rw (entries, eof) refl

-- The cookies of a list of entries rise, from above `lo` on.
abbrev pub Rising : ℕ → List ReadDirEntry → Type 0
Rising lo [] = lo ≡ lo
Rising lo (e ∷ es) = (lo < e.cookie) × Rising e.cookie es

Rising-weaken : (lo lo' : ℕ) (es : List ReadDirEntry) → lo ≤ lo' → Rising lo' es → Rising lo es
Rising-weaken lo lo' [] h r = refl
Rising-weaken lo lo' (e ∷ es) h r = (omega (arith, h, r.0), r.1)

live_of-Rising :
    (arena : List ℕ) (low lo hi : ℕ) (es : List CEnt)
    → low < lo
    → Ascending lo hi es
    → Rising low (live_of (slots arena es))
live_of-Rising arena low lo hi [] h asc = refl
live_of-Rising arena low lo hi (e ∷ es) h asc =
    let rest = live_of-Rising arena e.cookie (suc e.cookie) hi es (omega arith) asc.1 in
    let low_e : low < e.cookie = omega (arith, asc.0) in
    elim (Bool-cases (alive e)) [
      | inl t ↦ rw t (low_e, rest)
      | inr f ↦ rw f (Rising-weaken low e.cookie _ (omega arith) rest)
    ]

later-Rising_from : (lo c : ℕ) (es : List ReadDirEntry) → Rising lo es → Rising lo (later c es)
unfolding later keep
later-Rising_from lo c [] r = refl
later-Rising_from lo c (e ∷ es) r =
    let rest = later-Rising_from e.cookie c es r.1 in
    elim (Bool-cases (ltb c e.cookie)) [
      | inl t ↦ rw t (r.0, rest)
      | inr f ↦ rw f (Rising-weaken lo e.cookie _ (omega (arith, r.0)) rest)
    ]

later-Rising : (lo c : ℕ) (es : List ReadDirEntry) → Rising lo es → Rising c (later c es)
unfolding later keep
later-Rising lo c [] r = refl
later-Rising lo c (e ∷ es) r = elim (Bool-cases (ltb c e.cookie)) [
  | inl t ↦ rw t (ground arith, unfold later in later-Rising_from e.cookie c es r.1)
  | inr f ↦ rw f (unfold later in later-Rising e.cookie c es r.1)
]

later-all : (lo c : ℕ) (es : List ReadDirEntry) → c ≤ lo → Rising lo es → later c es ≡ es
unfolding later keep
later-all lo c [] h r = refl
later-all lo c (e ∷ es) h r =
    let above : ltb c e.cookie ≡ true = ground (arith, r.0) in
    rw above (ap (λ l. e ∷ l) (later-all e.cookie c es (omega (arith, r.0)) r.1))

later-later : (c x : ℕ) (es : List ReadDirEntry) → c ≤ x → later x (later c es) ≡ later x es
unfolding later keep
later-later c x [] h = refl
later-later c x (e ∷ es) h = ground (arith, later-later c x es h)

-- The cookie to go on from: that of the last entry, or the one before if there is none.
abbrev pub last_cookie : ℕ → List ReadDirEntry → ℕ
last_cookie c [] = c
last_cookie c (e ∷ es) = last_cookie e.cookie es

last_cookie-take : (c n : ℕ) (es : List ReadDirEntry) → Rising c es → c ≤ last_cookie c (take n es)
last_cookie-take c zero es r = omega arith
last_cookie-take c (suc n) [] r = omega arith
last_cookie-take c (suc n) (e ∷ es) r = omega (arith, r.0, last_cookie-take e.cookie n es r.1)

later-last_cookie :
    (c n : ℕ) (es : List ReadDirEntry)
    → Rising c es
    → later (last_cookie c (take n es)) es ≡ drop n es
unfolding later keep
later-last_cookie c zero es r = unfold later in later-all c c es (omega arith) r
later-last_cookie c (suc n) [] r = refl
later-last_cookie c (suc n) (e ∷ es) r =
    let skip : ltb (last_cookie e.cookie (take n es)) e.cookie ≡ false =
      ground (arith, last_cookie-take e.cookie n es r.1) in
    rw skip (later-last_cookie e.cookie n es r.1)

module _ ⦃hashing : Hashing⦄ where
  -- On a well-formed directory the page after a page, from the cookie of its last entry, goes on
  -- exactly where that one ended: no entry is left out and none comes twice.
  pub page-resume :
      (d : Dir) (cookie max next : ℕ)
      → IsWellFormed d
      → (page d (last_cookie cookie (page d cookie max).entries) next).entries
        ≡ take next (drop max (later cookie (view d)))
  page-resume d cookie max next v =
      let rising = live_of-Rising d.arena 0 3 d.next_cookie d.ents (omega arith) v.ascending in
      let behind = later-Rising 0 cookie (view d) rising in
      let here : (page d cookie max).entries ≡ take max (later cookie (view d)) =
        ap (λ p. p.entries) (page_lem d cookie max v) in
      let last = last_cookie cookie (take max (later cookie (view d))) in
      ap (λ es. (page d (last_cookie cookie es) next).entries) here
      ∙ ap (λ p. p.entries) (page_lem d last next v)
      ∙ ap (take next) (
          sym (
            later-later cookie last (view d)
              (last_cookie-take cookie max (later cookie (view d)) behind))
          ∙ later-last_cookie cookie max (later cookie (view d)) behind)
