-- ===== src/Replica/Dir/Valid.antt =====
-- The invariant of a directory's table, of crates/mist-replica/src/lib.rs, and what the index holds.
use mist.Prelude.{
  ℕ, zero, suc, ◌+◌, ◌-◌, ◌^◌, ◌≤◌, ◌<◌, true, Option, none, some, List, [], ◌∷◌, ◌++◌, length, set,
  ◌==◌, if◌then◌else◌, ◌≡◌, ◌⊎◌, inl, refl, arith,
}
use mist.Replica.Hashing.{Hashing, hit}
use mist.Replica.Dir.{CEnt, at, alive, name_in, Dir, new}
use mist.Replica.Dir.Slots.{ReadDirEntry, Slots, slots, get_slot, get_slot-slots, Distinct, live_of}

-- The names stand behind one another in the arena, from `off` to `total`.
abbrev pub Packed : ℕ → ℕ → List CEnt → Type 0
Packed total off [] = off ≡ total
Packed total off (e ∷ es) = (e.name_off ≡ off) × Packed total (off + e.name_len) es

-- The cookies ascend, from `lo` on and below `hi`.
abbrev pub Ascending : ℕ → ℕ → List CEnt → Type 0
Ascending lo hi [] = lo ≤ hi
Ascending lo hi (e ∷ es) = (lo ≤ e.cookie) × Ascending (suc e.cookie) hi es

abbrev pub count_dead : List CEnt → ℕ
count_dead [] = 0
count_dead (e ∷ es) = (if alive e then 0 else 1) + count_dead es

module _ ⦃hashing : Hashing⦄ where
  -- How often the index must hold the position `j` under the hash `g`.
  abbrev pub indexed_at : Option ReadDirEntry → ℕ → ℕ
  indexed_at none g = 0
  indexed_at (some e) g = if hashing.name_hash e.name.bytes == g then 1 else 0

  abbrev pub expected : Slots → ℕ → ℕ → ℕ
  expected sl g j = indexed_at (get_slot sl j) g

  abbrev pub dir_slots : Dir → Slots
  dir_slots d = slots d.arena d.ents

  -- The abstract directory: its live entries in the order of their cookies.
  abbrev pub view : Dir → List ReadDirEntry
  view d = live_of (dir_slots d)

  pub record IsWellFormed (d : Dir) : Type 0 where
    pub packed : Packed (length d.arena) 0 d.ents
    pub ascending : Ascending 3 d.next_cookie d.ents
    pub counted : d.dead ≡ count_dead d.ents
    pub distinct : Distinct (dir_slots d)
    pub indexed : (g j : ℕ) → hashing.count d.by_name g j ≡ expected (dir_slots d) g j
    pub small_arena : length d.arena < 2 ^ 32
    pub small_ents : length d.ents < 2 ^ 32

  pub new-IsWellFormed : IsWellFormed new
  new-IsWellFormed = record {
    packed = refl;
    ascending = omega arith;
    counted = refl;
    distinct = λ i j a b p q e. ground arith;
    indexed = λ g j. hashing.count-new g j;
    small_arena = omega arith;
    small_ents = omega arith;
  }

  pub expected_pos :
      (sl : Slots) (g j : ℕ)
      → 0 < expected sl g j
      → (e : ReadDirEntry) × (get_slot sl j ≡ some e) × (hashing.name_hash e.name.bytes ≡ g)
  expected_pos sl g j h = ground arith

  pub expected-append :
      (sl : Slots) (e : ReadDirEntry) (g j : ℕ)
      → expected (sl ++ some e ∷ []) g j
        ≡ expected sl g j + hit (hashing.name_hash e.name.bytes) (length sl) g j
  expected-append [] e g zero = ground arith
  expected-append [] e g (suc j) = ground arith
  expected-append (s ∷ sl) e g zero = ground arith
  expected-append (s ∷ sl) e g (suc j) = ground (arith, expected-append sl e g j)

  pub expected-clear :
      (sl : Slots) (i : ℕ) (e : ReadDirEntry) (g j : ℕ)
      → get_slot sl i ≡ some e
      → expected (set sl i none) g j ≡ expected sl g j - hit (hashing.name_hash e.name.bytes) i g j
  expected-clear [] i e g j h = ground arith
  expected-clear (s ∷ sl) zero e g zero h = ground arith
  expected-clear (s ∷ sl) zero e g (suc j) h = ground arith
  expected-clear (s ∷ sl) (suc i) e g zero h = ground arith
  expected-clear (s ∷ sl) (suc i) e g (suc j) h = ground (arith, expected-clear sl i e g j h)

-- The name of a live position, read off the arena.
pub name_in-at :
    (arena : List ℕ) (es : List CEnt) (j : ℕ) (e : ReadDirEntry)
    → get_slot (slots arena es) j ≡ some e
    → (alive (at es j) ≡ true) × (name_in arena (at es j) ≡ e.name.bytes)
name_in-at arena es j e h = ground (arith, get_slot-slots arena es j)

pub get_slot-append_left :
    (sl tl : Slots) (j : ℕ) (e : ReadDirEntry)
    → get_slot sl j ≡ some e
    → get_slot (sl ++ tl) j ≡ some e
get_slot-append_left [] tl j e h = ground arith
get_slot-append_left (s ∷ sl) tl zero e h = h
get_slot-append_left (s ∷ sl) tl (suc j) e h = get_slot-append_left sl tl j e h

pub get_slot-snoc :
    (sl : Slots) (e : ReadDirEntry) (j : ℕ) (a : ReadDirEntry)
    → get_slot (sl ++ some e ∷ []) j ≡ some a
    → (get_slot sl j ≡ some a) ⊎ (j ≡ length sl) × (a ≡ e)
get_slot-snoc [] e zero a h = ground arith
get_slot-snoc [] e (suc j) a h = ground arith
get_slot-snoc (s ∷ sl) e zero a h = inl h
get_slot-snoc (s ∷ sl) e (suc j) a h = ground (arith, get_slot-snoc sl e j a h)

pub get_slot-clear :
    (sl : Slots) (i j : ℕ) (a : ReadDirEntry)
    → get_slot (set sl i none) j ≡ some a
    → get_slot sl j ≡ some a
get_slot-clear [] i j a h = h
get_slot-clear (s ∷ sl) zero zero a h = ground arith
get_slot-clear (s ∷ sl) zero (suc j) a h = h
get_slot-clear (s ∷ sl) (suc i) zero a h = h
get_slot-clear (s ∷ sl) (suc i) (suc j) a h = get_slot-clear sl i j a h
