-- ===== src/Tests/Hash.antt =====
-- A hash table that is a list of hashes and values, in place of hashbrown's.
use mist.Prelude.{
  ℕ, ◌+◌, ◌-◌, ◌<◌, Bool, true, false, ◌&&◌, Option, none, some, List, [], ◌∷◌, ◌==◌, if◌then◌else◌,
  ◌≡◌, refl, arith, inl, inr, Bool-cases,
}
use mist.Replica.Hashing.{Hashing, hit}

abbrev pub Table : Type 0
Table = List (ℕ × ℕ)

abbrev pub count : Table → ℕ → ℕ → ℕ
count [] g j = 0
count ((h, i) ∷ t) g j = hit h i g j + count t g j

abbrev pub find : Table → ℕ → (ℕ → Bool) → Option ℕ
find [] h test = none
find ((g, i) ∷ t) h test = let rest = find t h test in if h == g && test i then some i else rest

abbrev pub remove_entry : Table → ℕ → (ℕ → Bool) → Table
remove_entry [] h test = []
remove_entry ((g, i) ∷ t) h test =
    let rest = remove_entry t h test in if h == g && test i then t else (g, i) ∷ rest

pub find_some :
    (t : Table) (h : ℕ) (test : ℕ → Bool) (i : ℕ)
    → find t h test ≡ some i
    → (test i ≡ true) × (0 < count t h i)
find_some [] h test i e = ground arith
find_some ((g, j) ∷ t) h test i e = elim (Bool-cases (h == g && test j)) [
  | inl y ↦ (ground arith, ground arith)
  | inr n ↦ let (a, b) = find_some t h test i (ground arith) in (a, omega (arith, b))
]

pub find_none :
    (t : Table) (h : ℕ) (test : ℕ → Bool)
    → find t h test ≡ none
    → (i : ℕ) → 0 < count t h i
    → test i ≡ false
find_none [] h test e i p = ground arith
find_none ((g, j) ∷ t) h test e i p = elim (Bool-cases (h == g && test j)) [
  | inl y ↦ ground arith
  | inr n ↦ elim (Bool-cases (g == h && j == i)) [
    | inl same ↦ let here : j ≡ i = ground arith in rw (← here) (ground arith)
    | inr other ↦ find_none t h test (ground arith) i (ground arith)
  ]
]

pub remove_count :
    (t : Table) (h i : ℕ) (test : ℕ → Bool)
    → 0 < count t h i
    → test i ≡ true
    → ((g j : ℕ) → 0 < count t g j → test j ≡ true → (g ≡ h) × (j ≡ i))
    → (g j : ℕ) → count (remove_entry t h test) g j ≡ count t g j - hit h i g j
remove_count [] h i test p e only g j = ground arith
remove_count ((k, l) ∷ t) h i test p e only g j = elim (Bool-cases (h == k && test l)) [
  | inl y ↦ let same : l ≡ i = (only k l (ground arith) (ground arith)).1 in rw y (ground arith)
  | inr n ↦ rw n (
      ground
        (arith, remove_count t h i test (ground arith) e (λ a b q. only a b (omega arith)) g j))
]

pub insert_count :
    (t : Table) (h i : ℕ) (hasher : ℕ → ℕ)
    → ((g j : ℕ) → 0 < count t g j → hasher j ≡ g)
    → (g j : ℕ) → count ((h, i) ∷ t) g j ≡ count t g j + hit h i g j
insert_count t h i hasher agree g j = omega arith

abbrev pub sum : List ℕ → ℕ
sum [] = 0
sum (x ∷ xs) = x + sum xs

instance abbrev pub listed : Hashing
listed = record {
  Table = Table;
  count = count;
  new = [];
  find = find;
  insert_unique = λ t h i hasher. (h, i) ∷ t;
  remove_entry = remove_entry;
  count-new = λ g j. refl;
  find-eq-some = λ t h test i e. let (a, b) = find_some t h test i e in (a, (h, b));
  find-eq-none = find_none;
  count-insert_unique = insert_count;
  count-remove_entry = remove_count;
  name_hash = sum;
  key_hash = λ k. k.ino;
}
