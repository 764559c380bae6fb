-- ===== src/Replica/Hashing.antt =====
-- What crates/mist-replica/src/lib.rs takes from outside: `hashbrown::HashTable<u32>`, with the
-- behaviour that its documentation states, and the hashes of names and of node keys, whose seeds are
-- random. `count t h i` is how often the table holds the value `i` under the hash `h`.
use mist.Prelude.{
  ℕ, ◌+◌, ◌-◌, ◌<◌, Bool, true, false, ◌&&◌, Option, none, some, List, ◌==◌, if◌then◌else◌, ◌≡◌,
}
use mist.Proto.Types.{NodeKey}

abbrev pub hit : ℕ → ℕ → ℕ → ℕ → ℕ
hit h i g j = if h == g && i == j then 1 else 0

pub record Hashing : Type 1 where
  pub Table : Type 0
  pub count : Table → ℕ → ℕ → ℕ
  pub new : Table
  -- the first value that the probe for a hash meets and the test accepts
  pub find : Table → ℕ → (ℕ → Bool) → Option ℕ
  -- `insert_unique(hash, value, hasher)`
  pub insert_unique : Table → ℕ → ℕ → (ℕ → ℕ) → Table
  -- `find_entry(hash, test)`, and `remove` of the entry if there is one
  pub remove_entry : Table → ℕ → (ℕ → Bool) → Table
  pub count-new : (g j : ℕ) → count new g j ≡ 0
  pub find-eq-some :
      (t : Table) (h : ℕ) (test : ℕ → Bool) (i : ℕ)
      → find t h test ≡ some i
      → (test i ≡ true) × ((g : ℕ) × (0 < count t g i))
  pub find-eq-none :
      (t : Table) (h : ℕ) (test : ℕ → Bool)
      → find t h test ≡ none
      → (i : ℕ) → 0 < count t h i
      → test i ≡ false
  -- the hasher gives each stored value the hash that it is stored under
  pub count-insert_unique :
      (t : Table) (h i : ℕ) (hasher : ℕ → ℕ)
      → ((g j : ℕ) → 0 < count t g j → hasher j ≡ g)
      → (g j : ℕ) → count (insert_unique t h i hasher) g j ≡ count t g j + hit h i g j
  -- the test accepts one stored value only
  pub count-remove_entry :
      (t : Table) (h i : ℕ) (test : ℕ → Bool)
      → 0 < count t h i
      → test i ≡ true
      → ((g j : ℕ) → 0 < count t g j → test j ≡ true → (g ≡ h) × (j ≡ i))
      → (g j : ℕ) → count (remove_entry t h test) g j ≡ count t g j - hit h i g j
  pub name_hash : List ℕ → ℕ
  pub key_hash : NodeKey → ℕ
