-- ===== src/Cas/Table.antt =====
-- What crates/mist-cas/src/lib.rs uses of the redb crate, as parameters: tables of keys in an order,
-- changed inside a transaction that commits or leaves every table as it was.
use mist.Prelude.{Bool, Option, none, some, if◌then◌else◌, ◌≡◌}
use mist.Prelude.Map.{Map, Eq, lookup}
use mist.Prelude.Map.Unique.{Unique}

-- A kind of table, by the documented behaviour of its operations: `insert` and `remove` return the
-- old value, `iter` gives every row once, and `range` the rows from one key to another.
pub record Table (K V : Type 0) ⦃e : Eq K⦄ (le : K → K → Bool) : Type 1 where
  pub T : Type 0
  pub empty : T
  pub get : K → T → Option V
  pub insert : K → V → T → Option V × T
  pub remove : K → T → Option V × T
  pub iter : T → Map K V
  pub range : K → K → T → Map K V
  pub get-empty : (k : K) → get k empty ≡ none
  pub old-insert : (k : K) (v : V) (t : T) → (insert k v t).0 ≡ get k t
  pub get-insert :
      (k j : K) (v : V) (t : T) → get j (insert k v t).1 ≡ (if e.beq k j then some v else get j t)
  pub old-remove : (k : K) (t : T) → (remove k t).0 ≡ get k t
  pub get-remove : (k j : K) (t : T) → get j (remove k t).1 ≡ (if e.beq k j then none else get j t)
  pub iter-Unique : (t : T) → Unique (iter t)
  pub lookup-iter : (k : K) (t : T) → lookup k (iter t) ≡ get k t
  pub lookup-range :
      (low high k : K) (t : T)
      → lookup k (range low high t)
        ≡ (if le low k then if le k high then get k t else none else none)
