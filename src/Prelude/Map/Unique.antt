-- ===== src/Prelude/Map/Unique.antt =====
-- Maps that hold each key once, as `HashMap` does, and what filters of their values keep.
use mathlib.Core.Path.{◌≡◌, refl}
use mathlib.Core.Bool.{Bool}
use mathlib.Core.List.{[], ◌∷◌}
use mathlib.Core.Option.{Option, none, some}
use mathlib.Core.Logic.{inl, inr}
use native.Mathlib.Omega.{arith}
use mist.Prelude.Tests.{if◌then◌else◌, Bool-cases}
use mist.Prelude.Map.{Eq, Map, lookup, remove, insert, retain, retain_by, lookup-remove, beq_refl}

-- What a filter leaves of an entry.
abbrev pub kept {ℓ} : {V : Type ℓ} → (V → Bool) → Option V → Option V
kept p none = none
kept p (some v) = if p v then some v else none

module _ {ℓ} {K V : Type ℓ} ⦃e : Eq K⦄ where
  abbrev pub Unique : Map K V → Type ℓ
  Unique [] = Unit
  Unique ((k, v) ∷ m) = (lookup k m ≡ none) × Unique m

  pub remove-Unique : (k : K) (m : Map K V) → Unique m → Unique (remove k m)
  unfolding remove
  remove-Unique k [] u = tt
  remove-Unique k ((j, v) ∷ m) u = elim (Bool-cases (e.beq j k)) [
    | inl t ↦ rw t (remove-Unique k m u.1)
    | inr f ↦ rw f (ground (arith, lookup-remove k j m, u.0), remove-Unique k m u.1)
  ]

  pub insert-Unique : (k : K) (v : V) (m : Map K V) → Unique m → Unique (insert k v m)
  unfolding insert
  insert-Unique k v m u = (ground (arith, lookup-remove k k m, beq_refl k), remove-Unique k m u)

  retain-absent :
      (p : V → Bool) (k : K) (m : Map K V) → lookup k m ≡ none → lookup k (retain p m) ≡ none
  unfolding lookup retain
  retain-absent p k [] h = refl
  retain-absent p k ((j, v) ∷ m) h = ground (arith, retain-absent p k m)

  pub lookup-retain :
      (p : V → Bool) (k : K) (m : Map K V) → Unique m → lookup k (retain p m) ≡ kept p (lookup k m)
  unfolding lookup retain
  lookup-retain p k [] u = refl
  lookup-retain p k ((j, v) ∷ m) u =
      ground (arith, lookup-retain p k m, retain-absent p k m, e.beq_iff j k, u.0)

  pub retain-Unique : (p : V → Bool) (m : Map K V) → Unique m → Unique (retain p m)
  unfolding retain
  retain-Unique p [] u = tt
  retain-Unique p ((j, v) ∷ m) u = elim (Bool-cases (p v)) [
    | inl t ↦ rw t (retain-absent p j m u.0, retain-Unique p m u.1)
    | inr f ↦ rw f (retain-Unique p m u.1)
  ]

  retain_by-absent :
      (p : K → V → Bool) (k : K) (m : Map K V) → lookup k m ≡ none → lookup k (retain_by p m) ≡ none
  unfolding lookup retain_by
  retain_by-absent p k [] h = refl
  retain_by-absent p k ((j, v) ∷ m) h = ground (arith, retain_by-absent p k m)

  pub lookup-retain_by :
      (p : K → V → Bool) (k : K) (m : Map K V)
      → Unique m
      → lookup k (retain_by p m) ≡ kept (p k) (lookup k m)
  unfolding lookup retain_by
  lookup-retain_by p k [] u = refl
  lookup-retain_by p k ((j, v) ∷ m) u =
      ground (arith, lookup-retain_by p k m, retain_by-absent p k m, e.beq_iff j k, u.0)

  pub retain_by-Unique : (p : K → V → Bool) (m : Map K V) → Unique m → Unique (retain_by p m)
  unfolding retain_by
  retain_by-Unique p [] u = tt
  retain_by-Unique p ((j, v) ∷ m) u = elim (Bool-cases (p j v)) [
    | inl t ↦ rw t (retain_by-absent p j m u.0, retain_by-Unique p m u.1)
    | inr f ↦ rw f (retain_by-Unique p m u.1)
  ]
