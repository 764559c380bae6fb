-- ===== src/Prelude/Map/Sums.antt =====
-- The sum of a measure over the values of a map, which is the same for maps that look up the same.
use Prim.Native.Nat.{ℕ, ◌+◌}
use mathlib.Core.Path.{◌≡◌, refl, sym, ◌∙◌}
use mathlib.Core.List.{[], ◌∷◌}
use mathlib.Core.Option.{Option, none, some}
use mathlib.Core.Logic.{inl, inr}
use native.Mathlib.Omega.{arith}
use mist.Prelude.Tests.{Bool-cases}
use mist.Prelude.Lists.{length}
use mist.Prelude.Map.{Eq, Map, lookup, remove, lookup-remove, beq_refl}
use mist.Prelude.Map.Unique.{Unique, remove-Unique}

abbrev pub weight {ℓ} : {V : Type ℓ} → (V → ℕ) → Option V → ℕ
weight w none = 0
weight w (some v) = w v

abbrev pub total {ℓ} : {K V : Type ℓ} → (V → ℕ) → Map K V → ℕ
total w [] = 0
total w ((k, v) ∷ m) = w v + total w m

pub total-one {ℓ} : {K V : Type ℓ} (m : Map K V) → total (λ _. 1) m ≡ length m
total-one [] = refl
total-one ((k, v) ∷ m) = omega (arith, total-one m)

module _ {ℓ} {K V : Type ℓ} ⦃e : Eq K⦄ (w : V → ℕ) where
  remove-absent : (k : K) (m : Map K V) → lookup k m ≡ none → total w (remove k m) ≡ total w m
  unfolding lookup remove
  remove-absent k [] h = refl
  remove-absent k ((j, v) ∷ m) h = ground (arith, remove-absent k m)

  pub total-remove :
      (k : K) (m : Map K V) → Unique m → total w (remove k m) + weight w (lookup k m) ≡ total w m
  unfolding lookup remove
  total-remove k [] u = refl
  total-remove k ((j, v) ∷ m) u = elim (Bool-cases (e.beq j k)) [
    | inl t ↦ rw t (
        let same : j ≡ k = (e.beq_iff j k).0 t in
        omega (arith, remove-absent k m (rw (sym same) u.0)))
    | inr f ↦ rw f (omega (arith, total-remove k m u.1))
  ]

  pub total-same :
      (m m' : Map K V)
      → Unique m
      → Unique m'
      → ((k : K) → lookup k m ≡ lookup k m')
      → total w m ≡ total w m'
  unfolding lookup
  total-same [] [] u u' h = refl
  total-same [] ((k, v) ∷ m') u u' h = ground (arith, h k, beq_refl k)
  total-same ((k, v) ∷ m) m' u u' h =
      let found : lookup k m' ≡ some v = sym (h k) ∙ ground (arith, beq_refl k) in
      let rest =
        total-same m (remove k m') u.1 (remove-Unique k m' u')
          (λ j. ground (arith, h j, lookup-remove k j m', e.beq_iff k j, u.0)) in
      let taken : total w (remove k m') + w v ≡ total w m' =
        ground (arith, total-remove k m' u', found) in
      omega (arith, rest, taken)
