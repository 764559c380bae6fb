-- ===== src/Proto/Validate.antt =====
-- crates/mist-proto/src/validate.rs: the result of a validation, and its instances for options
-- and vectors. A value's own check is passed as a function.
use mist.Prelude.{
  Bool, true, false, String, Option, none, some, List, [], ◌∷◌, ◌≡◌, refl, ◌↔◌, arith,
}
use mist.Prelude.Result.{Result, ok, err, ◌>>◌}

pub record ValidateError : Type 0 where
  pub message : String

abbrev pub Validated : Type 0
Validated = Result ValidateError (Unit {0})

-- `if bad { return Err(ValidateError::new(m)) }`
abbrev pub refuse_if : Bool → String → Validated
refuse_if true m = err (record { message = m })
refuse_if false m = ok tt

module _ {ℓ} {A : Type ℓ} (validate : A → Validated) where
  unfoldable pub validate_option : Option A → Validated
  validate_option none = ok tt
  validate_option (some v) = validate v

  unfoldable pub validate_all : List A → Validated
  validate_all [] = ok tt
  validate_all (x ∷ xs) = let rest = validate_all xs in validate x >> rest

-- Every element satisfies the predicate.
abbrev pub All {ℓ κ} : {A : Type ℓ} → (A → Type κ) → List A → Type κ
All P [] = Unit
All P (x ∷ xs) = P x × All P xs

abbrev pub OptionAll {ℓ κ} : {A : Type ℓ} → (A → Type κ) → Option A → Type κ
OptionAll P none = Unit
OptionAll P (some x) = P x

pub >>-eq-ok : (m k : Validated) → (m >> k) ≡ ok tt → (m ≡ ok tt) × (k ≡ ok tt)
>>-eq-ok (ok tt) k h = (refl, h)
>>-eq-ok (err e) k h = ground arith

pub refuse_if-eq-ok : (b : Bool) (m : String) → (refuse_if b m ≡ ok tt) ↔ (b ≡ false)
refuse_if-eq-ok true m = (λ h. ground arith, λ h. ground arith)
refuse_if-eq-ok false m = (λ h. refl, λ h. refl)

module _ {ℓ} {A : Type ℓ} {P : A → Type 0} (validate : A → Validated)
    (decides : (a : A) → (validate a ≡ ok tt) ↔ P a) where
  pub validate_all-All : (xs : List A) → (validate_all validate xs ≡ ok tt) ↔ All P xs
  unfolding validate_all
  validate_all-All [] = (λ h. tt, λ h. refl)
  validate_all-All (x ∷ xs) = (
    λ h.
        let both = >>-eq-ok (validate x) (validate_all validate xs) h in
        ((decides x).0 both.0, (validate_all-All xs).0 both.1),
    λ h. ground (arith, (decides x).1 h.0, (validate_all-All xs).1 h.1),
  )

  pub validate_option-OptionAll :
      (o : Option A) → (validate_option validate o ≡ ok tt) ↔ OptionAll P o
  unfolding validate_option
  validate_option-OptionAll none = (λ h. tt, λ h. refl)
  validate_option-OptionAll (some x) = decides x
