-- ===== src/Proto/Types/NameGrammar.antt =====
-- What `Name` and `Attr` of crates/mist-proto/src/types.rs accept.
use mathlib.Core.List.{append_assoc, append-nil}
use mist.Prelude.{
  ℕ, ◌≤◌, ◌<◌, true, false, Option, some, List, [], ◌∷◌, ◌++◌, map, length, any, leb, ◌≡◌, ◌≢◌, ◌↔◌,
  inl, inr, refl, ap, arith, Bool-cases, bytes_eq, bytes_eq_refl, eq_of_bytes_eq, length-append,
}
use mist.Prelude.Result.{ok}
use mist.Proto.Validate.{All}
use mist.Proto.Validate.{OptionAll}
use mist.Proto.Types.{Attr, Name, symlink, kind_eq, validate_attr, contains, check, new, visit_seq}

-- A path component: 1 to 255 bytes, none of them `/` or NUL, and neither `.` nor `..`.
pub record IsComponent (b : List ℕ) : Type 0 where
  pub nonempty : 0 < length b
  pub short : length b ≤ 255
  pub clean : All (λ c. (c ≢ b'/') × (c ≢ 0)) b
  pub not_dot : b ≢ b'.' ∷ []
  pub not_dot_dot : b ≢ b'.' ∷ b'.' ∷ []

contains-All :
    (b : List ℕ)
    → contains b b'/' ≡ false
    → contains b 0 ≡ false
    → All (λ c. (c ≢ b'/') × (c ≢ 0)) b
unfolding any
contains-All [] p q = tt
contains-All (c ∷ b) p q =
    ((ground arith, ground arith), contains-All b (ground arith) (ground arith))

All-contains :
    (b : List ℕ)
    → All (λ c. (c ≢ b'/') × (c ≢ 0)) b
    → (contains b b'/' ≡ false) × (contains b 0 ≡ false)
unfolding any
All-contains [] h = (refl, refl)
All-contains (c ∷ b) h = ground (arith, All-contains b)

bytes_eq-ne : (b c : List ℕ) → b ≢ c → bytes_eq b c ≡ false
bytes_eq-ne b c h = elim (Bool-cases (bytes_eq b c)) [
  | inl e ↦ absurd (h (eq_of_bytes_eq b c e))
  | inr e ↦ e
]

ne_of_bytes_eq : (b c : List ℕ) → bytes_eq b c ≡ false → b ≢ c
ne_of_bytes_eq b c h e = ground (arith, bytes_eq_refl c, ap (λ x. bytes_eq x c) e)

check-IsComponent : (b : List ℕ) → check b ≡ ok tt → IsComponent b
unfolding check
check-IsComponent b h = record {
  nonempty = ground arith;
  short = ground arith;
  clean = contains-All b (ground arith) (ground arith);
  not_dot = ne_of_bytes_eq b _ (ground arith);
  not_dot_dot = ne_of_bytes_eq b _ (ground arith);
}

IsComponent-check : (b : List ℕ) → IsComponent b → check b ≡ ok tt
unfolding check
IsComponent-check b v = ground (
  arith,
  All-contains b v.clean,
  v.nonempty,
  v.short,
  bytes_eq-ne b _ v.not_dot,
  bytes_eq-ne b _ v.not_dot_dot,
)

-- `Name::check` accepts exactly the byte strings that are a path component: 1 to 255 bytes, none of
-- them `/` or NUL, and neither `.` nor `..`.
pub check_iff : (b : List ℕ) → (check b ≡ ok tt) ↔ IsComponent b
check_iff b = (check-IsComponent b, IsComponent-check b)

pub some_bytes : List ℕ → List (Option ℕ)
some_bytes b = map some b

long_fails : (b : List ℕ) (n : Name) → 255 < length b → new b ≢ ok n
unfolding new check
long_fails b n h = ground arith

-- A sequence of bytes that decodes to a name is one that `Name::new` makes the same name of, and
-- the other way round, whatever is in the buffer: the early cut at 255 bytes loses no name.
pub visit_seq_iff :
    (b seq : List ℕ) (n : Name) → (visit_seq b (some_bytes seq) ≡ ok n) ↔ (new (b ++ seq) ≡ ok n)
unfolding visit_seq some_bytes
visit_seq_iff b [] n = rw append-nil (λ h. h, λ h. h)
visit_seq_iff b (x ∷ seq) n =
    let ih : (visit_seq (b ++ x ∷ []) (some_bytes seq) ≡ ok n) ↔ (new (b ++ x ∷ seq) ≡ ok n) =
      rw (append_assoc b (x ∷ []) seq) at (visit_seq_iff (b ++ x ∷ []) seq n) in
    elim (Bool-cases (leb 255 (length b))) [
      | inl full ↦ (
        λ h. cc (full, h),
        λ h. absurd (long_fails (b ++ x ∷ seq) n (ground (arith, length-append b (x ∷ seq))) h),
      )
      | inr room ↦ rw room ih
    ]

-- The symlink target, if there is one, is on a symlink and has 1 to 4096 bytes.
pub TargetIsValid : Attr → Type 0
TargetIsValid a =
    OptionAll (λ t. (kind_eq a.kind symlink ≡ true) × (0 < length t) × (length t ≤ 4096))
      a.symlink_target

-- `Attr::validate` accepts exactly the attributes whose symlink target, if there is one, is on a
-- symlink and has 1 to 4096 bytes.
pub validate_attr_iff : (a : Attr) → (validate_attr a ≡ ok tt) ↔ TargetIsValid a
unfolding validate_attr TargetIsValid
validate_attr_iff a = (λ h. ground arith, λ h. ground arith)
