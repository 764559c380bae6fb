-- ===== src/Proto/Types.antt =====
-- crates/mist-proto/src/types.rs: identities, times, attributes, names and share descriptions.
-- A Rust string is the list of its bytes.
pub mod NameGrammar
use mist.Prelude.{
  ℕ, ◌+◌, Bool, true, false, ◌&&◌, ◌||◌, not, Option, none, some, List, [], ◌∷◌, ◌++◌, length, any,
  ltb, leb, ◌==◌, bytes_eq, if◌then◌else◌,
}
use mist.Prelude.Result.{Result, ok, err, ◌>>=◌, ◌>>◌}
use mist.Proto.Caps.{max_name, max_symlink, max_str}
use mist.Proto.Validate.{ValidateError, Validated, refuse_if}

pub record NodeKey : Type 0 where
  pub ino : ℕ
  pub generation : ℕ

-- `i64`, with `negsuc n` for -(n + 1)
pub data ℤ : Type 0 where
  pos : ℕ → ℤ
  negsuc : ℕ → ℤ

pub record Ts : Type 0 where
  pub sec : ℤ
  pub nsec : ℕ

pub data Kind : Type 0 where
  reg dir symlink fifo sock chr blk : Kind

-- The derived `PartialEq`, through the discriminant.
abbrev pub kind_tag : Kind → ℕ
kind_tag reg = 0
kind_tag dir = 1
kind_tag symlink = 2
kind_tag fifo = 3
kind_tag sock = 4
kind_tag chr = 5
kind_tag blk = 6

abbrev pub kind_eq : Kind → Kind → Bool
kind_eq a b = kind_tag a == kind_tag b

pub record Attr : Type 0 where
  pub kind : Kind
  pub mode : ℕ
  pub nlink : ℕ
  pub uid : ℕ
  pub gid : ℕ
  pub size : ℕ
  pub blocks : ℕ
  pub mtime : Ts
  pub ctime : Ts
  pub rdev : ℕ
  pub content_version : ℕ
  pub symlink_target : Option (List ℕ)

-- `t.is_empty() || t.len() > MAX_SYMLINK`
abbrev pub bad_target_length : List ℕ → Bool
bad_target_length t = length t == 0 || ltb max_symlink (length t)

unfoldable pub validate_attr : Attr → Validated
validate_attr a = elim a.symlink_target [
  | none ↦ ok tt
  | some t ↦
      refuse_if (not (kind_eq a.kind symlink)) "symlink_target on non-symlink"
      >> refuse_if (bad_target_length t) "symlink target length"
]

-- A path component; `new` is the only way the program builds one.
pub record Name : Type 0 where
  pub bytes : List ℕ

abbrev slash : ℕ
slash = b'/'

abbrev pub contains : List ℕ → ℕ → Bool
contains bs c = any (λ b. b == c) bs

unfoldable pub check : List ℕ → Validated
check b = do
  refuse_if (length b == 0 || ltb max_name (length b)) "name length"
  refuse_if (contains b slash || contains b 0) "name contains '/' or NUL"
  refuse_if (bytes_eq b (b'.' ∷ []) || bytes_eq b (b'.' ∷ b'.' ∷ [])) "name is '.' or '..'"

unfoldable pub new : List ℕ → Result ValidateError Name
unfolding check
new b = check b >>= λ _. ok (record { bytes = b })

-- `visit_seq` of the deserializer: the elements arrive one by one, `none` being one that does not
-- decode; the buffer is `b`.
unfoldable pub visit_seq : List ℕ → List (Option ℕ) → Result ValidateError Name
unfolding new
visit_seq b [] = new b
visit_seq b (none ∷ seq) = err (record { message = "element" })
visit_seq b (some x ∷ seq) =
    let rest = visit_seq (b ++ x ∷ []) seq in
    if leb max_name (length b) then err (record { message = "name too long" }) else rest

pub record ShareInfo : Type 0 where
  pub id : ℕ
  pub name : List ℕ
  pub epoch : ℕ
  pub fsid : ℕ
  pub root : NodeKey
  pub flags : ℕ
  pub ino_bits : ℕ

unfoldable pub validate_share_info : ShareInfo → Validated
validate_share_info s =
    refuse_if (length s.name == 0 || ltb max_str (length s.name)) "share name length"

pub record GuestInfo : Type 0 where
  pub kernel : List ℕ
  pub fanotify_max_queued : ℕ
  pub mistd_pid : ℕ

unfoldable pub validate_guest_info : GuestInfo → Validated
validate_guest_info g = refuse_if (ltb max_str (length g.kernel)) "kernel string length"
