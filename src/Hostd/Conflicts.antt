-- ===== src/Hostd/Conflicts.antt =====
-- `ConflictTracker` of crates/mist-hostd/src/conflicts.rs. Times are nanoseconds of a clock that does
-- not run back; each call is given the times at which it reads the clock.
pub mod Spec
pub mod Shows
use mist.Prelude.{
  ℕ, ◌+◌, ◌-◌, ◌%◌, ◌^◌, Bool, true, false, ◌&&◌, Option, none, some, List, [], ◌∷◌, ◌++◌, String,
  length, drop, ltb, leb, ◌==◌, if◌then◌else◌, ◌≡◌, ◌↔◌, arith,
}
use mist.Prelude.Map
use mist.Prelude.Map.{Map, Eq, insert, lookup, retain_by}
use mist.Proto.Types.{NodeKey}
use mist.Proto.Keys.{key_eq, key_eq_iff}

-- 5 seconds
abbrev pub window : ℕ
window = 5000000000

abbrev pub max_rows : ℕ
max_rows = 1024

abbrev pub max_tracked : ℕ
max_tracked = 8192

-- `(u16, NodeKey)`
pub record Target : Type 0 where
  pub share : ℕ
  pub node : NodeKey

abbrev pub target_eq : Target → Target → Bool
target_eq a b = a.share == b.share && key_eq a.node b.node

pub target_eq_iff : (a b : Target) → (target_eq a b ≡ true) ↔ (a ≡ b)
target_eq_iff a b =
    (λ h. ground (arith, key_eq_iff a.node b.node), λ h. ground (arith, key_eq_iff a.node b.node))

instance abbrev pub target_key : Eq Target
target_key = record { beq = target_eq; beq_iff = target_eq_iff }

pub data ConflictKind : Type 0 where
  mac_over_guest guest_over_mac : ConflictKind

-- The detail of a row is a fixed text but for the Mac's operation, which is kept in its place.
pub record ConflictRow : Type 0 where
  pub at_unix_ms : ℕ
  pub target : Target
  pub path : Option String
  pub kind : ConflictKind
  pub op : Option String

pub record ConflictTracker : Type 0 where
  pub recent_mac : Map Target ℕ
  pub recent_guest : Map Target ℕ
  pub rows : List ConflictRow
  pub total : ℕ

-- `ConflictTracker::default()`
abbrev pub default : ConflictTracker
default = record { recent_mac = []; recent_guest = []; rows = []; total = 0 }

-- `t.elapsed() < WINDOW` at a time
abbrev pub is_within : ℕ → ℕ → Bool
is_within now t = ltb (now - t) window

-- The clock is read anew for each entry.
unfoldable pub prune : (Target → ℕ) → Map Target ℕ → Map Target ℕ
prune now m = if ltb max_tracked (length m) then retain_by (λ k. is_within (now k)) m else m

-- `get(..).is_some_and(|t| t.elapsed() < WINDOW)`
abbrev pub is_recent : ℕ → Option ℕ → Bool
is_recent now none = false
is_recent now (some t) = is_within now t

unfoldable pub push : ConflictTracker → ConflictRow → ConflictTracker
push c row =
    let rows = if leb max_rows (length c.rows) then drop 1 c.rows else c.rows in
    record c { total = (c.total + 1) % 2 ^ 64; rows = rows ++ row ∷ [] }

-- The times at which a call looks for the other side's change, sets its own, and looks at each entry
-- as it prunes, and the time at which it ends.
pub record Times : Type 0 where
  pub check : ℕ
  pub set : ℕ
  pub prune : Target → ℕ
  pub end : ℕ
  pub unix_ms : ℕ

unfoldable pub note_mac :
    ConflictTracker → Times → Target → Option String → String → ConflictTracker
unfolding prune push
note_mac c now target path op =
    let row : ConflictRow = record {
      at_unix_ms = now.unix_ms;
      target = target;
      path = path;
      kind = mac_over_guest;
      op = some op;
    } in
    let c' = if is_recent now.check (lookup target c.recent_guest) then push c row else c in
    record c' { recent_mac = prune now.prune (insert target now.set c'.recent_mac) }

unfoldable pub note_guest : ConflictTracker → Times → Target → Option String → ConflictTracker
unfolding prune push
note_guest c now target path =
    let row : ConflictRow = record {
      at_unix_ms = now.unix_ms;
      target = target;
      path = path;
      kind = guest_over_mac;
      op = none;
    } in
    let c' = if is_recent now.check (lookup target c.recent_mac) then push c row else c in
    record c' { recent_guest = prune now.prune (insert target now.set c'.recent_guest) }

abbrev pub list : ConflictTracker → List ConflictRow
list c = c.rows

abbrev pub total : ConflictTracker → ℕ
total c = c.total
