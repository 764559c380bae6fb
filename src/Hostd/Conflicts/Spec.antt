-- ===== src/Hostd/Conflicts/Spec.antt =====
-- What the conflict tracker of crates/mist-hostd/src/conflicts.rs must show, by the whole history of
-- the calls, and the tracker against it.
use mist.Prelude.{
  ℕ, ◌-◌, ◌%◌, ◌^◌, ◌≤◌, Option, none, some, List, [], ◌∷◌, ◌++◌, String, length, drop,
  if◌then◌else◌, ◌≡◌,
}
use mist.Prelude.Map.{lookup}
use mist.Prelude.Map.Unique.{Unique}
use mist.Hostd.Conflicts.{
  max_rows, Target, target_eq, target_key, ConflictRow, ConflictTracker, mac_over_guest,
  guest_over_mac, is_recent, Times, note_mac, note_guest,
}

-- A call of the tracker.
pub data Note : Type 0 where
  mac : Times → Target → Option String → String → Note
  guest : Times → Target → Option String → Note

unfoldable pub run : ConflictTracker → List Note → ConflictTracker
run c [] = c
run c (mac now target path op ∷ notes) = run (note_mac c now target path op) notes
run c (guest now target path ∷ notes) = run (note_guest c now target path) notes

abbrev pub times : Note → Times
times (mac now _ _ _) = now
times (guest now _ _) = now

-- The clock does not run back within a call, nor from one call to the next.
abbrev pub Ordered : ℕ → List Note → Type 0
Ordered start [] = Unit
Ordered start (n ∷ notes) =
    (start ≤ (times n).check)
    × ((times n).check ≤ (times n).set)
    × ((k : Target) → ((times n).set ≤ (times n).prune k) × ((times n).prune k ≤ (times n).end))
    × Ordered (times n).end notes

-- When each side last changed a node, by a history with the newest call first.
unfoldable pub last_mac : Target → List Note → Option ℕ
last_mac k [] = none
last_mac k (guest _ _ _ ∷ h) = last_mac k h
last_mac k (mac now target _ _ ∷ h) = if target_eq target k then some now.set else last_mac k h

unfoldable pub last_guest : Target → List Note → Option ℕ
last_guest k [] = none
last_guest k (mac _ _ _ _ ∷ h) = last_guest k h
last_guest k (guest now target _ ∷ h) = if target_eq target k then some now.set else last_guest k h

-- The rows of one call: one, if the other side last changed the node within the window.
unfoldable pub conflict : List Note → Note → List ConflictRow
conflict h (mac now target path op) =
    if is_recent now.check (last_guest target h)
    then (record {
      at_unix_ms = now.unix_ms;
      target = target;
      path = path;
      kind = mac_over_guest;
      op = some op;
    }
        ∷ [])
    else []
conflict h (guest now target path) =
    if is_recent now.check (last_mac target h)
    then (record {
      at_unix_ms = now.unix_ms;
      target = target;
      path = path;
      kind = guest_over_mac;
      op = none;
    }
        ∷ [])
    else []

unfoldable pub conflicts : List Note → List Note → List ConflictRow
unfolding conflict
conflicts h [] = []
conflicts h (n ∷ notes) = conflict h n ++ conflicts (n ∷ h) notes

-- The last 1024 rows.
abbrev pub latest : List ConflictRow → List ConflictRow
latest rows = drop (length rows - max_rows) rows

-- At any time from `now` on, the two maps tell what the history tells.
pub record Tracks (now : ℕ) (h : List Note) (c : ConflictTracker) : Type 0 where
  pub mac_once : Unique c.recent_mac
  pub guest_once : Unique c.recent_guest
  pub macs :
      (later : ℕ) (k : Target)
      → now ≤ later
      → is_recent later (lookup k c.recent_mac) ≡ is_recent later (last_mac k h)
  pub guests :
      (later : ℕ) (k : Target)
      → now ≤ later
      → is_recent later (lookup k c.recent_guest) ≡ is_recent later (last_guest k h)

pub record Shows (rows : List ConflictRow) (c : ConflictTracker) : Type 0 where
  pub listed : c.rows ≡ latest rows
  pub counted : c.total ≡ length rows % 2 ^ 64
