-- ===== src/Hostd/Conflicts/Shows.antt =====
-- The conflict tracker of crates/mist-hostd/src/conflicts.rs call by call, against the whole history.
use mist.Prelude.{
  ℕ, ◌+◌, ◌-◌, ◌%◌, ◌^◌, ◌≤◌, Bool, true, false, Option, none, some, List, [], ◌∷◌, ◌++◌, String,
  length, drop, ltb, leb, if◌then◌else◌, ◌≡◌, refl, sym, ap, ◌∙◌, arith, inl, inr, Bool-cases,
  append_assoc, append-nil, length-append, length-drop, drop-append_le, drop-drop,
}
use mist.Prelude.Map.{Map, insert, lookup, lookup-insert}
use mist.Prelude.Map.Unique.{Unique, insert-Unique, retain_by-Unique, lookup-retain_by}
use mist.Hostd.Conflicts.{
  max_rows, max_tracked, Target, target_eq, target_key, ConflictRow, ConflictTracker, default,
  mac_over_guest, guest_over_mac, is_within, is_recent, prune, push, Times, note_mac, note_guest,
}
use mist.Hostd.Conflicts.Spec.{
  Note, mac, guest, run, Ordered, last_mac, last_guest, conflict, conflicts, latest, Tracks, Shows,
}

prune-Unique : (now : Target → ℕ) (m : Map Target ℕ) → Unique m → Unique (prune now m)
unfolding prune
prune-Unique now m u = elim (Bool-cases (ltb max_tracked (length m))) [
  | inl t ↦ rw t (retain_by-Unique (λ k. is_within (now k)) m u)
  | inr f ↦ rw f u
]

-- Pruning forgets nothing that could still be recent.
recent-prune :
    (now : Target → ℕ) (later : ℕ) (k : Target) (m : Map Target ℕ)
    → Unique m
    → now k ≤ later
    → is_recent later (lookup k (prune now m)) ≡ is_recent later (lookup k m)
unfolding prune
recent-prune now later k m u h = elim (Bool-cases (ltb max_tracked (length m))) [
  | inl t ↦ rw t (rw (lookup-retain_by (λ j. is_within (now j)) k m u) (ground arith))
  | inr f ↦ rw f refl
]

recent-set :
    (now : Target → ℕ) (later set : ℕ) (target k : Target) (m : Map Target ℕ) (o : Option ℕ)
    → Unique m
    → now k ≤ later
    → is_recent later (lookup k m) ≡ is_recent later o
    → is_recent later (lookup k (prune now (insert target set m)))
      ≡ is_recent later (if target_eq target k then some set else o)
recent-set now later set target k m o u h e =
    recent-prune now later k (insert target set m) (insert-Unique target set m u) h
    ∙ ap (is_recent later) (lookup-insert target k set m)
    ∙ elim (Bool-cases (target_eq target k)) [ inl t ↦ rw t refl | inr f ↦ rw f e ]

-- A full window loses its first row for a new one, and is again the end of the list.
slide :
    (rows : List ConflictRow) (row : ConflictRow)
    → (if leb max_rows (length (latest rows)) then drop 1 (latest rows) else latest rows)
        ++ row ∷ []
      ≡ latest (rows ++ row ∷ [])
slide rows row =
    let n = length rows - max_rows in
    let at_end = length-drop n rows in
    let grown = length-append rows (row ∷ []) in
    elim (Bool-cases (leb max_rows (length (latest rows)))) [
      | inl t ↦
          let fits : length (rows ++ row ∷ []) - max_rows ≡ n + 1 = ground arith in
          rw t (
            rw fits (
              ap (◌++ (row ∷ [])) (drop-drop n 1 rows)
              ∙ sym (drop-append_le (n + 1) rows (row ∷ []) (ground arith))))
      | inr f ↦
          let fits : length (rows ++ row ∷ []) - max_rows ≡ n = ground arith in
          rw f (rw fits (sym (drop-append_le n rows (row ∷ []) (omega arith))))
    ]

push-Shows :
    (rows : List ConflictRow) (c : ConflictTracker) (row : ConflictRow)
    → Shows rows c
    → Shows (rows ++ row ∷ []) (push c row)
unfolding push
push-Shows rows c row s = record {
  listed = rw s.listed (slide rows row);
  counted = omega (arith, s.counted, length-append rows (row ∷ []));
}

-- A step adds at most one row, and `push` leaves the maps alone.
step-Shows :
    (rows : List ConflictRow) (c : ConflictTracker) (row : ConflictRow) (found : Bool)
    → Shows rows c
    → Shows (rows ++ (if found then row ∷ [] else [])) (if found then push c row else c)
step-Shows rows c row true s = push-Shows rows c row s
step-Shows rows c row false s = rw (append-nil rows) s

push_maps :
    (c : ConflictTracker) (row : ConflictRow) (found : Bool)
    → ((if found then push c row else c).recent_mac ≡ c.recent_mac)
      × ((if found then push c row else c).recent_guest ≡ c.recent_guest)
unfolding push
push_maps c row true = (refl, refl)
push_maps c row false = (refl, refl)

module _ {h : List Note} {start : ℕ} {c : ConflictTracker} (now : Times) (target : Target)
    (path : Option String) where
  note_mac-Tracks :
      (op : String)
      → start ≤ now.check
      → now.check ≤ now.set
      → ((k : Target) → (now.set ≤ now.prune k) × (now.prune k ≤ now.end))
      → Tracks start h c
      → Tracks now.end (mac now target path op ∷ h) (note_mac c now target path op)
  unfolding note_mac last_mac last_guest
  note_mac-Tracks op o1 o2 o3 t =
      let row : ConflictRow = record {
        at_unix_ms = now.unix_ms;
        target = target;
        path = path;
        kind = mac_over_guest;
        op = some op;
      } in
      let found = is_recent now.check (lookup target c.recent_guest) in
      let same = push_maps c row found in
      record {
        mac_once = rw same.0 (
            prune-Unique now.prune (insert target now.set c.recent_mac)
              (insert-Unique target now.set c.recent_mac t.mac_once));
        guest_once = rw same.1 t.guest_once;
        macs = λ later k o. rw same.0 (
            recent-set now.prune later now.set target k c.recent_mac (last_mac k h) t.mac_once
              (omega (arith, o, (o3 k).1)) (t.macs later k (omega (arith, o, (o3 k).0, (o3 k).1))));
        guests = λ later k o. rw same.1 (t.guests later k (omega (arith, o, (o3 k).0, (o3 k).1)));
      }

  note_mac-Shows :
      (rows : List ConflictRow) (op : String)
      → start ≤ now.check
      → Tracks start h c
      → Shows rows c
      → Shows (rows ++ conflict h (mac now target path op)) (note_mac c now target path op)
  unfolding note_mac conflict
  note_mac-Shows rows op o t s =
      let row : ConflictRow = record {
        at_unix_ms = now.unix_ms;
        target = target;
        path = path;
        kind = mac_over_guest;
        op = some op;
      } in
      let seen = step-Shows rows c row (is_recent now.check (lookup target c.recent_guest)) s in
      rw (sym (t.guests now.check target o))
        (record { listed = seen.listed; counted = seen.counted })

  note_guest-Tracks :
      start ≤ now.check
      → now.check ≤ now.set
      → ((k : Target) → (now.set ≤ now.prune k) × (now.prune k ≤ now.end))
      → Tracks start h c
      → Tracks now.end (guest now target path ∷ h) (note_guest c now target path)
  unfolding note_guest last_mac last_guest
  note_guest-Tracks o1 o2 o3 t =
      let row : ConflictRow = record {
        at_unix_ms = now.unix_ms;
        target = target;
        path = path;
        kind = guest_over_mac;
        op = none;
      } in
      let found = is_recent now.check (lookup target c.recent_mac) in
      let same = push_maps c row found in
      record {
        mac_once = rw same.0 t.mac_once;
        guest_once = rw same.1 (
            prune-Unique now.prune (insert target now.set c.recent_guest)
              (insert-Unique target now.set c.recent_guest t.guest_once));
        macs = λ later k o. rw same.0 (t.macs later k (omega (arith, o, (o3 k).0, (o3 k).1)));
        guests = λ later k o. rw same.1 (
            recent-set now.prune later now.set target k c.recent_guest (last_guest k h) t.guest_once
              (omega (arith, o, (o3 k).1))
              (t.guests later k (omega (arith, o, (o3 k).0, (o3 k).1))));
      }

  note_guest-Shows :
      (rows : List ConflictRow)
      → start ≤ now.check
      → Tracks start h c
      → Shows rows c
      → Shows (rows ++ conflict h (guest now target path)) (note_guest c now target path)
  unfolding note_guest conflict
  note_guest-Shows rows o t s =
      let row : ConflictRow = record {
        at_unix_ms = now.unix_ms;
        target = target;
        path = path;
        kind = guest_over_mac;
        op = none;
      } in
      let seen = step-Shows rows c row (is_recent now.check (lookup target c.recent_mac)) s in
      rw (sym (t.macs now.check target o)) (record { listed = seen.listed; counted = seen.counted })

run-Shows :
    (h : List Note) (rows : List ConflictRow) (start : ℕ) (c : ConflictTracker) (notes : List Note)
    → Ordered start notes
    → Tracks start h c
    → Shows rows c
    → Shows (rows ++ conflicts h notes) (run c notes)
unfolding run conflicts
run-Shows h rows start c [] o t s = rw (append-nil rows) s
run-Shows h rows start c (mac now target path op ∷ notes) o t s =
    let tracks = note_mac-Tracks now target path op o.0 o.1 o.2 t in
    let shows = note_mac-Shows now target path rows op o.0 t s in
    let row = conflict h (mac now target path op) in
    rw (sym (append_assoc rows row (conflicts (mac now target path op ∷ h) notes))) (
      run-Shows (mac now target path op ∷ h) (rows ++ row) now.end (note_mac c now target path op)
        notes o.3 tracks shows)
run-Shows h rows start c (guest now target path ∷ notes) o t s =
    let tracks = note_guest-Tracks now target path o.0 o.1 o.2 t in
    let shows = note_guest-Shows now target path rows o.0 t s in
    let row = conflict h (guest now target path) in
    rw (sym (append_assoc rows row (conflicts (guest now target path ∷ h) notes))) (
      run-Shows (guest now target path ∷ h) (rows ++ row) now.end (note_guest c now target path)
        notes o.3 tracks shows)

-- For any sequence of calls whose clock does not run
-- back, the tracker lists the last 1024 rows of the conflicts that the whole history has (a change of
-- one side whose node the other side changed last less than 5 seconds before), and counts them
-- modulo 2^64. So the pruning of the two maps loses no conflict.
pub run-conflicts :
    (start : ℕ) (notes : List Note)
    → Ordered start notes
    → ((run default notes).rows ≡ latest (conflicts [] notes))
      × ((run default notes).total ≡ length (conflicts [] notes) % 2 ^ 64)
unfolding last_mac last_guest lookup
run-conflicts start notes o =
    let tracks : Tracks start [] default = record {
      mac_once = tt;
      guest_once = tt;
      macs = λ later k u. refl;
      guests = λ later k u. refl;
    } in
    let shows =
      run-Shows [] [] start default notes o tracks (record { listed = refl; counted = refl }) in
    (shows.listed, shows.counted)
