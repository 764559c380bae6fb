-- ===== src/Tests/Directory.antt =====
-- A directory of crates/mist-replica/src/lib.rs with the entries `a` and `b`.
use mist.Prelude.{
  none, some, bytes_eq, if◌then◌else◌, ℕ, [], ◌∷◌, length, take, drop, leb, ◌≡◌, refl, arith,
}
use mist.Proto.Types.{NodeKey, reg, dir, Name}
use mist.Replica.Dir
use mist.Replica.Dir.{Dir, upsert, remove, find, compact, insert_new, find_idx}
use mist.Replica.Dir.Slots.{entry_named, without}
use mist.Replica.Dir.Valid.{IsWellFormed, view, new-IsWellFormed}
use mist.Replica.Dir.Insert.{HasRoom}
use mist.Replica.Dir.Compact.{view-compact}
use mist.Replica.Dir.Found.{find_lem, found_target}
use mist.Replica.Dir.Refine.{upsert-view, remove-view, upsert_view, node_of}
use mist.Replica.Dir.Lookup.{find-upsert, find-remove}
use mist.Replica.Read.{page}
use mist.Replica.Read.Paging.{later, last_cookie, page_lem, page-resume}
use mist.Tests.Hash.{listed}

abbrev name_a : Name
name_a = record { bytes = b'a' ∷ [] }

abbrev name_b : Name
name_b = record { bytes = b'b' ∷ [] }

abbrev key : ℕ → NodeKey
key n = record { ino = n; generation = 1 }

abbrev one_entry : Dir
one_entry = (upsert Dir.new name_a (key 7) reg).0

abbrev two_entries : Dir
two_entries = (upsert one_entry name_b (key 8) dir).0

room_new : HasRoom Dir.new name_a.bytes
room_new = record { short = omega arith; arena = omega arith; ents = omega arith }

one_entry-IsWellFormed : IsWellFormed one_entry
one_entry-IsWellFormed = (upsert-view Dir.new name_a (key 7) reg new-IsWellFormed room_new).0

room_one : HasRoom one_entry name_b.bytes
unfolding upsert insert_new find_idx
room_one = record { short = omega arith; arena = omega arith; ents = omega arith }

upsert-view_example :
    IsWellFormed two_entries
    × ((view two_entries, (upsert one_entry name_b (key 8) dir).1)
        ≡ upsert_view
            (view one_entry)
            one_entry.next_cookie
            name_b
            (key 8)
            dir
            (entry_named name_b.bytes (view one_entry)))
upsert-view_example = upsert-view one_entry name_b (key 8) dir one_entry-IsWellFormed room_one

two_entries-IsWellFormed : IsWellFormed two_entries
two_entries-IsWellFormed =
    (upsert-view one_entry name_b (key 8) dir one_entry-IsWellFormed room_one).0

remove-view_example :
    IsWellFormed (remove two_entries name_a.bytes).0
    × (view (remove two_entries name_a.bytes).0 ≡ without name_a.bytes (view two_entries))
    × ((remove two_entries name_a.bytes).1 ≡ node_of (entry_named name_a.bytes (view two_entries)))
remove-view_example = remove-view two_entries name_a.bytes two_entries-IsWellFormed

find_lem_example :
    find two_entries name_b.bytes ≡ found_target (entry_named name_b.bytes (view two_entries))
find_lem_example = find_lem two_entries name_b.bytes two_entries-IsWellFormed

view-compact_example : view (compact two_entries) ≡ view two_entries
view-compact_example = view-compact two_entries two_entries-IsWellFormed

page_lem_example : page two_entries 3 10 ≡ record {
  entries = take 10 (later 3 (view two_entries));
  eof = leb (length (later 3 (view two_entries))) 10;
  dirgen = two_entries.dirgen;
}
page_lem_example = page_lem two_entries 3 10 two_entries-IsWellFormed

page-resume_example :
    (page two_entries (last_cookie 0 (page two_entries 0 1).entries) 5).entries
    ≡ take 5 (drop 1 (later 0 (view two_entries)))
page-resume_example = page-resume two_entries 0 1 5 two_entries-IsWellFormed

find-upsert_example : find (upsert one_entry name_b (key 8) dir).0 name_a.bytes ≡ (
    if bytes_eq name_b.bytes name_a.bytes then some (key 8, dir) else find one_entry name_a.bytes)
find-upsert_example =
    find-upsert one_entry name_b (key 8) dir name_a.bytes one_entry-IsWellFormed room_one

find-remove_example :
    find (remove two_entries name_a.bytes).0 name_b.bytes
    ≡ (if bytes_eq name_a.bytes name_b.bytes then none else find two_entries name_b.bytes)
find-remove_example = find-remove two_entries name_a.bytes name_b.bytes two_entries-IsWellFormed

-- The directory shows both entries.
two_names : length (view two_entries) ≡ 2
unfolding upsert insert_new find_idx
two_names = refl
