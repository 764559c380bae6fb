-- ===== src/Tests/Store.antt =====
-- A share of crates/mist-replica/src/lib.rs with a few nodes.
use mist.Prelude.{ℕ, ◌+◌, ◌≤◌, true, some, [], ◌∷◌, length, ◌≡◌, refl, arith}
use mist.Proto.Types.{NodeKey, reg, dir}
use mist.Replica.Node.{placeholder_attr}
use mist.Replica.Share
use mist.Replica.Share.{State, Inode, get_node, put_node, del_node, upsert_node, fresh_node}
use mist.Replica.Links.{stored, remove_node_by, remove_node}
use mist.Replica.Links.Fuel.{remove_node_by-enough}
use mist.Proto.Validate.{All}
use mist.Proto.Msg.{Rec, created, SnapEntry, SnapDir}
use mist.Replica.Apply.{apply_rec, apply_snap_dir}
use mist.Replica.Keeps.{AllFit, new-AllFit}
use mist.Replica.Keeps.Nodes.{upsert_node-AllFit}
use mist.Replica.Keeps.Records.{added, NamesAreShort, apply_rec-AllFit}
use mist.Replica.Keeps.Snapshot.{apply_snap_dir-AllFit}
use mist.Tests.Hash.{listed}

abbrev key : ℕ → NodeKey
key n = record { ino = n; generation = 1 }

abbrev filled : State
filled =
    upsert_node (upsert_node (Share.new 0 (key 2)) (key 2) (placeholder_attr dir) (key 2)) (key 66)
      (placeholder_attr reg) (key 2)

remove_node_by-enough_example :
    remove_node_by (3 + stored filled) filled (key 2) ≡ remove_node filled (key 2)
remove_node_by-enough_example = remove_node_by-enough 3 filled (key 2)

-- The node of the file gets a name in the root.
abbrev add_name : Rec
add_name = created (key 2) (record { bytes = b'a' ∷ [] }) (key 66) (some (placeholder_attr reg))

add_name-short : NamesAreShort add_name
unfolding NamesAreShort
add_name-short = omega arith

add_name-small : added add_name + 5 ≤ 16777216
unfolding added
add_name-small = omega arith

filled-AllFit : AllFit (added add_name + 5) filled
filled-AllFit =
    upsert_node-AllFit (added add_name + 5)
      (upsert_node (Share.new 0 (key 2)) (key 2) (placeholder_attr dir) (key 2)) (key 66)
      (placeholder_attr reg) (key 2) add_name-small
      (upsert_node-AllFit (added add_name + 5) (Share.new 0 (key 2)) (key 2) (placeholder_attr dir)
        (key 2) add_name-small (new-AllFit (added add_name + 5) 0 (key 2)))

apply_rec-AllFit_example : AllFit 5 (apply_rec filled add_name).0
apply_rec-AllFit_example =
    apply_rec-AllFit 5 filled add_name add_name-small add_name-short filled-AllFit

abbrev file_entry : SnapEntry
file_entry = record {
  name = record { bytes = b'a' ∷ [] };
  node = key 66;
  attr = placeholder_attr reg;
}

abbrev root_snapshot : SnapDir
root_snapshot = record {
  share = 0;
  snap_id = 1;
  dir = key 2;
  dir_attr = placeholder_attr dir;
  parent = key 2;
  entries = file_entry ∷ [];
  last = true;
}

root_snapshot-short : All (λ e. length e.name.bytes ≤ 255) root_snapshot.entries
root_snapshot-short = (omega arith, tt)

root_snapshot-ours : root_snapshot.share ≡ (Share.new 0 (key 2)).id
unfolding Share.new
root_snapshot-ours = refl

root_snapshot-kind : root_snapshot.dir_attr.kind ≡ dir
unfolding placeholder_attr
root_snapshot-kind = refl

apply_snap_dir-AllFit_example :
    (s' : State) × (apply_snap_dir (Share.new 0 (key 2)) root_snapshot ≡ some s') × AllFit 5 s'
apply_snap_dir-AllFit_example =
    apply_snap_dir-AllFit 5 (Share.new 0 (key 2)) root_snapshot (omega arith) root_snapshot-ours
      root_snapshot-kind root_snapshot-short
      (new-AllFit (length root_snapshot.entries + 5) 0 (key 2))
