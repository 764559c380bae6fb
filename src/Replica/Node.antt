-- ===== src/Replica/Node.antt =====
-- `Node` of crates/mist-replica/src/lib.rs, and the small types around it.
use mist.Prelude.{ℕ, zero, suc, ◌+◌, Bool, Option, none, if◌then◌else◌}
use mist.Proto.Types.{NodeKey, ℤ, pos, negsuc, Ts, Kind, dir, kind_eq, Attr}
use mist.Replica.Dir.{DirState}

pub data ApplyOutcome : Type 0 where
  applied need_resync : ApplyOutcome

pub data ShareState : Type 0 where
  seeding live degraded offline : ShareState

pub data Pending : Type 0 where
  attr : Attr → Pending
  content : (version size : ℕ) (mtime : Ts) → Pending

abbrev zero_ts : Ts
zero_ts = record { sec = pos 0; nsec = 0 }

unfoldable pub placeholder_attr : Kind → Attr
placeholder_attr kind = record {
  kind = kind;
  mode = if kind_eq kind dir then 0o755 else 0o644;
  nlink = 1;
  uid = 0;
  gid = 0;
  size = 0;
  blocks = 0;
  mtime = zero_ts;
  ctime = zero_ts;
  rdev = 0;
  content_version = 0;
  symlink_target = none;
}

pub record Node (T : Type 0) : Type 0 where
  pub size : ℕ
  pub blocks : ℕ
  pub content_version : ℕ
  pub mtime_sec : ℤ
  pub ctime_sec : ℤ
  pub parent_ino : ℕ
  pub parent_gen : ℕ
  pub mtime_nsec : ℕ
  pub ctime_nsec : ℕ
  pub nlink : ℕ
  pub uid : ℕ
  pub gid : ℕ
  pub links : ℕ
  pub mode : ℕ
  pub kind : Kind
  pub has_side : Bool
  pub dir : Option (DirState T)

module _ {T : Type 0} where
  abbrev pub parent : Node T → NodeKey
  parent n = record { ino = n.parent_ino; generation = n.parent_gen }

  abbrev pub set_parent : Node T → NodeKey → Node T
  set_parent n p = record n { parent_ino = p.ino; parent_gen = p.generation }

  -- The content version stays.
  abbrev pub set_attr : Node T → Attr → Node T
  set_attr n a = record n {
    size = a.size;
    blocks = a.blocks;
    mtime_sec = a.mtime.sec;
    mtime_nsec = a.mtime.nsec;
    ctime_sec = a.ctime.sec;
    ctime_nsec = a.ctime.nsec;
    nlink = a.nlink;
    uid = a.uid;
    gid = a.gid;
    mode = a.mode;
    kind = a.kind;
  }

  abbrev pub attr_of : Node T → Attr
  attr_of n = record {
    kind = n.kind;
    mode = n.mode;
    nlink = n.nlink;
    uid = n.uid;
    gid = n.gid;
    size = n.size;
    blocks = n.blocks;
    mtime = record { sec = n.mtime_sec; nsec = n.mtime_nsec };
    ctime = record { sec = n.ctime_sec; nsec = n.ctime_nsec };
    rdev = 0;
    content_version = n.content_version;
    symlink_target = none;
  }

-- `sec + 1` on an `i64`; the source would overflow only past the last representable second.
abbrev pub next_sec : ℤ → ℤ
next_sec (pos n) = pos (n + 1)
next_sec (negsuc zero) = pos 0
next_sec (negsuc (suc n)) = negsuc n

pub data ReplicaError : Type 0 where
  no_ent not_dir not_symlink incomplete bad_path : ReplicaError
