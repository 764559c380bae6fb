-- ===== src/Replica/Share.antt =====
-- `ShareReplica` of crates/mist-replica/src/lib.rs: its state, the access to the shards, and the
-- operations on one node. Locks order the operations, each of which is one state change here.
pub mod Shards
use mist.Prelude.{
  ℕ, zero, suc, ◌+◌, ◌-◌, ◌*◌, ◌%◌, ◌^◌, ◌≤◌, ◌<◌, Bool, true, false, not, ◌&&◌, ◌||◌, Option, none,
  some, List, [], ◌∷◌, ◌++◌, length, leb, ltb, ◌==◌, if◌then◌else◌,
}
use mist.Prelude.Map
use mist.Prelude.Map.{Map}
use mist.Proto.Types.{NodeKey, pos, Ts, Kind, dir, symlink, chr, blk, kind_eq, Attr}
use mist.Proto.Keys.{key_eq, node_key}
use mist.Replica.Hashing.{Hashing}
use mist.Replica.Dir
use mist.Replica.Dir.{DirState, Dir}
use mist.Replica.Node.{
  Node, ShareState, Pending, attr, content, seeding, set_parent, set_attr, attr_of,
}

abbrev pub shard_count : ℕ
shard_count = 64

abbrev pub max_pending : ℕ
max_pending = 65536

-- The id and the root are those of the share's `info`. The shards are a function of their index.
pub record ShareReplica (T : Type 0) : Type 0 where
  pub id : ℕ
  pub root : NodeKey
  pub state : ShareState
  pub shards : ℕ → Map NodeKey (Node T)
  pub pending : Map NodeKey (List Pending)
  pub symlinks : Map NodeKey (List ℕ)
  pub rdevs : Map NodeKey ℕ
  pub nodes : ℕ
  pub dirs : ℕ
  pub entries : ℕ

pub record ReplicaStats : Type 0 where
  pub nodes : ℕ
  pub dirs : ℕ
  pub entries : ℕ

-- `AtomicU64::fetch_add` and `fetch_sub`, which wrap.
abbrev pub fetch_add : ℕ → ℕ → ℕ
fetch_add c n = (c + n) % 2 ^ 64

abbrev pub fetch_sub : ℕ → ℕ → ℕ
fetch_sub c n = (c + 2 ^ 64 - n) % 2 ^ 64

abbrev pub update : {A : Type 0} → (ℕ → A) → ℕ → A → ℕ → A
update f i a j = if i == j then a else f j

module _ ⦃hashing : Hashing⦄ where
  abbrev pub State : Type 0
  State = ShareReplica hashing.Table

  abbrev pub Inode : Type 0
  Inode = Node hashing.Table

  abbrev pub shard_of : NodeKey → ℕ
  shard_of key = hashing.key_hash key % shard_count

  unfoldable pub new : (id : ℕ) → (root : NodeKey) → State
  new id root = record {
    id = id;
    root = root;
    state = seeding;
    shards = λ _. [];
    pending = [];
    symlinks = [];
    rdevs = [];
    nodes = 0;
    dirs = 0;
    entries = 0;
  }

  -- `shards[i]`: nothing can be read at an index out of range, where Rust panics.
  abbrev pub shard_at : (ℕ → Map NodeKey Inode) → ℕ → Map NodeKey Inode
  shard_at shards i = if ltb i shard_count then shards i else []

  -- `shards[shard_of(key)]`, and `get`, `insert` and `remove` on it
  unfoldable pub get_node : State → NodeKey → Option Inode
  get_node s key = Map.lookup key (shard_at s.shards (shard_of key))

  unfoldable pub put_node : State → NodeKey → Inode → State
  put_node s key n = record s {
    shards = update s.shards (shard_of key) (Map.insert key n (s.shards (shard_of key)));
  }

  unfoldable pub del_node : State → NodeKey → State
  del_node s key = record s {
    shards = update s.shards (shard_of key) (Map.remove key (s.shards (shard_of key)));
  }

  -- `if let Some(n) = shard.get_mut(&key)`
  abbrev pub modify_at : State → NodeKey → (Inode → Inode) → Option Inode → State
  modify_at s key f none = s
  modify_at s key f (some n) = put_node s key (f n)

  abbrev pub modify : State → NodeKey → (Inode → Inode) → State
  modify s key f = modify_at s key f (get_node s key)

  abbrev pub stats : State → ReplicaStats
  stats s = record { nodes = s.nodes; dirs = s.dirs; entries = s.entries }

  abbrev pub entries_add : State → ℕ → State
  entries_add s n = record s { entries = fetch_add s.entries n }

  abbrev pub entries_sub : State → ℕ → State
  entries_sub s n = record s { entries = fetch_sub s.entries n }

  unfoldable pub note_target : State → NodeKey → Option (List ℕ) → State × Bool
  note_target s key none = (s, false)
  note_target s key (some t) = (record s { symlinks = Map.insert key t s.symlinks }, true)

  unfoldable pub note_side : State → NodeKey → Attr → State × Bool
  unfolding note_target
  note_side s key a =
      let (s', side) = note_target s key a.symlink_target in
      if not (a.rdev == 0)
      then (record s' { rdevs = Map.insert key a.rdev s'.rdevs }, true)
      else (s', side)

  unfoldable pub graft_side : State → NodeKey → Bool → Attr → Attr
  graft_side s key has_side a =
      if has_side
      then record a {
        symlink_target =
            if kind_eq a.kind symlink then Map.lookup key s.symlinks else a.symlink_target;
        rdev =
            if kind_eq a.kind chr || kind_eq a.kind blk
            then elim (Map.lookup key s.rdevs) [ none ↦ 0 | some r ↦ r ]
            else a.rdev;
      }
      else a

  unfoldable pub drop_side : State → NodeKey → State
  drop_side s key = record s {
    symlinks = Map.remove key s.symlinks;
    rdevs = Map.remove key s.rdevs;
  }

  -- The node that `upsert_node` writes, and whether it gained a directory table.
  unfoldable pub fresh_node : Attr → NodeKey → Bool → Inode
  fresh_node a p has_side =
      let blank : Inode = record {
        size = 0;
        blocks = 0;
        content_version = a.content_version;
        mtime_sec = pos 0;
        ctime_sec = pos 0;
        parent_ino = p.ino;
        parent_gen = p.generation;
        mtime_nsec = 0;
        ctime_nsec = 0;
        nlink = 0;
        uid = 0;
        gid = 0;
        links = 0;
        mode = 0;
        kind = a.kind;
        has_side = has_side;
        dir = if kind_eq a.kind dir then some Dir.new else none;
      } in
      set_attr blank a

  unfoldable pub known_node : Inode → Attr → NodeKey → Bool → Inode
  known_node n a p has_side =
      let n' = set_parent (set_attr n a) p in
      record n' {
        content_version = n.content_version;
        has_side = n.has_side || has_side;
        dir = elim n.dir [
          | some d ↦ some d
          | none ↦ if kind_eq a.kind dir then some Dir.new else none
        ];
      }

  pub gains_dir : Option Inode → Attr → Bool
  gains_dir none a = kind_eq a.kind dir
  gains_dir (some n) a = kind_eq a.kind dir && elim n.dir [ none ↦ true | some _ ↦ false ]

  unfoldable pub upsert_node_at : State → NodeKey → Attr → NodeKey → Bool → Option Inode → State
  unfolding fresh_node known_node gains_dir
  upsert_node_at s key a p has_side none =
      let s' = put_node s key (fresh_node a p has_side) in
      record s' {
        dirs = if gains_dir none a then fetch_add s.dirs 1 else s.dirs;
        nodes = fetch_add s.nodes 1;
      }
  upsert_node_at s key a p has_side (some n) =
      let s' = put_node s key (known_node n a p has_side) in
      record s' { dirs = if gains_dir (some n) a then fetch_add s.dirs 1 else s.dirs }

  unfoldable pub upsert_node : State → NodeKey → Attr → NodeKey → State
  unfolding upsert_node_at
  upsert_node s key a p =
      let (s', has_side) = note_side s key a in upsert_node_at s' key a p has_side (get_node s' key)

  abbrev pub is_known : Option Inode → Bool
  is_known none = false
  is_known (some _) = true

  -- The Boolean is the method's result: the node was there.
  unfoldable pub update_attr : State → NodeKey → Attr → State × Bool
  update_attr s key a =
      let (s', has_side) = note_side s key a in
      (
        modify s' key (λ n. record (set_attr n a) { has_side = n.has_side || has_side }),
        is_known (get_node s' key),
      )

  unfoldable pub update_content : State → NodeKey → ℕ → ℕ → Ts → State × Bool
  update_content s key version size mtime = (
    modify s key λ n. record n {
      size = size;
      mtime_sec = mtime.sec;
      mtime_nsec = mtime.nsec;
      content_version = version;
    },
    is_known (get_node s key),
  )

  abbrev or_empty : Option (List Pending) → List Pending
  or_empty none = []
  or_empty (some ps) = ps

  unfoldable pub stash_pending : State → NodeKey → Pending → State
  stash_pending s key p =
      let pend = if leb max_pending (length s.pending) then [] else s.pending in
      record s { pending = Map.insert key (or_empty (Map.lookup key pend) ++ p ∷ []) pend }

  -- The loop of `drain_pending`.
  unfoldable pub replay : State → NodeKey → List Pending → State
  replay s key [] = s
  replay s key (attr a ∷ items) = replay (update_attr s key a).0 key items
  replay s key (content version size mtime ∷ items) =
      replay (update_content s key version size mtime).0 key items

  unfoldable pub drain_pending : State → NodeKey → State
  drain_pending s key = elim (Map.lookup key s.pending) [
    | none ↦ s
    | some items ↦ replay (record s { pending = Map.remove key s.pending }) key items
  ]

  unfoldable pub mark_dir_complete : State → NodeKey → State
  mark_dir_complete s key = modify s key λ n. record n {
    dir = elim n.dir [ none ↦ none | some d ↦ some (record d { complete = true }) ];
  }
