-- ===== src/Proto/Msg.antt =====
-- crates/mist-proto/src/msg.rs: the messages of the lanes, in the source's order of variants, with
-- their validation. A Rust string is the list of its bytes; a token hash is a list of bytes too.
pub mod Accepts
use mist.Prelude.{
  ℕ, ◌*◌, Bool, true, false, not, ◌||◌, Option, none, some, List, [], ◌∷◌, length, any, ltb, ◌==◌,
  if◌then◌else◌,
}
use mist.Prelude.Result.{ok, err, ◌>>=◌, ◌>>◌}
use mist.Proto.Caps.{
  max_str, max_shares, max_statbatch, max_read_len, max_snap_entries, max_records_per_batch,
}
use mist.Proto.Validate.{Validated, refuse_if, validate_option, validate_all}
use mist.Proto.Types.{
  NodeKey, Ts, Kind, dir, symlink, kind_eq, Attr, Name, ShareInfo, GuestInfo, validate_attr,
  validate_share_info, validate_guest_info, bad_target_length,
}

pub data Lane : Type 0 where
  ctl journal rpc bulk : Lane

pub data CtlMsg : Type 0 where
  hello : (proto features : ℕ) (token_hash host_name host_version : List ℕ) → CtlMsg
  hello_ack :
      (proto features boot_id session_id : ℕ) (shares : List ShareInfo) (guest : GuestInfo) → CtlMsg
  auth_fail : CtlMsg
  stream_hello : (session_id : ℕ) (lane : Lane) (idx : ℕ) → CtlMsg
  attach_share : (share : ℕ) → CtlMsg
  detach_share : (share : ℕ) → CtlMsg
  snapshot_start : (share snap_id : ℕ) → CtlMsg
  snapshot_abort : (snap_id : ℕ) → CtlMsg
  rescan_dir : (share : ℕ) (dir : NodeKey) (snap_id : ℕ) → CtlMsg
  ping : (nonce : ℕ) → CtlMsg
  pong : (nonce guest_mono_ns : ℕ) → CtlMsg
  share_gone : (share : ℕ) → CtlMsg
  goodbye : (reason : List ℕ) → CtlMsg
  endpoints : (tcp : List (List ℕ)) → CtlMsg
  vm_identity : (vm_uuid : List ℕ) → CtlMsg

abbrev pub too_long : List ℕ → Bool
too_long s = ltb max_str (length s)

unfoldable pub validate_ctl : CtlMsg → Validated
validate_ctl (hello _ _ _ host_name host_version) =
    refuse_if (too_long host_name || too_long host_version) "hello string length"
validate_ctl (hello_ack _ _ _ _ shares guest) = do
  refuse_if (ltb max_shares (length shares)) "too many shares"
  validate_all validate_share_info shares
  validate_guest_info guest
validate_ctl (goodbye reason) = refuse_if (too_long reason) "goodbye reason length"
validate_ctl (endpoints tcp) = refuse_if (ltb 8 (length tcp) || any too_long tcp) "endpoints list"
validate_ctl _ = ok tt

pub data RpcReq : Type 0 where
  stat : (share : ℕ) (node : NodeKey) → RpcReq
  stat_batch : (share : ℕ) (nodes : List NodeKey) → RpcReq
  lookup : (share : ℕ) (dir : NodeKey) (name : Name) → RpcReq
  read : (share : ℕ) (node : NodeKey) (version_hint off len ra : ℕ) → RpcReq
  create :
      (share : ℕ) (dir : NodeKey) (name : Name) (kind : Kind) (mode rdev : ℕ)
      (symlink_target : Option (List ℕ)) (exclusive : Bool)
      → RpcReq
  unlink : (share : ℕ) (dir : NodeKey) (name : Name) → RpcReq
  rmdir : (share : ℕ) (dir : NodeKey) (name : Name) → RpcReq
  rename :
      (share : ℕ) (from_dir : NodeKey) (from_name : Name) (to_dir : NodeKey) (to_name : Name)
      → RpcReq
  set_attr :
      (share : ℕ) (node : NodeKey) (mode uid gid size : Option ℕ) (mtime : Option Ts) → RpcReq
  write : (share : ℕ) (node : NodeKey) (off : ℕ) (sync : Bool) (payload : List ℕ) → RpcReq
  commit : (share : ℕ) (node : NodeKey) → RpcReq
  commit_range : (share : ℕ) (node : NodeKey) (off len : ℕ) → RpcReq

abbrev pub check_create : Kind → Option (List ℕ) → Validated
check_create kind (some t) =
    refuse_if (not (kind_eq kind symlink)) "symlink_target on non-symlink create"
    >> refuse_if (bad_target_length t) "symlink target length"
check_create kind none = refuse_if (kind_eq kind symlink) "symlink create without target"

unfoldable pub validate_req : RpcReq → Validated
validate_req (stat_batch _ nodes) =
    refuse_if (ltb max_statbatch (length nodes)) "statbatch too large"
validate_req (read _ _ _ _ len _) =
    refuse_if (len == 0 || ltb max_read_len len) "read len out of range"
validate_req (create _ _ _ kind _ _ symlink_target _) = check_create kind symlink_target
validate_req (write _ _ _ _ payload) =
    refuse_if (ltb max_read_len (length payload)) "write data too large"
validate_req _ = ok tt

-- `errno` is an `i32` as its bit pattern.
pub record RpcErr : Type 0 where
  pub errno : ℕ
  pub msg : List ℕ

unfoldable pub validate_rpc_err : RpcErr → Validated
validate_rpc_err e = refuse_if (too_long e.msg) "rpc error message length"

pub data RpcResp : Type 0 where
  attr : Attr → RpcResp
  attrs : List (Option Attr) → RpcResp
  entry : (node : NodeKey) (attr : Attr) → RpcResp
  read_start : (version len : ℕ) (eof : Bool) → RpcResp
  error : RpcErr → RpcResp
  done : RpcResp

unfoldable pub validate_resp : RpcResp → Validated
validate_resp (attr a) = validate_attr a
validate_resp (attrs v) =
    refuse_if (ltb max_statbatch (length v)) "attrs batch too large"
    >> validate_all (validate_option validate_attr) v
validate_resp (entry _ a) = validate_attr a
validate_resp (error e) = validate_rpc_err e
validate_resp (read_start _ _ _) = ok tt
validate_resp done = ok tt

pub record SnapEntry : Type 0 where
  pub name : Name
  pub node : NodeKey
  pub attr : Attr

unfoldable pub validate_snap_entry : SnapEntry → Validated
validate_snap_entry e = validate_attr e.attr

pub data Rec : Type 0 where
  created : (parent : NodeKey) (name : Name) (node : NodeKey) (attr : Option Attr) → Rec
  created_batch : (parent : NodeKey) (entries : List SnapEntry) → Rec
  removed : (parent : NodeKey) (name : Name) → Rec
  renamed : (from_parent : NodeKey) (from_name : Name) (to_parent : NodeKey) (to_name : Name) → Rec
  attr_changed : (node : NodeKey) (attr : Attr) → Rec
  content : (node : NodeKey) (version size : ℕ) (mtime : Ts) (in_progress : Bool) → Rec
  self_removed : (node : NodeKey) → Rec
  overflow : Rec
  echo_marker : (tag : ℕ) → Rec

unfoldable pub validate_rec : Rec → Validated
validate_rec (created _ _ _ a) = validate_option validate_attr a
validate_rec (created_batch _ entries) =
    refuse_if (ltb max_snap_entries (length entries)) "created batch too large"
    >> validate_all validate_snap_entry entries
validate_rec (attr_changed _ a) = validate_attr a
validate_rec _ = ok tt

pub record JournalBatch : Type 0 where
  pub share : ℕ
  pub first_seq : ℕ
  pub guest_mono_ns : ℕ
  pub records : List Rec

unfoldable pub validate_journal_batch : JournalBatch → Validated
validate_journal_batch b =
    refuse_if (length b.records == 0 || ltb max_records_per_batch (length b.records))
      "journal batch size"
    >> validate_all validate_rec b.records

pub record SnapDir : Type 0 where
  pub snap_id : ℕ
  pub share : ℕ
  pub dir : NodeKey
  pub dir_attr : Attr
  pub parent : NodeKey
  pub entries : List SnapEntry
  pub last : Bool

unfoldable pub validate_snap_dir : SnapDir → Validated
validate_snap_dir d = do
  refuse_if (ltb max_snap_entries (length d.entries)) "snapdir too large"
  validate_attr d.dir_attr
  refuse_if (not (kind_eq d.dir_attr.kind dir)) "snapdir attr not a dir"
  validate_all validate_snap_entry d.entries

pub record SnapDone : Type 0 where
  pub snap_id : ℕ
  pub share : ℕ
  pub dirs : ℕ
  pub entries : ℕ
  pub errors : ℕ

pub data EventMsg : Type 0 where
  journal_batch : JournalBatch → EventMsg
  snap_dir : SnapDir → EventMsg
  snap_done : SnapDone → EventMsg

unfoldable pub validate_event : EventMsg → Validated
validate_event (journal_batch b) = validate_journal_batch b
validate_event (snap_dir d) = validate_snap_dir d
validate_event (snap_done _) = ok tt
