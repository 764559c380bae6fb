-- ===== src/Proto/Msg/Accepts.antt =====
-- What the validations of crates/mist-proto/src/msg.rs accept, stated without their error paths.
use mist.Prelude.{
  ℕ, ◌≤◌, ◌<◌, true, false, Option, none, some, List, [], ◌∷◌, length, any, ◌≡◌, ◌≢◌, ◌↔◌, ◌⊎◌, inl,
  inr, refl, arith,
}
use mist.Prelude.Result.{ok}
use mist.Proto.Validate.{
  All, OptionAll, validate_all, validate_option, validate_all-All, validate_option-OptionAll,
}
use mist.Proto.Types.{
  Kind, dir, symlink, kind_eq, ShareInfo, validate_attr, validate_share_info, validate_guest_info,
}
use mist.Proto.Types.NameGrammar.{TargetIsValid, validate_attr_iff}
use mist.Proto.Msg.{
  Rec, created, created_batch, attr_changed, SnapEntry, SnapDir, JournalBatch, EventMsg,
  journal_batch, snap_dir, snap_done, validate_snap_entry, validate_rec, validate_journal_batch,
  validate_snap_dir, validate_event, RpcReq, validate_req, RpcResp, validate_resp, RpcErr,
  validate_rpc_err, CtlMsg, validate_ctl, too_long,
}

unfoldable pub SnapEntryIsValid : SnapEntry → Type 0
SnapEntryIsValid e = TargetIsValid e.attr

unfoldable pub RecIsValid : Rec → Type 0
RecIsValid (created _ _ _ a) = OptionAll TargetIsValid a
RecIsValid (created_batch _ entries) = (length entries ≤ 2048) × All SnapEntryIsValid entries
RecIsValid (attr_changed _ a) = TargetIsValid a
RecIsValid _ = Unit

unfoldable pub EventIsValid : EventMsg → Type 0
EventIsValid (journal_batch b) =
    (0 < length b.records) × (length b.records ≤ 512) × All RecIsValid b.records
EventIsValid (snap_dir d) =
    (length d.entries ≤ 2048)
    × TargetIsValid d.dir_attr
    × (d.dir_attr.kind ≡ dir)
    × All SnapEntryIsValid d.entries
EventIsValid (snap_done _) = Unit

snap_entry_iff : (e : SnapEntry) → (validate_snap_entry e ≡ ok tt) ↔ SnapEntryIsValid e
unfolding validate_snap_entry SnapEntryIsValid
snap_entry_iff e = validate_attr_iff e.attr

snap_entries_iff :
    (es : List SnapEntry) → (validate_all validate_snap_entry es ≡ ok tt) ↔ All SnapEntryIsValid es
snap_entries_iff = validate_all-All validate_snap_entry snap_entry_iff

rec_iff : (r : Rec) → (validate_rec r ≡ ok tt) ↔ RecIsValid r
unfolding validate_rec RecIsValid
rec_iff (created p n k a) = validate_option-OptionAll validate_attr validate_attr_iff a
rec_iff (created_batch p es) = (
  λ h. (ground arith, (snap_entries_iff es).0 (ground arith)),
  λ h. ground (arith, (snap_entries_iff es).1 h.1, h.0),
)
rec_iff (attr_changed k a) = validate_attr_iff a
rec_iff _ = (λ h. tt, λ h. refl)

kind_dir : (k : Kind) → kind_eq k dir ≡ true → k ≡ dir
kind_dir k h = ground arith

-- `EventMsg::validate` accepts exactly: a journal batch of 1 to 512 records, a created batch among
-- them having at most 2048 entries, a snapshot of a directory with at most 2048 entries whose own
-- attributes are a directory's, in both every symlink target being on a symlink and of 1 to 4096
-- bytes, and every end of a snapshot.
pub validate_event_iff : (m : EventMsg) → (validate_event m ≡ ok tt) ↔ EventIsValid m
unfolding validate_event EventIsValid validate_journal_batch validate_snap_dir
validate_event_iff (journal_batch b) = (
  λ h. (
    ground arith,
    ground arith,
    (validate_all-All validate_rec rec_iff b.records).0 (ground arith),
  ),
  λ h. ground (arith, (validate_all-All validate_rec rec_iff b.records).1 h.2, h.0, h.1),
)
validate_event_iff (snap_dir d) = (
  λ h. (
    ground arith,
    (validate_attr_iff d.dir_attr).0 (ground arith),
    ground arith,
    (snap_entries_iff d.entries).0 (ground arith),
  ),
  λ h.
      ground
        (arith, (validate_attr_iff d.dir_attr).1 h.1, (snap_entries_iff d.entries).1 h.3, h.0, h.2),
)
validate_event_iff (snap_done _) = (λ h. tt, λ h. refl)

pub ReqIsValid : RpcReq → Type 0
ReqIsValid (RpcReq.stat_batch _ nodes) = length nodes ≤ 4096
ReqIsValid (RpcReq.read _ _ _ _ len _) = (0 < len) × (len ≤ 4194304)
ReqIsValid (RpcReq.create _ _ _ kind _ _ target _) =
    ((kind ≡ symlink) × ((t : List ℕ) × (target ≡ some t) × (0 < length t) × (length t ≤ 4096)))
    ⊎ (kind ≢ symlink) × (target ≡ none)
ReqIsValid (RpcReq.write _ _ _ _ payload) = length payload ≤ 4194304
ReqIsValid _ = Unit

create_sound :
    (kind : Kind) (target : Option (List ℕ))
    → mist.Proto.Msg.check_create kind target ≡ ok tt
    → ((kind ≡ symlink) × ((t : List ℕ) × (target ≡ some t) × (0 < length t) × (length t ≤ 4096)))
      ⊎ (kind ≢ symlink) × (target ≡ none)
create_sound kind none h = inr (λ e. ground arith, refl)
create_sound kind (some t) h = inl (ground arith, (t, refl, ground arith, ground arith))

-- `RpcReq::validate` accepts exactly: a batch of at most 4096 nodes, a read of 1 byte to 4 MiB, a
-- write of at most 4 MiB, a create that has a target of 1 to 4096 bytes if it is of a symlink and
-- no target otherwise, and every other request.
pub validate_req_iff : (m : RpcReq) → (validate_req m ≡ ok tt) ↔ ReqIsValid m
unfolding validate_req ReqIsValid
validate_req_iff (RpcReq.stat_batch s nodes) = (λ h. ground arith, λ h. ground arith)
validate_req_iff (RpcReq.read s n v o len ra) = (λ h. ground arith, λ h. ground arith)
validate_req_iff (RpcReq.create s d n kind m r target e) =
    (create_sound kind target, λ h. ground arith)
validate_req_iff (RpcReq.write s n o y payload) = (λ h. ground arith, λ h. ground arith)
validate_req_iff _ = (λ h. tt, λ h. refl)

pub RespIsValid : RpcResp → Type 0
RespIsValid (RpcResp.attr a) = TargetIsValid a
RespIsValid (RpcResp.attrs v) = (length v ≤ 4096) × All (OptionAll TargetIsValid) v
RespIsValid (RpcResp.entry _ a) = TargetIsValid a
RespIsValid (RpcResp.error e) = length e.msg ≤ 128
RespIsValid _ = Unit

-- `RpcResp::validate` accepts exactly: attributes whose symlink target, if any, is on a symlink and
-- has 1 to 4096 bytes, alone, in an entry or in a batch of at most 4096, an error whose message has
-- at most 128 bytes, and every other response.
pub validate_resp_iff : (m : RpcResp) → (validate_resp m ≡ ok tt) ↔ RespIsValid m
unfolding validate_resp RespIsValid validate_rpc_err
validate_resp_iff (RpcResp.attr a) = validate_attr_iff a
validate_resp_iff (RpcResp.attrs v) =
    let all =
      validate_all-All (validate_option validate_attr)
        (validate_option-OptionAll validate_attr validate_attr_iff) v in
    (λ h. (ground arith, all.0 (ground arith)), λ h. ground (arith, all.1 h.1, h.0))
validate_resp_iff (RpcResp.entry n a) = validate_attr_iff a
validate_resp_iff (RpcResp.error e) = (λ h. ground arith, λ h. ground arith)
validate_resp_iff _ = (λ h. tt, λ h. refl)

abbrev AllShort : List (List ℕ) → Type 0
AllShort = All (λ s. length s ≤ 128)

any-too_long : (ss : List (List ℕ)) → (any too_long ss ≡ false) ↔ AllShort ss
unfolding any
any-too_long [] = (λ h. tt, λ h. refl)
any-too_long (s ∷ ss) = (
  λ h. (ground arith, (any-too_long ss).0 (ground arith)),
  λ h. ground (arith, (any-too_long ss).1 h.1, h.0),
)

pub ShareNameIsValid : ShareInfo → Type 0
ShareNameIsValid s = (0 < length s.name) × (length s.name ≤ 128)

share_info_iff : (s : ShareInfo) → (validate_share_info s ≡ ok tt) ↔ ShareNameIsValid s
unfolding validate_share_info ShareNameIsValid
share_info_iff s = (λ h. ground arith, λ h. ground arith)

pub CtlIsValid : CtlMsg → Type 0
CtlIsValid (CtlMsg.hello _ _ _ host_name host_version) =
    (length host_name ≤ 128) × (length host_version ≤ 128)
CtlIsValid (CtlMsg.hello_ack _ _ _ _ shares guest) =
    (length shares ≤ 64) × All ShareNameIsValid shares × (length guest.kernel ≤ 128)
CtlIsValid (CtlMsg.goodbye reason) = length reason ≤ 128
CtlIsValid (CtlMsg.endpoints tcp) = (length tcp ≤ 8) × AllShort tcp
CtlIsValid _ = Unit

-- `CtlMsg::validate` accepts exactly: a hello whose two strings have at most 128 bytes, its
-- acknowledgement with at most 64 shares whose names have 1 to 128 bytes and a kernel string of at
-- most 128, a farewell of at most 128 bytes, at most 8 endpoints of at most 128 bytes each, and
-- every other message.
pub validate_ctl_iff : (m : CtlMsg) → (validate_ctl m ≡ ok tt) ↔ CtlIsValid m
unfolding validate_ctl CtlIsValid validate_guest_info
validate_ctl_iff (CtlMsg.hello _ _ _ a b) = (λ h. ground arith, λ h. ground arith)
validate_ctl_iff (CtlMsg.hello_ack _ _ _ _ shares guest) =
    let all = validate_all-All validate_share_info share_info_iff shares in
    (
      λ h. (ground arith, all.0 (ground arith), ground arith),
      λ h. ground (arith, all.1 h.1, h.0, h.2),
    )
validate_ctl_iff (CtlMsg.goodbye r) = (λ h. ground arith, λ h. ground arith)
validate_ctl_iff (CtlMsg.endpoints tcp) = (
  λ h. (ground arith, (any-too_long tcp).0 (ground arith)),
  λ h. ground (arith, (any-too_long tcp).1 h.1, h.0),
)
validate_ctl_iff _ = (λ h. tt, λ h. refl)
