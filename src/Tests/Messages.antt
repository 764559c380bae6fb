-- ===== src/Tests/Messages.antt =====
-- Messages, names and frames of crates/mist-proto.
use mist.Prelude.{
  ℕ, true, ltb, none, some, List, [], ◌∷◌, ◌++◌, ◌≡◌, ◌↔◌, refl, arith, if◌then◌else◌,
}
use mist.Prelude.Result.{Result, ok, err, ◌>>=◌}
use mist.Proto.Validate.{Validated}
use mist.Proto.Types.{NodeKey, pos, Ts, symlink, Attr, Name, check, new, visit_seq}
use mist.Proto.Types.NameGrammar.{IsComponent, check_iff, some_bytes, visit_seq_iff}
use mist.Proto.Frame
use mist.Proto.Frame.{FrameHeader, FrameKind}
use mist.Proto.Frame.Roundtrip.{IsFrame, header_decode-encode}
use mist.Proto.Codec
use mist.Proto.Codec.{codec_decode-encode, map_err, invalid, trailing}
use mist.Proto.Msg.{
  EventMsg, journal_batch, created, RpcReq, RpcResp, CtlMsg, validate_event, validate_req,
  validate_resp, validate_ctl,
}
use mist.Proto.Msg.Accepts.{
  EventIsValid, ReqIsValid, RespIsValid, CtlIsValid, validate_event_iff, validate_req_iff,
  validate_resp_iff, validate_ctl_iff,
}

abbrev root_key : NodeKey
root_key = record { ino = 2; generation = 1 }

abbrev name_a : Name
name_a = record { bytes = b'a' ∷ [] }

abbrev epoch : Ts
epoch = record { sec = pos 0; nsec = 0 }

abbrev link_attr : Attr
link_attr = record {
  kind = symlink;
  mode = 511;
  nlink = 1;
  uid = 0;
  gid = 0;
  size = 1;
  blocks = 0;
  mtime = epoch;
  ctime = epoch;
  rdev = 0;
  content_version = 0;
  symlink_target = some (b'a' ∷ []);
}

abbrev batch : EventMsg
batch = journal_batch (record {
  share = 0;
  first_seq = 1;
  guest_mono_ns = 0;
  records = created root_key name_a root_key (some link_attr) ∷ [];
})

abbrev create_link : RpcReq
create_link = RpcReq.create 0 root_key name_a symlink 511 0 (some (b'a' ∷ [])) true

abbrev two_attrs : RpcResp
two_attrs = RpcResp.attrs (none ∷ some link_attr ∷ [])

abbrev farewell : CtlMsg
farewell = CtlMsg.goodbye (b'b' ∷ b'y' ∷ b'e' ∷ [])

abbrev header : FrameHeader
header = record { len = 70000; kind = FrameKind.bulk; flags = 1; seq = 9 }

validate_event_iff_example : (validate_event batch ≡ ok tt) ↔ EventIsValid batch
validate_event_iff_example = validate_event_iff batch

validate_req_iff_example : (validate_req create_link ≡ ok tt) ↔ ReqIsValid create_link
validate_req_iff_example = validate_req_iff create_link

validate_resp_iff_example : (validate_resp two_attrs ≡ ok tt) ↔ RespIsValid two_attrs
validate_resp_iff_example = validate_resp_iff two_attrs

validate_ctl_iff_example : (validate_ctl farewell ≡ ok tt) ↔ CtlIsValid farewell
validate_ctl_iff_example = validate_ctl_iff farewell

check_iff_example : (check (b'a' ∷ b'/' ∷ []) ≡ ok tt) ↔ IsComponent (b'a' ∷ b'/' ∷ [])
check_iff_example = check_iff (b'a' ∷ b'/' ∷ [])

visit_seq_iff_example :
    (visit_seq [] (some_bytes (b'a' ∷ [])) ≡ ok name_a) ↔ (new ([] ++ b'a' ∷ []) ≡ ok name_a)
visit_seq_iff_example = visit_seq_iff [] (b'a' ∷ []) name_a

header-IsFrame : IsFrame header
header-IsFrame = record { len = omega arith; flags = omega arith; seq = omega arith }

header_decode-encode_example : Frame.decode (Frame.encode header) 65536 ≡ (
    if ltb 65536 header.len then err (record { message = "frame exceeds lane cap" }) else ok header)
header_decode-encode_example = header_decode-encode header 65536 header-IsFrame

-- A message that is one byte, in place of postcard's.
abbrev one_byte : ℕ → List ℕ
one_byte m = m ∷ []

abbrev take_byte : List ℕ → Result Unit (ℕ × List ℕ)
take_byte [] = err tt
take_byte (b ∷ bs) = ok (b, bs)

abbrev small : ℕ → Validated
small m = if ltb 9 m then err (record { message = "too large" }) else ok tt

take_byte_lem : (m : ℕ) (rest : List ℕ) → take_byte (one_byte m ++ rest) ≡ ok (m, rest)
take_byte_lem m rest = refl

codec_decode-encode_example :
    (Codec.decode take_byte small (Codec.encode one_byte 5)
      ≡ (map_err invalid (small 5) >>= λ _. ok 5))
    × (Codec.decode take_byte small (Codec.encode one_byte 5 ++ 7 ∷ []) ≡ err trailing)
codec_decode-encode_example = codec_decode-encode one_byte take_byte small take_byte_lem 5 7 []
