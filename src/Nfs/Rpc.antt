-- ===== src/Nfs/Rpc.antt =====
-- crates/mist-nfs/src/rpc.rs: the ONC-RPC call parser and the reply headers.
pub mod Calls
use mist.Prelude.{
  ℕ, not, ◌&&◌, Bool, true, false, Option, none, some, List, [], ◌==◌, if◌then◌else◌,
}
use mist.Prelude.Result.{Result, ok, err}
use mist.Nfs.Xdr.Reader
use mist.Nfs.Xdr.Reader.{XdrReader, R, pure}
use mist.Nfs.Xdr.Writer
use mist.Nfs.Xdr.Writer.{XdrWriter}

abbrev pub rpc_version : ℕ
rpc_version = 2

abbrev pub msg_type_call : ℕ
msg_type_call = 0

abbrev pub msg_type_reply : ℕ
msg_type_reply = 1

abbrev pub reply_accepted_tag : ℕ
reply_accepted_tag = 0

abbrev pub accept_success : ℕ
accept_success = 0

abbrev pub accept_prog_mismatch : ℕ
accept_prog_mismatch = 2

abbrev pub auth_none : ℕ
auth_none = 0

abbrev pub auth_sys : ℕ
auth_sys = 1

pub record RpcCall : Type 0 where
  pub xid : ℕ
  pub program : ℕ
  pub version : ℕ
  pub procedure : ℕ
  pub uid : ℕ
  pub gid : ℕ

pub data RpcDecodeError : Type 0 where
  xdr : RpcDecodeError
  not_call : RpcDecodeError
  bad_version : ℕ → RpcDecodeError

-- The reader is local to the parser, so an error drops it.
abbrev pub P : Type 0 → Type 0
P A = XdrReader → Result RpcDecodeError (A × XdrReader)

-- `?` on an XDR result
abbrev pub from_option : {A : Type 0} → Option A × XdrReader → Result RpcDecodeError (A × XdrReader)
from_option (none, r) = err xdr
from_option (some a, r) = ok (a, r)

abbrev pub lift : {A : Type 0} → R A → P A
lift m r = from_option (m r)

abbrev pub next :
    {A B : Type 0}
    → Result RpcDecodeError (A × XdrReader)
    → (A → P B)
    → Result RpcDecodeError (B × XdrReader)
next (ok (a, r)) f = f a r
next (err e) f = err e

infixl 5 ◌>>=◌ ◌>>◌
unfoldable pub ◌>>=◌ : {A B : Type 0} → P A → (A → P B) → P B
◌>>=◌ m f r = next (m r) f

abbrev pub ◌>>◌ : {A B : Type 0} → P A → P B → P B
m >> k = m >>= λ _. k

abbrev pub refuse : Bool → RpcDecodeError → P (Unit {0})
refuse true e r = err e
refuse false e r = ok (tt, r)

-- The credentials inside an AUTH_SYS body, which a reader of its own reads.
unfoldable pub read_ids : R (ℕ × ℕ)
read_ids = Reader.◌>>=◌ Reader.u32 λ _.
    Reader.◌>>=◌ (Reader.opaque 255)
      λ _. Reader.◌>>=◌ Reader.u32 λ uid. Reader.◌>>=◌ Reader.u32 λ gid. pure (uid, gid)

unfoldable pub read_auth : R (ℕ × ℕ)
read_auth = Reader.◌>>=◌ Reader.u32 λ flavor.
    Reader.◌>>=◌ (Reader.opaque 1024)
      λ body. if flavor == auth_sys then (λ r. ((read_ids (Reader.new body)).0, r)) else pure (0, 0)

unfoldable pub parse_header : P RpcCall
parse_header = do
  xid ← lift Reader.u32
  msg_type ← lift Reader.u32
  refuse (not (msg_type == msg_type_call)) not_call
  rpcvers ← lift Reader.u32
  refuse (not (rpcvers == rpc_version)) (bad_version rpcvers)
  program ← lift Reader.u32
  version ← lift Reader.u32
  procedure ← lift Reader.u32
  (uid, gid) ← lift read_auth
  _ ← lift Reader.u32
  _ ← lift (Reader.skip_opaque 1024)
  lift (
      pure (record {
        xid = xid;
        program = program;
        version = version;
        procedure = procedure;
        uid = uid;
        gid = gid;
      }))

unfoldable pub parse_call : List ℕ → Result RpcDecodeError (RpcCall × XdrReader)
unfolding parse_header
parse_call buf = parse_header (Reader.new buf)

-- The pool hands out an empty buffer.
unfoldable pub reply_accepted : ℕ → ℕ → XdrWriter
reply_accepted xid accept_status =
    let w = Writer.u32 Writer.new xid in
    let w = Writer.u32 w msg_type_reply in
    let w = Writer.u32 w reply_accepted_tag in
    let w = Writer.u32 w auth_none in let w = Writer.opaque w [] in Writer.u32 w accept_status

unfoldable pub reply_prog_mismatch : ℕ → ℕ → ℕ → XdrWriter
unfolding reply_accepted
reply_prog_mismatch xid low high =
    Writer.u32 (Writer.u32 (reply_accepted xid accept_prog_mismatch) low) high
