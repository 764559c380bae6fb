-- ===== src/Tests/Sessions.antt =====
-- Concrete inputs for the theorems about crates/mist-nfs/src/nfs41.
use mist.Prelude.{
  take, ℕ, ◌+◌, ◌%◌, ◌^◌, true, ◌&&◌, none, some, List, [], ◌∷◌, ◌++◌, replicate, ◌==◌,
  if◌then◌else◌, bytes_eq, ◌≡◌, refl, arith,
}
use mist.Prelude.Map.{lookup}
use mist.Bytes.{from_be_bytes, from_le_bytes}
use mist.Nfs.Xdr.Reader
use mist.Nfs.Xdr.Reader.{XdrReader}
use mist.Nfs.Xdr.Writer
use mist.Nfs.Nfs41.State.{Session, id_key, new, default_slot, fore_slots}
use mist.Nfs.Nfs41.State.WellFormed.{
  Call, exchange, begin, end, leave, mint, run, IsWellFormed, run-IsWellFormed,
}
use mist.Nfs.Nfs41.Compound.{
  Server, SequenceArgs, ready, replay, refused, err_retry_uncached_rep, err_seq_misordered, nfs4_ok,
  check_sequence, cache_reply, EvalOp, compound, sequence_args, compound_header,
}
use mist.Nfs.Nfs41.Compound.Replay.{check_sequence-cache_reply, compound-cache_reply}

-- A client comes, comes again, opens a session, restarts, and leaves.
abbrev calls : List Call
calls =
    exchange (1 ∷ []) (1 ∷ [])
    ∷ exchange (1 ∷ []) (1 ∷ [])
    ∷ begin 9 0 5
    ∷ mint 1
    ∷ exchange (1 ∷ []) (2 ∷ [])
    ∷ leave 10
    ∷ end []
    ∷ []

run-IsWellFormed_example : IsWellFormed (run (new 3 8) calls)
run-IsWellFormed_example = run-IsWellFormed 3 8 calls

abbrev sid : List ℕ
sid = replicate 16 7

abbrev open_session : Session
open_session = record {
  id = sid;
  clientid = 9;
  slots = replicate fore_slots default_slot;
  cb_program = 0;
  back_slot_seqid = 0;
}

abbrev server : Server (Unit {0})
server = record {
  state = (let s = new 3 8 in record s { sessions = (sid, open_session) ∷ [] });
  backchannels = [];
  bound = [];
  ops_served = 0;
  rest = tt;
}

abbrev asked : ℕ → SequenceArgs
asked seqid = record { sid = sid; seqid = seqid; slot = 2; cachethis = true }

there : lookup sid server.state.sessions ≡ some open_session
unfolding lookup bytes_eq
there = refl

check_sequence-cache_reply_example :
    check_sequence (some (asked 2)) (cache_reply server (asked 1) (5 ∷ [])).state ≡ (
      if bytes_eq sid sid && 2 == 2
      then if 2 == 1
        then if true then replay (5 ∷ []) else refused err_retry_uncached_rep
        else if 2 == (1 + 1) % 2 ^ 32
        then ready (asked 2)
        else refused err_seq_misordered
      else check_sequence (some (asked 2)) server.state)
check_sequence-cache_reply_example =
    check_sequence-cache_reply server (asked 1) (asked 2) (5 ∷ []) open_session there refl
      (omega arith)

-- No tag, minor version 1, one operation: SEQUENCE.
abbrev request : XdrReader
request = record {
  buf =
      replicate 4 0
      ++ (0 ∷ 0 ∷ 0 ∷ 1 ∷ [])
      ++ (0 ∷ 0 ∷ 0 ∷ 1 ∷ [])
      ++ (0 ∷ 0 ∷ 0 ∷ 53 ∷ [])
      ++ sid
      ++ (0 ∷ 0 ∷ 0 ∷ 1 ∷ [])
      ++ (0 ∷ 0 ∷ 0 ∷ 2 ∷ [])
      ++ (0 ∷ 0 ∷ 0 ∷ 2 ∷ [])
      ++ (0 ∷ 0 ∷ 0 ∷ 1 ∷ []);
  pos = 0;
}

abbrev no_ops : EvalOp (Unit {0}) (Unit {0})
no_ops op r w ctx s = (nfs4_ok, (r, (w, (ctx, s))))

header : (compound_header request).0 ≡ some ([], (1, 1))
unfolding compound_header Reader.opaque Reader.u32 Reader.take Reader.skip_pad Reader.◌>>=◌
    from_be_bytes from_le_bytes
header = refl

code : (Reader.u32 (compound_header request).1).0 ≡ some 53
unfolding compound_header Reader.opaque Reader.u32 Reader.take Reader.skip_pad Reader.◌>>=◌
    from_be_bytes from_le_bytes
code = refl

args : (sequence_args (Reader.u32 (compound_header request).1).1).0 ≡ some (asked 1)
unfolding compound_header sequence_args Reader.opaque Reader.fixed Reader.bool Reader.u32
    Reader.take Reader.skip_pad Reader.◌>>=◌ from_be_bytes from_le_bytes
args = refl

compound-cache_reply_example :
    compound no_ops 1 (cache_reply server (asked 1) (replicate 4 0)) request Writer.new ≡ record {
      w = Writer.fixed (Writer.opaque (Writer.u32 Writer.new nfs4_ok) []) (replicate 4 0);
      server = cache_reply server (asked 1) (replicate 4 0);
      tail_file = none;
    }
compound-cache_reply_example =
    compound-cache_reply no_ops 1 server (asked 1) (replicate 4 0) open_session request Writer.new
      [] 0 there refl (omega arith) refl header (omega arith) code args
