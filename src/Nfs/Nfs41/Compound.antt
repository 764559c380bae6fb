-- ===== src/Nfs/Nfs41/Compound.antt =====
-- COMPOUND and SEQUENCE of crates/mist-nfs/src/nfs41/mod.rs, with the reply cache of the slots. The
-- evaluation of the other operations (`eval_op`) is an argument, and so is the state `W` that only it
-- reads. A session that an operation destroys takes its slots with it. A connection is a number.
pub mod Replay
use mist.Prelude.{
  ℕ, zero, suc, ◌+◌, ◌-◌, ◌%◌, ◌^◌, Bool, true, false, not, Option, none, some, List, [], ◌∷◌, ◌++◌,
  get_elem?, set, any, ltb, leb, ◌==◌, if◌then◌else◌, bytes_eq,
}
use mist.Prelude.Map.{Map, insert, lookup}
use mist.Proto.Types.{NodeKey}
use mist.Nfs.Xdr.Reader
use mist.Nfs.Xdr.Reader.{XdrReader, R, pure, ◌>>=◌}
use mist.Nfs.Xdr.Writer
use mist.Nfs.Xdr.Writer.{XdrWriter}
use mist.Nfs.Nfs41.State.{State, Session, Slot, id_key, fore_slots, default_slot}

abbrev pub max_ops : ℕ
max_ops = 64

abbrev pub op_sequence_number : ℕ
op_sequence_number = 53

abbrev pub nfs4_ok : ℕ
nfs4_ok = 0

abbrev pub err_minor_vers_mismatch : ℕ
err_minor_vers_mismatch = 10021

abbrev pub err_badxdr : ℕ
err_badxdr = 10036

abbrev pub err_badsession : ℕ
err_badsession = 10052

abbrev pub err_badslot : ℕ
err_badslot = 10053

abbrev pub err_seq_misordered : ℕ
err_seq_misordered = 10063

abbrev pub err_sequence_pos : ℕ
err_sequence_pos = 10064

abbrev pub err_req_too_big : ℕ
err_req_too_big = 10065

abbrev pub err_retry_uncached_rep : ℕ
err_retry_uncached_rep = 10068

pub record BackChannel : Type 0 where
  pub conn : ℕ
  pub cb_program : ℕ

-- The server and the sessions that the connection carries.
pub record Server (W : Type 0) : Type 0 where
  pub state : State
  pub backchannels : Map (List ℕ) BackChannel
  pub bound : List (List ℕ)
  pub ops_served : ℕ
  pub rest : W

-- `F` is what a reply's tail is sent from.
pub record Ctx (F : Type 0) : Type 0 where
  pub cfh : Option (ℕ × NodeKey)
  pub sfh : Option (ℕ × NodeKey)
  pub current_stateid : Option (List ℕ × ℕ)
  pub session : Option (List ℕ)
  pub is_last_op : Bool
  pub allow_sendfile : Bool
  pub tail_file : Option F

pub record SequenceArgs : Type 0 where
  pub sid : List ℕ
  pub seqid : ℕ
  pub slot : ℕ
  pub cachethis : Bool

pub data SeqOutcome : Type 0 where
  ready : SequenceArgs → SeqOutcome
  replay : (cached : List ℕ) → SeqOutcome
  refused : (status : ℕ) → SeqOutcome

unfoldable pub sequence_args : R SequenceArgs
sequence_args = do
  sid ← Reader.fixed 16
  seqid ← Reader.u32
  slot ← Reader.u32
  _ ← Reader.u32
  cachethis ← Reader.bool
  pure (record { sid = sid; seqid = seqid; slot = slot; cachethis = cachethis })

-- `tag`, `minor` and `nops`
unfoldable pub compound_header : R (List ℕ × (ℕ × ℕ))
compound_header = do
  tag ← Reader.opaque 1024
  minor ← Reader.u32
  nops ← Reader.u32
  pure (tag, (minor, nops))

abbrev pub two_words : XdrWriter → (first second : ℕ) → XdrWriter
two_words w first second = Writer.u32 (Writer.u32 w first) second

-- Every session has 64 slots, and a slot is used below 64 only.
abbrev pub unwrap_slot : Option Slot → Slot
unwrap_slot none = default_slot
unwrap_slot (some s) = s

abbrev pub slot_at : List Slot → ℕ → Slot
slot_at slots i = unwrap_slot (get_elem? slots i)

unfoldable pub check_slot : SequenceArgs → Slot → SeqOutcome
check_slot a s =
    if a.seqid == s.seqid
    then elim s.reply [
      | some cached ↦ replay cached
      | none ↦ refused (if s.had_uncached then err_retry_uncached_rep else err_seq_misordered)
    ]
    else if a.seqid == (s.seqid + 1) % 2 ^ 32
    then ready a
    else refused err_seq_misordered

-- The checks, in the order of the source.
unfoldable pub check_sequence : Option SequenceArgs → State → SeqOutcome
unfolding check_slot
check_sequence none s = refused err_badxdr
check_sequence (some a) s = elim (lookup a.sid s.sessions) [
  | none ↦ refused err_badsession
  | some e ↦
      let checked = check_slot a (slot_at e.slots a.slot) in
      if leb fore_slots a.slot then refused err_badslot else checked
]

abbrev pub write_sequence : XdrWriter → SequenceArgs → XdrWriter
write_sequence w a =
    let head = two_words w op_sequence_number nfs4_ok in
    let ids = Writer.u32 (Writer.u32 (Writer.fixed head a.sid) a.seqid) a.slot in
    Writer.u32 (two_words ids (fore_slots - 1) (fore_slots - 1)) 0

-- What the last part of `compound` leaves in the slot.
abbrev pub cached_slot : SequenceArgs → (cached : List ℕ) → Slot
cached_slot a cached =
    if a.cachethis
    then record { seqid = a.seqid; reply = some cached; had_uncached = false }
    else record { seqid = a.seqid; reply = none; had_uncached = true }

module _ {W : Type 0} where
  -- The backchannel rides the connection, which is remembered once.
  unfoldable pub bind : Server W → (conn : ℕ) → (sid : List ℕ) → Server W
  bind s conn sid =
      let program : ℕ = elim (lookup sid s.state.sessions) [ some e ↦ e.cb_program | none ↦ 0 ] in
      if any (bytes_eq sid) s.bound then s else record s {
        bound = s.bound ++ sid ∷ [];
        backchannels = insert sid (record { conn = conn; cb_program = program }) s.backchannels;
      }

  -- The slot is written if the session is still there.
  unfoldable pub cache_reply : Server W → SequenceArgs → (cached : List ℕ) → Server W
  cache_reply s a cached =
      let st = s.state in
      elim (lookup a.sid st.sessions) [
        | none ↦ s
        | some e ↦ record s {
          state = record st {
            sessions =
                insert a.sid (record e { slots = set e.slots a.slot (cached_slot a cached) })
                  st.sessions;
          };
        }
      ]

-- The state of the loop over the operations.
pub record Progress (W F : Type 0) : Type 0 where
  pub r : XdrReader
  pub w : XdrWriter
  pub ctx : Ctx F
  pub server : Server W
  pub status : ℕ
  pub nres : ℕ
  pub cache_slot : Option SequenceArgs

pub data Exit (W F : Type 0) : Type 0 where
  finished : Progress W F → Exit W F
  replayed : (cached : List ℕ) → Server W → Exit W F

-- The reply, the server, and the tail to send behind the reply.
pub record Answer (W F : Type 0) : Type 0 where
  pub w : XdrWriter
  pub server : Server W
  pub tail_file : Option F

-- `eval_op(op, r, w, ctx)`, with the server before and after.
abbrev pub EvalOp : Type 0 → Type 0 → Type 0
EvalOp W F =
    ℕ
    → XdrReader
    → XdrWriter
    → Ctx F
    → Server W
    → ℕ × (XdrReader × (XdrWriter × (Ctx F × Server W)))

module _ {W F : Type 0} where
  unfoldable pub op_sequence :
      Server W
      → (conn : ℕ) → Ctx F
      → XdrReader
      → XdrWriter
      → SeqOutcome × (XdrReader × (XdrWriter × (Ctx F × Server W)))
  unfolding sequence_args check_sequence bind
  op_sequence s conn ctx r w =
      let parsed = sequence_args r in
      elim (check_sequence parsed.0 s.state) [
        | refused e ↦ (refused e, (parsed.1, (two_words w op_sequence_number e, (ctx, s))))
        | replay cached ↦ (replay cached, (parsed.1, (w, (ctx, s))))
        | ready a ↦ (
          ready a,
          (
            parsed.1,
            (write_sequence w a, (record ctx { session = some a.sid }, bind s conn a.sid)),
          ),
        )
      ]

  module _ (eval_op : EvalOp W F) (conn : ℕ) where
    -- `left` operations are left, and `first` tells the first of them.
    unfoldable pub operations : (left : ℕ) → (first : Bool) → Progress W F → Exit W F
    unfolding op_sequence
    operations zero first p = finished p
    operations (suc left) first p =
        let code = Reader.u32 p.r in
        elim code.0 [
          | none ↦ finished (record p { r = code.1; status = err_badxdr })
          | some op ↦ elim (op == op_sequence_number) [
            | true ↦ elim first [
              | false ↦ finished (record p {
                r = code.1;
                w = two_words p.w op_sequence_number err_sequence_pos;
                nres = p.nres + 1;
                status = err_sequence_pos;
              })
              | true ↦
                  let done = op_sequence p.server conn p.ctx code.1 p.w in
                  let after = record p {
                    r = done.1.0;
                    w = done.1.1.0;
                    ctx = done.1.1.1.0;
                    server = done.1.1.1.1;
                    nres = p.nres + 1;
                  } in
                  let ctx = after.ctx in
                  elim done.0 [
                    | ready a ↦ operations left false (record after {
                      ctx = record ctx { allow_sendfile = not a.cachethis };
                      cache_slot = some a;
                    })
                    | replay cached ↦ replayed cached after.server
                    | refused e ↦ finished (record after { status = e })
                  ]
            ]
            | false ↦
                let c = p.ctx in
                let done = eval_op op code.1 p.w (record c { is_last_op = left == 0 }) p.server in
                let s = done.1.1.1.1 in
                let served : Server W = record s { ops_served = (s.ops_served + 1) % 2 ^ 64 } in
                let after = record p {
                  r = done.1.0;
                  w = done.1.1.0;
                  ctx = done.1.1.1.0;
                  server = served;
                  nres = p.nres + 1;
                } in
                elim (done.0 == nfs4_ok) [
                  | true ↦ operations left false after
                  | false ↦ finished (record after { status = done.0 })
                ]
          ]
        ]

    -- The status and the number of results are patched in; the cached reply is that number and what
    -- was written behind it.
    unfoldable pub finish : (status_pos numres_pos body_pos : ℕ) → Progress W F → Answer W F
    unfolding cache_reply
    finish status_pos numres_pos body_pos p =
        let w = Writer.patch_u32 (Writer.patch_u32 p.w status_pos p.status) numres_pos p.nres in
        let cached = (Writer.fixed (Writer.u32 Writer.new p.nres) (Writer.since w body_pos)).buf in
        let server : Server W = elim p.cache_slot [
          | none ↦ p.server
          | some a ↦ cache_reply p.server a cached
        ] in
        record { w = w; server = server; tail_file = p.ctx.tail_file }

    abbrev pub refuse : Server W → XdrWriter → (status : ℕ) → (tag : List ℕ) → Answer W F
    refuse s w status tag = record {
      w = Writer.u32 (Writer.opaque (Writer.u32 w status) tag) 0;
      server = s;
      tail_file = none;
    }

    abbrev pub no_ctx : Ctx F
    no_ctx = record {
      cfh = none;
      sfh = none;
      current_stateid = none;
      session = none;
      is_last_op = false;
      allow_sendfile = true;
      tail_file = none;
    }

    abbrev pub evaluate :
        Server W → XdrReader → XdrWriter → (tag : List ℕ) → (nops : ℕ) → Answer W F
    evaluate s r w tag nops =
        let restart = Writer.pos w in
        let w1 = Writer.opaque (Writer.u32 w nfs4_ok) tag in
        let w2 = Writer.u32 w1 0 in
        let start : Progress W F = record {
          r = r;
          w = w2;
          ctx = no_ctx;
          server = s;
          status = nfs4_ok;
          nres = 0;
          cache_slot = none;
        } in
        elim (operations nops true start) [
          | finished p ↦ finish restart (Writer.pos w1) (Writer.pos w2) p
          | replayed cached s' ↦ record {
            w =
                Writer.fixed (Writer.opaque (Writer.u32 (Writer.truncate w2 restart) nfs4_ok) tag)
                  cached;
            server = s';
            tail_file = none;
          }
        ]

    unfoldable pub compound : Server W → XdrReader → XdrWriter → Answer W F
    unfolding compound_header operations finish
    compound s r w =
        let header = compound_header r in
        elim header.0 [
          | none ↦ refuse s w err_badxdr []
          | some (tag, (minor, nops)) ↦
              let answer = evaluate s header.1 w tag nops in
              if not (minor == 1)
              then refuse s w err_minor_vers_mismatch tag
              else if ltb max_ops nops
              then refuse s w err_req_too_big tag
              else answer
        ]
