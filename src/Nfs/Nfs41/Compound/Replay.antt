-- ===== src/Nfs/Nfs41/Compound/Replay.antt =====
-- The reply cache of crates/mist-nfs/src/nfs41/mod.rs: what a repeated SEQUENCE is answered.
use mist.Prelude.{
  ℕ, zero, suc, ◌+◌, ◌%◌, ◌^◌, ◌≤◌, ◌<◌, Bool, true, false, ◌&&◌, none, some, List, [], ◌∷◌, length,
  get_elem?, set, take-append, ltb, leb, ◌==◌, if◌then◌else◌, bytes_eq, bytes_eq_refl,
  eq_of_bytes_eq, ◌≡◌, refl, sym, ap, ◌∙◌, arith, inl, inr, Bool-cases, append_assoc, ==_refl,
}
use mist.Prelude.Map.{lookup, lookup-insert}
use mist.Bytes.{to_be_bytes}
use mist.Nfs.Xdr.Reader
use mist.Nfs.Xdr.Reader.{XdrReader}
use mist.Nfs.Xdr.Writer
use mist.Nfs.Xdr.Writer.{XdrWriter}
use mist.Nfs.Xdr.ReadBack.{pad-buf}
use mist.Nfs.Nfs41.State.{Session, id_key, fore_slots}
use mist.Nfs.Nfs41.Compound.{
  max_ops, op_sequence_number, nfs4_ok, err_retry_uncached_rep, err_seq_misordered, err_badslot,
  Server, SequenceArgs, ready, replay, refused, sequence_args, compound_header, slot_at,
  unwrap_slot, check_slot, check_sequence, cached_slot, cache_reply, EvalOp, no_ctx, evaluate, Ctx,
  Progress, replayed, op_sequence, operations, compound,
}

get_elem?-set {ℓ} :
    {A : Type ℓ} (xs : List A) (i j : ℕ) (v : A)
    → i < length xs
    → get_elem? (set xs i v) j ≡ (if i == j then some v else get_elem? xs j)
get_elem?-set [] i j v h = absurd (omega (arith, h))
get_elem?-set (x ∷ xs) zero zero v h = refl
get_elem?-set (x ∷ xs) zero (suc j) v h = ground arith
get_elem?-set (x ∷ xs) (suc i) zero v h = ground arith
get_elem?-set (x ∷ xs) (suc i) (suc j) v h =
    let same : (i == j) ≡ (suc i == suc j) = ground arith in
    get_elem?-set xs i j v (omega (arith, h)) ∙ ap (λ b. if b then some v else get_elem? xs j) same

check_slot_by :
    (b : SequenceArgs) (seqid : ℕ) (cached : List ℕ) (cachethis : Bool)
    → check_slot b (
        if cachethis
        then record { seqid = seqid; reply = some cached; had_uncached = false }
        else record { seqid = seqid; reply = none; had_uncached = true })
      ≡ (if b.seqid == seqid
          then if cachethis then replay cached else refused err_retry_uncached_rep
          else if b.seqid == (seqid + 1) % 2 ^ 32
          then ready b
          else refused err_seq_misordered)
unfolding check_slot
check_slot_by b seqid cached true = refl
check_slot_by b seqid cached false = refl

module _ {W : Type 0} where
  -- The slots of a session once one of them holds a reply.
  lookup-cache_reply :
      (s : Server W) (a : SequenceArgs) (cached : List ℕ) (e : Session) (sid : List ℕ)
      → lookup a.sid s.state.sessions ≡ some e
      → lookup sid (cache_reply s a cached).state.sessions ≡ (
          if bytes_eq a.sid sid
          then some (record e { slots = set e.slots a.slot (cached_slot a cached) })
          else lookup sid s.state.sessions)
  unfolding cache_reply
  lookup-cache_reply s a cached e sid found =
      rw (cache_reply, found)
        (lookup-insert a.sid sid (record e { slots = set e.slots a.slot (cached_slot a cached) })
          s.state.sessions)

  -- A reply is kept in a slot of a session that is there: whatever the next request of that slot is,
  -- the same sequence id gets the kept reply (or RETRY_UNCACHED_REP when it was not to be kept), the
  -- next sequence id runs, and any other is misordered; and requests of other slots and sessions are
  -- judged as before. The session has its 64 slots.
  pub check_sequence-cache_reply :
      (s : Server W) (a b : SequenceArgs) (cached : List ℕ) (e : Session)
      → lookup a.sid s.state.sessions ≡ some e
      → length e.slots ≡ fore_slots
      → a.slot < fore_slots
      → check_sequence (some b) (cache_reply s a cached).state ≡ (
          if bytes_eq a.sid b.sid && a.slot == b.slot
          then if b.seqid == a.seqid
            then if a.cachethis then replay cached else refused err_retry_uncached_rep
            else if b.seqid == (a.seqid + 1) % 2 ^ 32
            then ready b
            else refused err_seq_misordered
          else check_sequence (some b) s.state)
  unfolding check_sequence
  check_sequence-cache_reply s a b cached e found full small =
      let kept : Session = record e { slots = set e.slots a.slot (cached_slot a cached) } in
      let stored : (c : Bool)
          → bytes_eq a.sid b.sid ≡ c
          → lookup b.sid (cache_reply s a cached).state.sessions
            ≡ (if c then some kept else lookup b.sid s.state.sessions) =
        λ c h.
          lookup-cache_reply s a cached e b.sid found
          ∙ ap (λ d. if d then some kept else lookup b.sid s.state.sessions) h in
      let slot : (c : Bool)
          → (a.slot == b.slot) ≡ c
          → get_elem? kept.slots b.slot
            ≡ (if c then some (cached_slot a cached) else get_elem? e.slots b.slot) =
        λ c h.
          get_elem?-set e.slots a.slot b.slot (cached_slot a cached) (omega (arith, full, small))
          ∙ ap (λ d. if d then some (cached_slot a cached) else get_elem? e.slots b.slot) h in
      elim (Bool-cases (bytes_eq a.sid b.sid)) [
        | inr f ↦ rw (check_sequence, stored false f) (rw f refl)
        | inl t ↦
            let mine : lookup b.sid s.state.sessions ≡ some e =
              ap (λ i. lookup i s.state.sessions) (sym (eq_of_bytes_eq a.sid b.sid t)) ∙ found in
            elim (Bool-cases (a.slot == b.slot)) [
              | inr g ↦
                  let same =
                    ap
                      (λ v.
                        if leb fore_slots b.slot
                        then refused err_badslot
                        else check_slot b (unwrap_slot v))
                      (slot false g) in
                  rw (check_sequence, stored true t) (rw t (rw g (rw (check_sequence, mine) same)))
              | inl u ↦
                  let within : leb fore_slots b.slot ≡ false = ground arith in
                  let read : slot_at kept.slots b.slot ≡ cached_slot a cached =
                    rw (slot true u) refl in
                  rw (check_sequence, stored true t)
                    (rw t (
                      rw u (
                        rw within
                          (ap (check_slot b) read ∙ check_slot_by b a.seqid cached a.cachethis))))
            ]
      ]

take_restart :
    (w : XdrWriter) (tag : List ℕ)
    → Writer.truncate (Writer.u32 (Writer.opaque (Writer.u32 w nfs4_ok) tag) 0) (Writer.pos w) ≡ w
unfolding Writer.truncate Writer.pos Writer.u32 Writer.opaque
take_restart w tag =
    let status = to_be_bytes 4 nfs4_ok in
    let len = to_be_bytes 4 (length tag % 2 ^ 32) in
    ap (λ b. record { buf = b }) (rw pad-buf (simp append_assoc (take-append w.buf _)))

module _ {W F : Type 0} (eval_op : EvalOp W F) (conn : ℕ) where
  op_sequence-replay :
      (s : Server W) (ctx : Ctx F) (r : XdrReader) (w : XdrWriter) (a : SequenceArgs)
      (cached : List ℕ)
      → (sequence_args r).0 ≡ some a
      → check_sequence (some a) s.state ≡ replay cached
      → op_sequence s conn ctx r w ≡ (replay cached, ((sequence_args r).1, (w, (ctx, s))))
  unfolding op_sequence
  op_sequence-replay s ctx r w a cached args judged = rw (op_sequence, args) (rw judged refl)

  operations-replay :
      (p : Progress W F) (left : ℕ) (a : SequenceArgs) (cached : List ℕ)
      → (Reader.u32 p.r).0 ≡ some op_sequence_number
      → (sequence_args (Reader.u32 p.r).1).0 ≡ some a
      → check_sequence (some a) p.server.state ≡ replay cached
      → operations eval_op conn (suc left) true p ≡ replayed cached p.server
  unfolding operations
  operations-replay p left a cached code args judged =
      let done = op_sequence-replay p.server p.ctx (Reader.u32 p.r).1 p.w a cached args judged in
      rw (operations, code) (rw done (ap (λ d. replayed cached d.1.1.1.1) done))

  -- A request that repeats a SEQUENCE whose reply was kept: the kept results are sent again behind the
  -- request's tag, with the status NFS4_OK whatever the status of the kept reply was; no operation
  -- is evaluated and the server does not change. The request is one of minor version 1 with 1 to 64
  -- operations, the first of them SEQUENCE with the arguments of the kept reply.
  pub compound-cache_reply :
      (s : Server W) (a : SequenceArgs) (cached : List ℕ) (e : Session) (r : XdrReader)
      (w : XdrWriter) (tag : List ℕ) (nops : ℕ)
      → lookup a.sid s.state.sessions ≡ some e
      → length e.slots ≡ fore_slots
      → a.slot < fore_slots
      → a.cachethis ≡ true
      → (compound_header r).0 ≡ some (tag, (1, suc nops))
      → suc nops ≤ max_ops
      → (Reader.u32 (compound_header r).1).0 ≡ some op_sequence_number
      → (sequence_args (Reader.u32 (compound_header r).1).1).0 ≡ some a
      → compound eval_op conn (cache_reply s a cached) r w ≡ record {
        w = Writer.fixed (Writer.opaque (Writer.u32 w nfs4_ok) tag) cached;
        server = cache_reply s a cached;
        tail_file = none;
      }
  unfolding compound
  compound-cache_reply s a cached e r w tag nops found full small keep header few code args =
      let judged : check_sequence (some a) (cache_reply s a cached).state ≡ replay cached =
        check_sequence-cache_reply s a a cached e found full small
        ∙ rw (bytes_eq_refl a.sid) (rw (==_refl a.slot) (rw (==_refl a.seqid) (rw keep refl))) in
      let narrow : ltb max_ops (suc nops) ≡ false = ground arith in
      let start : Progress W F = record {
        r = (compound_header r).1;
        w = Writer.u32 (Writer.opaque (Writer.u32 w nfs4_ok) tag) 0;
        ctx = no_ctx eval_op conn;
        server = cache_reply s a cached;
        status = nfs4_ok;
        nres = 0;
        cache_slot = none;
      } in
      let answered = operations-replay start nops a cached code args judged in
      rw (compound, header) (rw narrow (rw (evaluate, answered) (rw (take_restart w tag) refl)))
