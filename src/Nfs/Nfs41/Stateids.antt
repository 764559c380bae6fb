-- ===== src/Nfs/Nfs41/Stateids.antt =====
-- crates/mist-nfs/src/nfs41/mod.rs: how stateids are judged, and the small wire helpers.
use mist.Prelude.{
  ℕ, zero, suc, ◌*◌, Bool, true, false, not, ◌&&◌, ◌||◌, Option, none, some, List, [], ◌∷◌, take,
  drop, replicate, ◌==◌, if◌then◌else◌, bytes_eq,
}
use mist.Prelude.Map.{Map, lookup}
use mist.Proto.Types.{NodeKey}
use mist.Nfs.Xdr.Reader
use mist.Nfs.Xdr.Reader.{R, pure, ◌>>=◌, ◌>>◌}
use mist.Nfs.Xdr.Writer
use mist.Nfs.Xdr.Writer.{XdrWriter}
use mist.Nfs.Nfs41.State.{State, Delegation, id_key, is_some}
use mist.Nfs.Nfs41.Compound.{Ctx, max_ops}

-- All zeros, and all ones.
abbrev pub anonymous : List ℕ
anonymous = replicate 12 0

abbrev pub bypass : List ℕ
bypass = replicate 12 255

unfoldable pub stateid_is_stale : State → List ℕ → Bool
stateid_is_stale s other =
    not (bytes_eq other anonymous)
    && (not (bytes_eq other bypass) && not (bytes_eq (drop 9 other) (take 3 s.boot_verifier)))

unfoldable pub is_delegated : List ℕ → Map NodeKey Delegation → Bool
is_delegated other [] = false
is_delegated other ((k, d) ∷ m) = bytes_eq d.stateid_other other || is_delegated other m

unfoldable pub stateid_ok : State → (seq : ℕ) → List ℕ → Bool
unfolding is_delegated
stateid_ok s seq other =
    if bytes_eq other anonymous
    then seq == 0 || seq == 1
    else if bytes_eq other bypass
    then true
    else is_some (lookup other s.opens)
      || (is_some (lookup other s.locks) || is_delegated other s.delegations)

unfoldable pub resolve_stateid : {F : Type 0} → Ctx F → (seq : ℕ) → List ℕ → List ℕ
resolve_stateid ctx seq other =
    let current : List ℕ = elim ctx.current_stateid [ some c ↦ c.0 | none ↦ other ] in
    if bytes_eq other anonymous && seq == 1 then current else other

unfoldable pub read_stateid : R (ℕ × List ℕ)
read_stateid = do seq ← Reader.u32; other ← Reader.fixed 12; pure (seq, other)

unfoldable pub change_info : XdrWriter → (before after : ℕ) → XdrWriter
change_info w before after = Writer.u64 (Writer.u64 (Writer.bool w true) before) after

-- `for _ in 0..n { r.u32()?; }`
unfoldable pub skip_words : ℕ → R (Unit {0})
skip_words zero = pure tt
skip_words (suc n) = do _ ← Reader.u32; skip_words n

unfoldable pub read_chan_attrs : R ℕ
unfolding skip_words
read_chan_attrs = do
  _ ← Reader.u32
  max_req ← Reader.u32
  _ ← Reader.u32
  _ ← Reader.u32
  _ ← Reader.u32
  _ ← Reader.u32
  n_rdma ← Reader.u32
  _ ← skip_words n_rdma
  pure max_req

unfoldable pub write_chan_attrs : XdrWriter → (max_req slots : ℕ) → XdrWriter
write_chan_attrs w max_req slots =
    let sizes = Writer.u32 (Writer.u32 (Writer.u32 (Writer.u32 w 0) max_req) max_req) (64 * 1024) in
    Writer.u32 (Writer.u32 (Writer.u32 sizes max_ops) slots) 0

abbrev pub err_io : ℕ
err_io = 5

-- The end of an accepted reply: its compound status, or an I/O error if the call failed.
unfoldable pub cb_accepted : R ℕ
cb_accepted = do
  _ ← Reader.u32
  _ ← Reader.skip_opaque 1024
  accept_stat ← Reader.u32
  if not (accept_stat == 0) then pure err_io else Reader.u32

unfoldable pub cb_status : R ℕ
unfolding cb_accepted
cb_status = do reply_stat ← Reader.u32; if not (reply_stat == 0) then pure err_io else cb_accepted

unfoldable pub cb_reply : R ℕ
unfolding cb_status
cb_reply = do
  _ ← Reader.u32
  msg_type ← Reader.u32
  if not (msg_type == 1) then Reader.fail else cb_status

unfoldable pub parse_cb_reply_status : List ℕ → Option ℕ
unfolding cb_reply
parse_cb_reply_status bytes = (cb_reply (Reader.new bytes)).0
