-- ===== src/Tests/Wire.antt =====
-- XDR streams, calls and file handles of crates/mist-nfs.
use mist.Prelude.{
  ℕ, ◌+◌, ◌<◌, ◌^◌, ◌≢◌, true, some, List, [], ◌∷◌, ◌++◌, length, take, drop, replicate, bytes_eq,
  ◌≡◌, refl, arith,
}
use mist.Prelude.Result.{ok, err}
use mist.Bytes.{AreBytes, to_be_bytes, from_be_bytes}
use mist.Proto.Types.{NodeKey}
use mist.Nfs.Xdr.Reader
use mist.Nfs.Xdr.Writer
use mist.Nfs.Xdr.Writer.{XdrWriter, patch_u32, truncate, since, pad_to_4}
use mist.Nfs.Xdr.Roundtrip.{padding}
use mist.Nfs.Xdr.ReadBack.{ReadsBack, primitives_read_back, opaques_read_back}
use mist.Nfs.Xdr.Bounds.{Stays, reads_stay}
use mist.Nfs.Xdr.Patch.{patch_u32_lem, pad_to_4_lem}
use mist.Nfs.Rpc.{RpcCall, parse_call, not_call, bad_version}
use mist.Nfs.Rpc.Calls.{
  Cred, CredIsValid, CallIsValid, Gives, sys, call_bytes, ids_bytes, parse_call-call_bytes,
  parse_call_refusals,
}
use mist.Nfs.Handle
use mist.Nfs.Handle.{Blake3, HandleCodec, mac}
use mist.Nfs.Handle.Forgery.{IsDigest, layout, handle_decode-encode, decode_sound}

abbrev started : XdrWriter
started = record { buf = 1 ∷ 2 ∷ 3 ∷ 4 ∷ [] }

abbrev word : List ℕ
word = b'a' ∷ b'b' ∷ []

primitives_read_back_example :
    ReadsBack Reader.u32 7 started (Writer.u32 started 7)
    × ReadsBack Reader.u64 8 started (Writer.u64 started 8)
    × ReadsBack Reader.bool true started (Writer.bool started true)
primitives_read_back_example = primitives_read_back started 7 8 true (omega arith) (omega arith)

opaques_read_back_example :
    ReadsBack (Reader.opaque 9) word started (Writer.opaque started word)
    × ReadsBack (Reader.fixed (length word)) word started (Writer.fixed started word)
opaques_read_back_example = opaques_read_back started word 9 (omega arith) (omega arith)

reads_stay_example :
    Stays Reader.u32
    × Stays Reader.u64
    × Stays Reader.bool
    × Stays (Reader.opaque 9)
    × Stays (Reader.fixed 9)
    × Stays (Reader.skip_opaque 9)
reads_stay_example = reads_stay 9

patch_u32_lem_example :
    (length (patch_u32 started 0 5).buf ≡ length started.buf)
    × (take 0 (patch_u32 started 0 5).buf ≡ take 0 started.buf)
    × (Reader.u32 (record { buf = (patch_u32 started 0 5).buf; pos = 0 })
        ≡ (some 5, record { buf = (patch_u32 started 0 5).buf; pos = 0 + 4 }))
    × (drop (0 + 4) (patch_u32 started 0 5).buf ≡ drop (0 + 4) started.buf)
patch_u32_lem_example = patch_u32_lem started 0 5 (omega arith) (omega arith)

pad_to_4_lem_example : (pad_to_4 (record { buf = word })).buf ≡ word ++ padding (length word)
pad_to_4_lem_example = pad_to_4_lem (record { buf = word })

abbrev null_call : RpcCall
null_call = record { xid = 9; program = 100003; version = 3; procedure = 0; uid = 501; gid = 20 }

abbrev sys_cred : Cred
sys_cred = record { flavor = 1; body = ids_bytes 6 word 501 20 ++ [] }

abbrev null_cred : Cred
null_cred = record { flavor = 0; body = [] }

null_call-IsValid : CallIsValid null_call
null_call-IsValid = record {
  xid = omega arith;
  program = omega arith;
  version = omega arith;
  procedure = omega arith;
}

sys_cred-IsValid : CredIsValid sys_cred
unfolding ids_bytes to_be_bytes
sys_cred-IsValid = record { flavor = omega arith; body = omega arith }

null_cred-IsValid : CredIsValid null_cred
null_cred-IsValid = record { flavor = omega arith; body = omega arith }

sys-Gives : Gives sys_cred 501 20
sys-Gives =
    sys sys_cred 6 word 501 20 [] refl refl (omega arith) (omega arith) (omega arith) (omega arith)

parse_call-call_bytes_example :
    parse_call (call_bytes null_call 0 2 sys_cred null_cred ++ 7 ∷ [])
    ≡ ok (
      null_call,
      record {
        buf = call_bytes null_call 0 2 sys_cred null_cred ++ 7 ∷ [];
        pos = length (call_bytes null_call 0 2 sys_cred null_cred);
      },
    )
parse_call-call_bytes_example =
    parse_call-call_bytes null_call sys_cred null_cred (7 ∷ []) null_call-IsValid sys_cred-IsValid
      null_cred-IsValid sys-Gives

one_not_zero : ◌≢◌ {A = ℕ} 1 0
one_not_zero e = omega arith

three_not_two : ◌≢◌ {A = ℕ} 3 2
three_not_two e = omega arith

parse_call_refusals_example :
    (parse_call (to_be_bytes 4 9 ++ (to_be_bytes 4 1 ++ [])) ≡ err not_call)
    × (parse_call (to_be_bytes 4 9 ++ (to_be_bytes 4 0 ++ (to_be_bytes 4 3 ++ [])))
        ≡ err (bad_version 3))
parse_call_refusals_example =
    parse_call_refusals 9 1 3 [] (omega arith) (omega arith) (omega arith) one_not_zero
      three_not_two

-- A digest of 32 zeros, in place of blake3's.
abbrev zeros : Blake3
zeros = record { hash = λ _. []; keyed_hash = λ _ _. replicate 32 0 }

abbrev codec : HandleCodec
codec = record { key = [] }

zero_bytes : (key message : List ℕ) → AreBytes (zeros.keyed_hash key message)
zero_bytes key message = ground arith

zeros-IsDigest : IsDigest zeros
zeros-IsDigest = record { width = λ key message. refl; bytes = zero_bytes }

abbrev file_key : NodeKey
file_key = record { ino = 77; generation = 5 }

handle_decode-encode_example :
    Handle.decode zeros codec (Handle.encode zeros codec 3 file_key) ≡ some (3, file_key)
handle_decode-encode_example =
    handle_decode-encode zeros zeros-IsDigest codec 3 file_key (omega arith) (omega arith)
      (omega arith)

abbrev signed : List ℕ
signed =
    layout (to_be_bytes 2 3) (to_be_bytes 2 0) (to_be_bytes 8 77) (to_be_bytes 4 5)
      (to_be_bytes 8 0)

signed-bytes : AreBytes signed
unfolding layout to_be_bytes
signed-bytes = ground arith

signed_decodes : Handle.decode zeros codec signed ≡ some (3, file_key)
unfolding layout to_be_bytes Handle.decode mac bytes_eq from_be_bytes
signed_decodes = refl

decode_sound_example :
    (flags : ℕ) × (flags < 2 ^ 16)
    × (signed
        ≡ layout
            (to_be_bytes 2 3)
            (to_be_bytes 2 flags)
            (to_be_bytes 8 77)
            (to_be_bytes 4 5)
            (to_be_bytes 8 (mac zeros codec 3 flags file_key)))
decode_sound_example =
    decode_sound zeros zeros-IsDigest codec signed 3 file_key signed-bytes signed_decodes
