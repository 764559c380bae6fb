-- ===== src/Nfs/Handle.antt =====
-- crates/mist-nfs/src/handle.rs: file handles with a keyed MAC. The blake3 crate is a parameter: its
-- keyed hash takes a key and the message, and returns the digest's bytes.
pub mod Forgery
use mist.Prelude.{
  ℕ, ◌+◌, Bool, not, ◌||◌, Option, none, some, List, [], ◌∷◌, ◌++◌, take, drop, length, ◌==◌,
  bytes_eq, if◌then◌else◌,
}
use mist.Bytes.{to_be_bytes, from_be_bytes}
use mist.Proto.Types.{NodeKey}

abbrev pub magic : List ℕ
magic = b'M' ∷ b'S' ∷ b'T' ∷ b'1' ∷ []

abbrev pub handle_len : ℕ
handle_len = 4 + 2 + 2 + 8 + 4 + 8

-- The blake3 functions that the codec calls.
pub record Blake3 : Type 0 where
  pub hash : List ℕ → List ℕ
  pub keyed_hash : List ℕ → List ℕ → List ℕ

pub record HandleCodec : Type 0 where
  pub key : List ℕ

module _ (blake3 : Blake3) where
  unfoldable pub new : List ℕ → HandleCodec
  new secret = record { key = blake3.hash secret }

  unfoldable pub mac : HandleCodec → ℕ → ℕ → NodeKey → ℕ
  mac c share flags node =
      let digest = blake3.keyed_hash c.key (
        magic
        ++ (to_be_bytes 2 share
            ++ (to_be_bytes 2 flags
                ++ (to_be_bytes 8 node.ino ++ to_be_bytes 4 node.generation)))) in
      from_be_bytes (take 8 digest)

  unfoldable pub encode : HandleCodec → ℕ → NodeKey → List ℕ
  encode c share node =
      magic
      ++ (to_be_bytes 2 share
          ++ (to_be_bytes 2 0
              ++ (to_be_bytes 8 node.ino
                  ++ (to_be_bytes 4 node.generation ++ to_be_bytes 8 (mac c share 0 node)))))

  -- `fh[i..j]` as a number
  abbrev pub field : List ℕ → ℕ → ℕ → ℕ
  field fh at width = from_be_bytes (take width (drop at fh))

  unfoldable pub decode : HandleCodec → List ℕ → Option (ℕ × NodeKey)
  decode c fh =
      if not (length fh == handle_len) || not (bytes_eq (take 4 fh) magic)
      then none
      else (let share = field fh 4 2 in
          let flags = field fh 6 2 in
          let node : NodeKey = record { ino = field fh 8 8; generation = field fh 16 4 } in
          if not (field fh 20 8 == mac c share flags node) then none else some (share, node))
