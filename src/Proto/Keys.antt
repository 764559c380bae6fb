-- ===== src/Proto/Keys.antt =====
-- The derived equality of `NodeKey` in crates/mist-proto/src/types.rs, as a key of a map.
use mist.Prelude.{Bool, true, ◌&&◌, ◌==◌, ◌≡◌, ◌↔◌, arith}
use mist.Prelude.Map.{Eq}
use mist.Proto.Types.{NodeKey}

abbrev pub key_eq : NodeKey → NodeKey → Bool
key_eq a b = a.ino == b.ino && a.generation == b.generation

pub key_eq_iff : (a b : NodeKey) → (key_eq a b ≡ true) ↔ (a ≡ b)
key_eq_iff a b = (λ h. ground arith, λ h. ground arith)

instance abbrev pub node_key : Eq NodeKey
node_key = record { beq = key_eq; beq_iff = key_eq_iff }
