-- ===== src/Proto/Codec.antt =====
-- crates/mist-proto/src/codec.rs: a payload is decoded whole and validated. The postcard crate is a
-- parameter: `to_stdvec` is its encoder, and `take_from_bytes` its decoder, which returns the value
-- and what is left of the input, or an error of type `E`.
use mist.Prelude.{ℕ, List, [], ◌∷◌, ◌++◌, ◌≡◌, refl, append-nil}
use mist.Prelude.Result.{Result, ok, err, ◌>>=◌}
use mist.Proto.Validate.{ValidateError, Validated}

pub data DecodeError (E : Type 0) : Type 0 where
  postcard : E → DecodeError E
  trailing : DecodeError E
  invalid : ValidateError → DecodeError E

-- `#[from]` and `?`
abbrev pub map_err : {E F A : Type 0} → (E → F) → Result E A → Result F A
map_err f (ok a) = ok a
map_err f (err e) = err (f e)

unfoldable pub encode : {T : Type 0} → (T → List ℕ) → T → List ℕ
encode to_stdvec msg = to_stdvec msg

module _ {T E : Type 0} (take_from_bytes : List ℕ → Result E (T × List ℕ))
    (validate : T → Validated) where
  check_rest : T → List ℕ → Result (DecodeError E) T
  check_rest msg (_ ∷ _) = err trailing
  check_rest msg [] = map_err invalid (validate msg) >>= λ _. ok msg

  unfoldable pub decode : List ℕ → Result (DecodeError E) T
  unfolding check_rest
  decode bytes = map_err postcard (take_from_bytes bytes) >>= λ r. check_rest r.0 r.1

-- If the postcard decoder reads back what its encoder wrote, and leaves what follows, then `decode`
-- returns an encoded message that its validation accepts, refuses one that it does not accept with
-- the validation's error, and refuses any byte after the message.
pub codec_decode-encode :
    {T E : Type 0} (to_stdvec : T → List ℕ) (take_from_bytes : List ℕ → Result E (T × List ℕ))
    (validate : T → Validated)
    → ((m : T) (rest : List ℕ) → take_from_bytes (to_stdvec m ++ rest) ≡ ok (m, rest))
    → (m : T) (b : ℕ) (rest : List ℕ)
    → (decode take_from_bytes validate (encode to_stdvec m)
        ≡ (map_err invalid (validate m) >>= λ _. ok m))
      × (decode take_from_bytes validate (encode to_stdvec m ++ b ∷ rest) ≡ err trailing)
unfolding decode encode
codec_decode-encode to_stdvec take_from_bytes validate reads m b rest =
    let whole : take_from_bytes (to_stdvec m) ≡ ok (m, []) = rw append-nil at (reads m []) in
    (rw whole refl, rw (reads m (b ∷ rest)) refl)
