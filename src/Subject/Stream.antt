-- ===== src/Subject/Stream.antt =====
-- Stream names: the encoding can be undone, keeps no separator, and the decoder accepts exactly what
-- the encoder emits.
use natsstore.Base.{ℕ, ◌≡◌, ◌≢◌, refl, Bool, false, [], ◌∷◌, All, ◌==◌, arith}
use natsstore.Base.Bytes.{Bytes, bytes_eq_iff, bytes_eq_refl}
use natsstore.Base.Outcome.{ok}
use natsstore.Subject.{
  stream_escape, encode_stream, decode_bytes, decode_stream, stream_for_name, name_from_stream,
}

decode_bytes_plain :
    (c : ℕ) (s name : Bytes)
    → (c == stream_escape) ≡ false
    → decode_bytes s ≡ ok name
    → decode_bytes (c ∷ s) ≡ ok (c ∷ name)
unfolding decode_bytes
decode_bytes_plain c [] name h e = ground arith
decode_bytes_plain c (d ∷ s) name h e = rw (h, e)

decode_bytes-encode_stream : (name : Bytes) → decode_bytes (encode_stream name) ≡ ok name
unfolding decode_bytes encode_stream
decode_bytes-encode_stream [] = refl
decode_bytes-encode_stream (c ∷ rest) =
    ground (arith, decode_bytes-encode_stream rest, decode_bytes_plain c (encode_stream rest) rest)

-- Decoding an encoded name gives the name back, whatever its bytes are.
pub decode_stream-encode_stream : (name : Bytes) → decode_stream (encode_stream name) ≡ ok name
unfolding decode_stream
decode_stream-encode_stream name = ground (arith, decode_bytes-encode_stream name)

-- Two names have one stream name only if they are the same name.
pub encode_stream_injective : (a b : Bytes) → encode_stream a ≡ encode_stream b → a ≡ b
encode_stream_injective a b h = cc (decode_stream-encode_stream a, decode_stream-encode_stream b, h)

-- An encoded name has no '.' and no '/', so it is one token of a subject.
pub encode_stream-is_token :
    (name : Bytes) → All (λ c. (c ≢ b'.') × (c ≢ b'/')) (encode_stream name)
unfolding encode_stream
encode_stream-is_token [] = tt
encode_stream-is_token (c ∷ rest) = ground (arith, encode_stream-is_token rest)

module _ (validate_name : Bytes → Bool) where
  -- Whatever names are valid, a stream name that streamForName emits for a name is read back as that name by
  -- nameFromStream.
  pub name_from_stream-stream_for_name :
      (name stream : Bytes)
      → stream_for_name validate_name name ≡ ok stream
      → name_from_stream validate_name stream ≡ ok name
  unfolding name_from_stream stream_for_name
  name_from_stream-stream_for_name name stream h =
      ground (arith, decode_stream-encode_stream name, bytes_eq_refl (encode_stream name))

  -- What nameFromStream accepts is the encoding of the name that it returns.
  pub stream_for_name-name_from_stream :
      (name stream : Bytes)
      → name_from_stream validate_name stream ≡ ok name
      → stream_for_name validate_name name ≡ ok stream
  unfolding name_from_stream stream_for_name
  stream_for_name-name_from_stream name stream h =
      ground (arith, bytes_eq_iff (encode_stream name) stream)
