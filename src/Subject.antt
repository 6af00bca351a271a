-- ===== src/Subject.antt =====
-- subject.go: storage names as JetStream subjects and stream names. `storage.ValidateName` is a
-- parameter, the test `validate_name`.
pub mod Stream
pub mod Dots
use natsstore.Base.{ℕ, Bool, true, false, List, [], ◌∷◌, ◌==◌, ltb, if◌then◌else◌}
use natsstore.Base.Bytes.{Bytes, bytes, bytes_eq, replace_all}
use natsstore.Base.Outcome.{Result, ok, err, then_try}

-- Why an encoded token is refused (NameEncodingError.Reason).
pub data Reason : Type 0 where
  not_a_name not_canonical_subject not_canonical_stream dangling_escape unknown_escape : Reason

-- *storage.InvalidNameError and *NameEncodingError.
pub data NameError : Type 0 where
  invalid_name : Bytes → NameError
  name_encoding : Bytes → Reason → NameError

-- '_', the one reserved byte of the stream encoding, and "%2E", which stands for '.' in a subject.
abbrev pub stream_escape : ℕ
stream_escape = b'_'

abbrev pub subject_dot_escape : Bytes
subject_dot_escape = bytes "%2E"

unfoldable pub encode_subject : Bytes → Bytes
unfolding replace_all
encode_subject name =
    let escaped = replace_all name (bytes ".") subject_dot_escape in
    replace_all escaped (bytes "/") (bytes ".")

unfoldable pub encode_stream : Bytes → Bytes
encode_stream [] = []
encode_stream (c ∷ rest) =
    if c == stream_escape
    then b'_' ∷ b'u' ∷ encode_stream rest
    else if c == b'.'
    then b'_' ∷ b'd' ∷ encode_stream rest
    else if c == b'/'
    then b'_' ∷ b's' ∷ encode_stream rest
    else c ∷ encode_stream rest

-- The byte that an escape stands for.
abbrev pub unescape : ℕ → Result Reason ℕ
unescape c =
    if c == b'u'
    then ok b'_'
    else if c == b'd'
    then ok b'.'
    else if c == b's'
    then ok b'/'
    else err unknown_escape

-- The loop of decodeStream; the error's Value is the whole token, which the caller adds.
unfoldable pub decode_bytes : Bytes → Result Reason Bytes
decode_bytes [] = ok []
decode_bytes (c ∷ []) = if c == stream_escape then err dangling_escape else ok (c ∷ [])
decode_bytes (c ∷ d ∷ rest) =
    let plain = then_try (decode_bytes (d ∷ rest)) (λ out. ok (c ∷ out)) in
    let escape = then_try (unescape d) (λ b. then_try (decode_bytes rest) (λ out. ok (b ∷ out))) in
    if c == stream_escape then escape else plain

unfoldable pub decode_stream : Bytes → Result NameError Bytes
unfolding decode_bytes
decode_stream stream = elim (decode_bytes stream) [
  | ok name ↦ ok name
  | err reason ↦ err (name_encoding stream reason)
]

module _ (validate_name : Bytes → Bool) where
  unfoldable pub subject_for_name : Bytes → Result NameError Bytes
  subject_for_name name =
      if validate_name name then ok (encode_subject name) else err (invalid_name name)

  unfoldable pub name_from_subject : Bytes → Result NameError Bytes
  name_from_subject subj =
      let unhier = replace_all subj (bytes ".") (bytes "/") in
      let name = replace_all unhier subject_dot_escape (bytes ".") in
      if validate_name name
      then if bytes_eq (encode_subject name) subj
        then ok name
        else err (name_encoding subj not_canonical_subject)
      else err (name_encoding subj not_a_name)

  unfoldable pub stream_for_name : Bytes → Result NameError Bytes
  stream_for_name name =
      if validate_name name then ok (encode_stream name) else err (invalid_name name)

  -- What nameFromStream does with the decoded name.
  abbrev check_stream : Bytes → Bytes → Result NameError Bytes
  check_stream stream name =
      if validate_name name
      then if bytes_eq (encode_stream name) stream
        then ok name
        else err (name_encoding stream not_canonical_stream)
      else err (name_encoding stream not_a_name)

  unfoldable pub name_from_stream : Bytes → Result NameError Bytes
  name_from_stream stream = then_try (decode_stream stream) (check_stream stream)
