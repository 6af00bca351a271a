-- ===== src/Tests/Codecs.antt =====
-- Witnesses for the subjects, the payloads, the counters and the cursors.
use natsstore.Base.{◌≡◌, ◌≢◌, ◌<◌, ◌≤◌, refl, Bool, All, arith, true}
use natsstore.Base.Bytes.{
  Bytes, bytes, bytes_eq, bytes_eq_iff, has_prefix, cut_prefix, replace_all, replace_from,
}
use natsstore.Base.Decimal.{format_uint, format_digits, parse_uint}
use natsstore.Base.Outcome.{ok}
use natsstore.Subject.{
  stream_for_name, name_from_stream, subject_for_name, name_from_subject, encode_stream,
  encode_subject,
}
use natsstore.Subject.Stream.{name_from_stream-stream_for_name}
use natsstore.Subject.Dots.{name_from_subject-subject_for_name}
use natsstore.Ordered.Record.{ordered_record_equal}
use natsstore.Ordered.Codec.{
  max_uint64, decode_ordered_counter, encode_ordered_counter, encode_ordered_record,
  decode_ordered_record, ordered_record_subject, ordered_identity_token, ordered_namespace_prefix,
}
use natsstore.Ordered.Codec.Counter.{
  decode-encode_ordered_counter, decode_ordered_counter_canonical,
}
use natsstore.Ordered.Codec.Gates.{decode_ordered_record_sound, decode-encode_ordered_record}
use natsstore.Ordered.Codec.Cursor.{encode_ordered_cursor, decode_ordered_cursor_payload}
use natsstore.Ordered.Codec.Cursor.Laws.{decode-encode_ordered_cursor}
use natsstore.Tests.{
  storage, enc, some_record, some_position, is_some_payload, is_some_position, record_json,
  position_json,
}

abbrev subject : Bytes
subject = bytes "OI.n.r.s.h"

subject_located : ordered_record_subject storage enc some_record.id ≡ ok subject
unfolding ordered_record_subject ordered_namespace_prefix ordered_identity_token encode_stream
subject_located = refl

record_encoded : encode_ordered_record storage enc some_record ≡ ok (bytes "R")
unfolding encode_ordered_record is_some_payload ordered_record_equal bytes_eq
record_encoded = refl

decode-encode_ordered_record_example :
    decode_ordered_record storage enc subject (bytes "R") ≡ ok some_record
decode-encode_ordered_record_example =
    decode-encode_ordered_record storage enc record_json some_record subject (bytes "R")
      subject_located record_encoded

decode_ordered_record_sound_example :
    (storage.validate_ordered_record some_record ≡ true)
    × (ordered_record_subject storage enc some_record.id ≡ ok subject)
decode_ordered_record_sound_example =
    decode_ordered_record_sound storage enc subject (bytes "R") some_record
      decode-encode_ordered_record_example_lem
  where
    decode-encode_ordered_record_example_lem :
        decode_ordered_record storage enc subject (bytes "R") ≡ ok some_record
    decode-encode_ordered_record_example_lem =
        decode-encode_ordered_record storage enc record_json some_record subject (bytes "R")
          subject_located record_encoded

cursor_encoded : encode_ordered_cursor storage enc some_position ≡ ok (bytes "oi1.C")
unfolding encode_ordered_cursor is_some_position bytes_eq format_uint format_digits
cursor_encoded = refl

decode-encode_ordered_cursor_example :
    decode_ordered_cursor_payload storage enc (bytes "r") (bytes "oi1.C") ≡ ok some_position
decode-encode_ordered_cursor_example =
    decode-encode_ordered_cursor storage enc position_json (λ text. refl) some_position
      (bytes "oi1.C") cursor_encoded (omega arith)

decode-encode_ordered_counter_example : decode_ordered_counter (encode_ordered_counter 42) ≡ ok 42
decode-encode_ordered_counter_example = decode-encode_ordered_counter 42 (omega arith) (omega arith)

forty_two : decode_ordered_counter (bytes "42") ≡ ok 42
unfolding decode_ordered_counter encode_ordered_counter parse_uint format_uint format_digits
    bytes_eq
forty_two = refl

decode_ordered_counter_canonical_example :
    (encode_ordered_counter 42 ≡ bytes "42") × (0 < 42) × (42 ≤ max_uint64)
decode_ordered_counter_canonical_example =
    decode_ordered_counter_canonical (bytes "42") 42 forty_two

abbrev any_name : Bytes → Bool
any_name n = true

stream_named : stream_for_name any_name (bytes "a/b") ≡ ok (bytes "a_sb")
unfolding stream_for_name encode_stream
stream_named = refl

name_from_stream-stream_for_name_example :
    name_from_stream any_name (bytes "a_sb") ≡ ok (bytes "a/b")
name_from_stream-stream_for_name_example =
    name_from_stream-stream_for_name any_name (bytes "a/b") (bytes "a_sb") stream_named

-- A validation that accepts one name.
abbrev one_name : Bytes → Bool
one_name n = bytes_eq n (bytes "a.b/c")

one_name-grammar : (n : Bytes) → one_name n ≡ true → All (λ c. c ≢ b'%') n
one_name-grammar n h =
    let e : n ≡ bytes "a.b/c" = (bytes_eq_iff n (bytes "a.b/c")).0 h in
    rw e (omega arith, (omega arith, (omega arith, (omega arith, (omega arith, tt)))))

subject_named : subject_for_name one_name (bytes "a.b/c") ≡ ok (bytes "a%2Eb.c")
unfolding subject_for_name encode_subject replace_all replace_from has_prefix cut_prefix bytes_eq
subject_named = refl

name_from_subject-subject_for_name_example :
    name_from_subject one_name (bytes "a%2Eb.c") ≡ ok (bytes "a.b/c")
name_from_subject-subject_for_name_example =
    name_from_subject-subject_for_name one_name one_name-grammar (bytes "a.b/c") (bytes "a%2Eb.c")
      subject_named
