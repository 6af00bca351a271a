-- ===== src/Ordered/Codec.antt =====
-- ordered_codec.go: subjects, record payloads and order counters. The cursors are in `Cursor`.
pub mod Counter
pub mod Gates
pub mod Families
pub mod Cursor
use natsstore.Base.{
  ℕ, zero, suc, ◌+◌, ◌-◌, ◌/◌, ◌%◌, ◌^◌, Bool, true, false, Option, none, some, List, [], ◌∷◌, ◌++◌,
  length, ◌==◌, ltb, if◌then◌else◌, not,
}
use natsstore.Base.Bytes.{Bytes, bytes, bytes_eq, cut_prefix}
use natsstore.Base.Decimal.{ParseError, syntax, out_of_range, format_uint, parse_uint}
use natsstore.Base.Outcome.{Result, ok, err, then_try}
use natsstore.Subject.{encode_stream}
use natsstore.Ordered.Record.{OrderedId, OrderedRecord}
use natsstore.Ordered.Errors.{
  OrderedError, invalid, name, ordered_id, codec, encode_failed, ordered_record, malformed_payload,
  trailing_bytes, contract_violated, no_subject, unsupported_version, identity_mismatch, counter,
  not_decimal, counter_range, counter_zero, not_canonical,
}
use natsstore.Ordered.Libraries.{Storage, Encodings, OrderedPayload}

abbrev pub ordered_record_version : ℕ
ordered_record_version = 1

abbrev pub max_uint64 : ℕ
max_uint64 = 18446744073709551615

abbrev pub identity_domain : Bytes
identity_domain = bytes "looprig.natsstore.ordered.identity.v1"

-- binary.BigEndian.PutUint64.
unfoldable pub big_endian : ℕ → ℕ → Bytes
big_endian zero n = []
big_endian (suc k) n = (n / 256 ^ k) % 256 ∷ big_endian k n

-- A component behind the eight bytes of its length.
unfoldable pub framed : Bytes → Bytes
unfolding big_endian
framed part = big_endian 8 (length part) ++ part

-- What orderedIdentityToken hashes.
unfoldable pub identity_preimage : OrderedId → Bytes
unfolding framed
identity_preimage id =
    identity_domain ++ (framed id.namespace ++ (framed id.ordering_scope ++ framed id.stable_key))

-- strings.Cut around one byte.
unfoldable pub cut : ℕ → Bytes → Option (Bytes × Bytes)
cut sep [] = none
cut sep (c ∷ s) =
    let rest : Option (Bytes × Bytes) = elim (cut sep s) [
      | none ↦ none
      | some (before, after) ↦ some (c ∷ before, after)
    ] in
    if c == sep then some ([], s) else rest

-- The families of subjects inside a namespace's stream.
pub data SubjectFamily : Type 0 where
  foreign_subject counter_family record_family : SubjectFamily

-- The names of the wire families, "c" and "r".
abbrev pub family_of_token : Bytes → SubjectFamily
family_of_token token =
    if bytes_eq token (bytes "c")
    then counter_family
    else if bytes_eq token (bytes "r")
    then record_family
    else foreign_subject

abbrev pub payload_of : OrderedRecord → OrderedPayload
payload_of rec = record {
  version = ordered_record_version;
  namespace = rec.id.namespace;
  ordering_scope = rec.id.ordering_scope;
  stable_key = rec.id.stable_key;
  ranking_scope = rec.ranking_scope;
  revision = rec.revision;
  order = rec.order;
  due_state = rec.due.state;
  due_unix_millis = rec.due.unix_millis;
  ranked = rec.rank.ranked;
  rank_value = rec.rank.value;
  deleted = rec.deleted;
  value = rec.value;
}

abbrev pub record_of : OrderedPayload → OrderedRecord
record_of p = record {
  id = record {
    namespace = p.namespace;
    ordering_scope = p.ordering_scope;
    stable_key = p.stable_key;
  };
  ranking_scope = p.ranking_scope;
  revision = p.revision;
  order = p.order;
  due = record { state = p.due_state; unix_millis = p.due_unix_millis };
  rank = record { ranked = p.ranked; value = p.rank_value };
  value = p.value;
  deleted = p.deleted;
}

module _ (storage : Storage) where
  unfoldable pub ordered_stream_name : Bytes → Result OrderedError Bytes
  ordered_stream_name ns =
      if storage.validate_name ns then ok (bytes "OI_" ++ encode_stream ns) else err (invalid name)

  unfoldable pub ordered_namespace_prefix : Bytes → Result OrderedError Bytes
  ordered_namespace_prefix ns =
      if storage.validate_name ns then ok (bytes "OI." ++ encode_stream ns) else err (invalid name)

  unfoldable pub ordered_subject_filter : Bytes → Result OrderedError Bytes
  unfolding ordered_namespace_prefix
  ordered_subject_filter ns =
      then_try (ordered_namespace_prefix ns) (λ prefix. ok (prefix ++ bytes ".>"))

  unfoldable pub ordered_counter_subject : Bytes → Bytes → Result OrderedError Bytes
  unfolding ordered_namespace_prefix
  ordered_counter_subject ns scope = then_try (ordered_namespace_prefix ns) λ prefix.
      if storage.validate_name scope
      then ok (prefix ++ (bytes ".c." ++ encode_stream scope))
      else err (invalid name)

  unfoldable pub classify_ordered_subject : Bytes → Bytes → Result OrderedError SubjectFamily
  unfolding ordered_namespace_prefix cut_prefix cut
  classify_ordered_subject ns subject = then_try (ordered_namespace_prefix ns) λ prefix.
      elim (cut_prefix (prefix ++ bytes ".") subject) [
        | none ↦ ok foreign_subject
        | some rest ↦ elim (cut b'.' rest) [
          | none ↦ ok foreign_subject
          | some (token, _) ↦ ok (family_of_token token)
        ]
      ]

  module _ (enc : Encodings) where
    unfoldable pub ordered_identity_token : OrderedId → Bytes
    unfolding identity_preimage
    ordered_identity_token id = enc.base64_encode (enc.sha256 (identity_preimage id))

    unfoldable pub ordered_record_subject : OrderedId → Result OrderedError Bytes
    unfolding ordered_identity_token ordered_namespace_prefix
    ordered_record_subject id =
        if storage.validate_ordered_id id
        then then_try (ordered_namespace_prefix id.namespace) (λ prefix. ok (
            prefix
            ++ (bytes ".r."
                ++ (encode_stream id.ordering_scope ++ (bytes "." ++ ordered_identity_token id)))))
        else err (invalid ordered_id)

    -- A record that storage.ValidateOrderedRecord refuses is not encoded.
    unfoldable pub encode_ordered_record : OrderedRecord → Result OrderedError Bytes
    encode_ordered_record rec =
        if storage.validate_ordered_record rec
        then elim (enc.marshal_record (payload_of rec)) [
          | none ↦ err (codec [] encode_failed)
          | some text ↦ ok text
        ]
        else err (invalid ordered_record)

    -- The last three gates, on the decoded payload.
    unfoldable pub admit_payload : Bytes → OrderedPayload → Result OrderedError OrderedRecord
    admit_payload subject p =
        if not (p.version == ordered_record_version)
        then err (codec subject (unsupported_version p.version))
        else if not (storage.validate_ordered_record (record_of p))
        then err (codec subject contract_violated)
        else elim (ordered_record_subject (record_of p).id) [
          | err e ↦ err (codec subject no_subject)
          | ok want ↦
              if bytes_eq want subject
              then ok (record_of p)
              else err (identity_mismatch subject want)
        ]

    unfoldable pub decode_ordered_record : Bytes → Bytes → Result OrderedError OrderedRecord
    unfolding admit_payload
    decode_ordered_record subject text = elim (enc.decode_record_json text) [
      | none ↦ err (codec subject malformed_payload)
      | some (p, more) ↦
          if more then err (codec subject trailing_bytes) else admit_payload subject p
    ]

unfoldable pub encode_ordered_counter : ℕ → Bytes
encode_ordered_counter order = format_uint order

abbrev pub parse_reason : ParseError → OrderedError → OrderedError → OrderedError
parse_reason syntax a b = a
parse_reason out_of_range a b = b

unfoldable pub decode_ordered_counter : Bytes → Result OrderedError ℕ
unfolding encode_ordered_counter
decode_ordered_counter text = elim (parse_uint max_uint64 text) [
  | err e ↦ err (parse_reason e (counter text not_decimal) (counter text counter_range))
  | ok order ↦
      if order == 0
      then err (counter text counter_zero)
      else if bytes_eq (encode_ordered_counter order) text
      then ok order
      else err (counter text not_canonical)
]
