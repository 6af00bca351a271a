-- ===== src/Ordered/Codec/Cursor.antt =====
-- ordered_codec.go: continuation cursors.
pub mod Laws
use natsstore.Base.{
  ℕ, ◌≡◌, Bool, true, false, ◌&&◌, ◌||◌, Option, none, some, List, [], ◌∷◌, ◌++◌, length, not, ltb,
  ◌==◌, if◌then◌else◌,
}
use natsstore.Base.Bytes.{Bytes, bytes, bytes_eq, cut_prefix}
use natsstore.Base.Decimal.{is_digit, format_uint, parse_uint}
use natsstore.Base.Outcome.{Result, ok, err}
use natsstore.Ordered.Codec.{cut}
use natsstore.Ordered.Errors.{
  OrderedError, codec, cursor_encode_failed, CursorRule, malformed, unknown_version, wrong_kind,
  invalid_cursor,
}
use natsstore.Ordered.Libraries.{Storage, Encodings, CursorPayload}

abbrev pub ordered_cursor_version : ℕ
ordered_cursor_version = 1

abbrev pub ordered_cursor_prefix : Bytes
ordered_cursor_prefix = bytes "oi"

-- 8 << 10
abbrev pub max_ordered_cursor_bytes : ℕ
max_ordered_cursor_bytes = 8192

-- The largest int.
abbrev pub max_int : ℕ
max_int = 9223372036854775807

unfoldable pub all_digits : Bytes → Bool
all_digits [] = true
all_digits (c ∷ s) = is_digit c && all_digits s

-- The digits before the separator: some of them, decimal, in an int's range, and canonical.
unfoldable pub cursor_version : Bytes → Option ℕ
unfolding all_digits
cursor_version [] = none
cursor_version (c ∷ s) =
    if all_digits (c ∷ s)
    then elim (parse_uint max_int (c ∷ s)) [
      | err e ↦ none
      | ok version ↦ if bytes_eq (format_uint version) (c ∷ s) then some version else none
    ]
    else none

unfoldable pub split_cursor_version : Bytes → Option (ℕ × Bytes)
split_cursor_version token = elim (cut_prefix ordered_cursor_prefix token) [
  | none ↦ none
  | some rest ↦ elim (cut b'.' rest) [
    | none ↦ none
    | some (digits, body) ↦ elim (cursor_version digits) [
      | none ↦ none
      | some version ↦ some (version, body)
    ]
  ]
]

module _ (storage : Storage) (enc : Encodings) where
  unfoldable pub encode_ordered_cursor : CursorPayload → Result OrderedError Bytes
  encode_ordered_cursor payload = elim (enc.marshal_cursor payload) [
    | none ↦ err (codec [] cursor_encode_failed)
    | some text ↦ ok (
        ordered_cursor_prefix
        ++ (format_uint ordered_cursor_version ++ (bytes "." ++ enc.base64_encode text)))
  ]

  -- The last gate: the payload's own kind.
  unfoldable pub check_kind : Bytes → Bytes → CursorPayload → Result OrderedError CursorPayload
  check_kind kind token payload =
      if not (bytes_eq payload.kind kind)
      then if bytes_eq payload.kind storage.ranked_cursor_kind
          || bytes_eq payload.kind storage.due_cursor_kind
        then err (invalid_cursor kind token wrong_kind)
        else err (invalid_cursor kind token malformed)
      else ok payload

  -- The body of a token of this version: base64, then one strict JSON object.
  unfoldable pub decode_cursor_body : Bytes → Bytes → Bytes → Result OrderedError CursorPayload
  decode_cursor_body kind token body = elim (enc.base64_decode body) [
    | none ↦ err (invalid_cursor kind token malformed)
    | some text ↦ elim (enc.decode_cursor_json text) [
      | none ↦ err (invalid_cursor kind token malformed)
      | some (payload, more) ↦
          if more then err (invalid_cursor kind token malformed) else check_kind kind token payload
    ]
  ]

  unfoldable pub decode_ordered_cursor_payload : Bytes → Bytes → Result OrderedError CursorPayload
  decode_ordered_cursor_payload kind token =
      if ltb max_ordered_cursor_bytes (length token)
      then err (invalid_cursor kind token malformed)
      else elim (split_cursor_version token) [
        | none ↦ err (invalid_cursor kind token malformed)
        | some (version, body) ↦
            if not (version == ordered_cursor_version)
            then err (invalid_cursor kind token unknown_version)
            else decode_cursor_body kind token body
      ]
