-- ===== src/Ordered/Codec/Cursor/Laws.antt =====
-- Continuation tokens: the version prefix has one spelling, and a token that was issued is read back.
use natsstore.Base.{
  ℕ, ◌≡◌, ◌≢◌, ◌≤◌, refl, false, some, [], ◌∷◌, ◌++◌, length, arith, Option-cases, inl, inr,
}
use natsstore.Base.Bytes.{
  Bytes, bytes, bytes_eq, bytes_eq_iff, bytes_eq_refl, cut_prefix, cut_prefix_sound,
}
use natsstore.Base.Decimal.{format_digits, format_uint, parse_uint}
use natsstore.Base.Outcome.{ok, err}
use natsstore.Ordered.Codec.{cut}
use natsstore.Ordered.Codec.Cursor.{
  ordered_cursor_prefix, max_ordered_cursor_bytes, cursor_version, split_cursor_version, check_kind,
  decode_cursor_body, encode_ordered_cursor, decode_ordered_cursor_payload,
}
use natsstore.Ordered.Errors.{unknown_version, invalid_cursor}
use natsstore.Ordered.Libraries.{Storage, Encodings, CursorPayload}

cut_sound :
    (sep : ℕ) (s before after : Bytes)
    → cut sep s ≡ some (before, after)
    → s ≡ before ++ sep ∷ after
unfolding cut
cut_sound sep [] before after h = cc
cut_sound sep (c ∷ s) before after h = elim (Option-cases (cut sep s)) [
  | inl e ↦ ground (arith, e)
  | inr ((b, a), e) ↦ ground (arith, e, cut_sound sep s b a e)
]

cursor_version_sound :
    (digits : Bytes) (version : ℕ)
    → cursor_version digits ≡ some version
    → digits ≡ format_uint version
unfolding cursor_version
cursor_version_sound [] version h = cc
cursor_version_sound (c ∷ s) version h = ground (arith, bytes_eq_iff (format_uint version) (c ∷ s))

-- A token is split only if it is spelled with the canonical decimal of its version.
pub split_cursor_version_canonical :
    (token body : Bytes) (version : ℕ)
    → split_cursor_version token ≡ some (version, body)
    → token ≡ ordered_cursor_prefix ++ (format_uint version ++ b'.' ∷ body)
unfolding split_cursor_version
split_cursor_version_canonical token body version h =
    elim (Option-cases (cut_prefix ordered_cursor_prefix token)) [
      | inl e ↦ ground (arith, e)
      | inr (rest, e) ↦ elim (Option-cases (cut b'.' rest)) [
        | inl f ↦ ground (arith, e, f)
        | inr ((digits, tail), f) ↦ elim (Option-cases (cursor_version digits)) [
          | inl g ↦ ground (arith, e, f, g)
          | inr (v, g) ↦ ground (
            arith,
            e,
            f,
            g,
            cut_prefix_sound ordered_cursor_prefix token rest,
            cut_sound b'.' rest digits tail,
            cursor_version_sound digits v,
          )
        ]
      ]
    ]

-- A token of this encoding is split into its version and its body.
pub split-issued : (body : Bytes) → split_cursor_version (bytes "oi1." ++ body) ≡ some (1, body)
unfolding split_cursor_version cursor_version cut_prefix cut parse_uint format_uint format_digits
    bytes_eq
split-issued body = refl

module _ (storage : Storage) (enc : Encodings) where
  -- With encodings that read back what they wrote, a token within the cap that was issued for a kind
  -- is decoded, for that kind, to the position that it was issued for.
  pub decode-encode_ordered_cursor :
      ((p : CursorPayload) (text : Bytes)
        → enc.marshal_cursor p ≡ some text
        → enc.decode_cursor_json text ≡ some (p, false))
      → ((text : Bytes) → enc.base64_decode (enc.base64_encode text) ≡ some text)
      → (p : CursorPayload) (token : Bytes) → encode_ordered_cursor storage enc p ≡ ok token
      → length token ≤ max_ordered_cursor_bytes
      → decode_ordered_cursor_payload storage enc p.kind token ≡ ok p
  unfolding encode_ordered_cursor decode_ordered_cursor_payload decode_cursor_body check_kind
      format_uint format_digits
  decode-encode_ordered_cursor json base64 p token e short =
      elim (Option-cases (enc.marshal_cursor p)) [
        | inl m ↦ ground (arith, m)
        | inr (text, m) ↦
            let issued : token ≡ bytes "oi1." ++ enc.base64_encode text = ground (arith, e, m) in
            let whole : split_cursor_version token ≡ some (1, enc.base64_encode text) =
              rw issued (split-issued (enc.base64_encode text)) in
            ground (arith, whole, json p text, base64 text, bytes_eq_refl p.kind)
      ]

  -- A token that is split at another version is refused as an unknown version, whatever its body.
  pub decode_unknown_version :
      (kind token body : Bytes) (version : ℕ)
      → split_cursor_version token ≡ some (version, body)
      → length token ≤ max_ordered_cursor_bytes
      → version ≢ 1
      → decode_ordered_cursor_payload storage enc kind token
        ≡ err (invalid_cursor kind token unknown_version)
  unfolding decode_ordered_cursor_payload
  decode_unknown_version kind token body version h short other = ground (arith, h)

  -- A payload that is accepted for a kind carries that kind.
  pub decode_kind :
      (kind token : Bytes) (p : CursorPayload)
      → decode_ordered_cursor_payload storage enc kind token ≡ ok p
      → p.kind ≡ kind
  unfolding decode_ordered_cursor_payload decode_cursor_body check_kind
  decode_kind kind token p h = ground (arith, bytes_eq_iff p.kind kind)
