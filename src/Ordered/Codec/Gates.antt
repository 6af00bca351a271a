-- ===== src/Ordered/Codec/Gates.antt =====
-- Record payloads: a record that was encoded is decoded to itself under its own subject, and a decoded
-- record belongs on the subject that it was read from.
use natsstore.Base.{◌≡◌, true, false, some, arith, Option-cases, inl, inr}
use natsstore.Base.Bytes.{Bytes, bytes_eq_iff, bytes_eq_refl}
use natsstore.Base.Outcome.{ok, Result-cases}
use natsstore.Ordered.Record.{OrderedRecord}
use natsstore.Ordered.Libraries.{Storage, Encodings, OrderedPayload}
use natsstore.Ordered.Codec.{
  payload_of, record_of, ordered_record_subject, encode_ordered_record, admit_payload,
  decode_ordered_record,
}

module _ (storage : Storage) (enc : Encodings) where
  admit_payload_sound :
      (subject : Bytes) (p : OrderedPayload) (rec : OrderedRecord)
      → admit_payload storage enc subject p ≡ ok rec
      → (storage.validate_ordered_record rec ≡ true)
        × (ordered_record_subject storage enc rec.id ≡ ok subject)
  unfolding admit_payload
  admit_payload_sound subject p rec h =
      elim (Result-cases (ordered_record_subject storage enc (record_of p).id)) [
        | inl (want, e) ↦ ground (arith, e, bytes_eq_iff want subject)
        | inr (fault, e) ↦ ground (arith, e)
      ]

  -- A decoded record satisfies the storage contract, and the subject of its own identity is the one that
  -- it was read from.
  pub decode_ordered_record_sound :
      (subject text : Bytes) (rec : OrderedRecord)
      → decode_ordered_record storage enc subject text ≡ ok rec
      → (storage.validate_ordered_record rec ≡ true)
        × (ordered_record_subject storage enc rec.id ≡ ok subject)
  unfolding decode_ordered_record
  decode_ordered_record_sound subject text rec h =
      elim (Option-cases (enc.decode_record_json text)) [
        | inl e ↦ ground (arith, e)
        | inr ((p, more), e) ↦ ground (arith, e, admit_payload_sound subject p rec)
      ]

  -- With a JSON library that reads back what it wrote, a record that was encoded is decoded to itself
  -- under the subject of its identity.
  pub decode-encode_ordered_record :
      ((p : OrderedPayload) (text : Bytes)
        → enc.marshal_record p ≡ some text
        → enc.decode_record_json text ≡ some (p, false))
      → (rec : OrderedRecord) (subject text : Bytes)
      → ordered_record_subject storage enc rec.id ≡ ok subject
      → encode_ordered_record storage enc rec ≡ ok text
      → decode_ordered_record storage enc subject text ≡ ok rec
  unfolding encode_ordered_record decode_ordered_record admit_payload
  decode-encode_ordered_record json rec subject text s e =
      ground (arith, json (payload_of rec) text, bytes_eq_refl subject)
