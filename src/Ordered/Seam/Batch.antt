-- ===== src/Ordered/Seam/Batch.antt =====
-- publish, publishBatch, classifyOrderedBatchAck and nextBatchID (ordered_seam.go).
pub mod Acknowledged
use natsstore.Base.{
  ℕ, ◌+◌, ◌%◌, Bool, true, false, not, Option, none, some, List, [], ◌∷◌, ◌++◌, ◌==◌, ◌||◌, length,
  if◌then◌else◌,
}
use natsstore.Base.Bytes.{Bytes, bytes, bytes_eq}
use natsstore.Base.Decimal.{format_uint}
use natsstore.Base.Outcome.{Result, ok, err, Op, pure, fail, lift, ◌>>=◌, ◌>>◌}
use natsstore.Ordered.Errors.{
  OrderedError, precondition, lost_ack, ack_mismatch, batch_rejected, batch_subjects, stream_op,
  publish_op, member_op, commit_op, ack_decode_op,
}
use natsstore.Ordered.Codec.{max_uint64}
use natsstore.Ordered.Store.{OrderedMsg, NoValue}
use natsstore.Ordered.Seam.Config.{Constants}
use natsstore.Ordered.Seam.Client.{
  ClientError, BatchAck, WireMsg, JetStream, SeamState, calling, is_ordered_wrong_last_seq_code,
  is_ordered_wrong_last_seq, is_ordered_ambiguous,
}

-- Whether a subject was seen, and the first one of a batch that was.
abbrev pub member : Bytes → List Bytes → Bool
member subject [] = false
member subject (s ∷ seen) = bytes_eq s subject || member subject seen

abbrev pub repeated_subject : List Bytes → List OrderedMsg → Option Bytes
repeated_subject seen [] = none
repeated_subject seen (m ∷ msgs) =
    let rest = repeated_subject (m.subject ∷ seen) msgs in
    if member m.subject seen then some m.subject else rest

abbrev pub ordered_batch_id_prefix : Bytes
ordered_batch_id_prefix = bytes "ns-"

abbrev pub batch_id_of : Bytes → ℕ → Bytes
batch_id_of nonce count = ordered_batch_id_prefix ++ (nonce ++ (bytes "-" ++ format_uint count))

-- The member at a position, counted from one.
abbrev pub wire_msg : Bytes → ℕ → Bool → OrderedMsg → WireMsg
wire_msg id position commit m = record {
  subject = m.subject;
  payload = m.payload;
  batch_id = id;
  batch_seq = format_uint position;
  expected_last_seq = format_uint m.expect_last_seq;
  commit = commit;
}

module _ {W H : Type 0} where
  -- The counter is an atomic uint64.
  abbrev pub next_batch_id : Op (SeamState W H) OrderedError Bytes
  next_batch_id s =
      let count = (s.batch_id + 1) % (max_uint64 + 1) in
      (ok (batch_id_of s.batch_nonce count), record s { batch_id = count })

module _ (constants : Constants) where
  unfoldable pub classify_ordered_batch_ack : Bytes → ℕ → BatchAck → Result OrderedError NoValue
  classify_ordered_batch_ack id sent ack = elim ack.error [
    | some e ↦
        if is_ordered_wrong_last_seq_code constants e.err_code
        then err precondition
        else err (batch_rejected id e.err_code)
    | none ↦
        if not (ack.batch_size == sent) then err (ack_mismatch id ack.batch_size sent) else ok tt
  ]

  abbrev pub publish_fault : Bytes → ClientError → OrderedError
  publish_fault name e =
      if is_ordered_wrong_last_seq constants e
      then precondition
      else if is_ordered_ambiguous e
      then lost_ack
      else stream_op name publish_op

  module _ {W H : Type 0} (js : JetStream W H) where
    abbrev pub settle_ack : Bytes → Bytes → ℕ → Bytes → Result OrderedError NoValue
    settle_ack name id sent reply = elim (js.decode_ack reply) [
      | none ↦ err (stream_op name ack_decode_op)
      | some ack ↦ classify_ordered_batch_ack id sent ack
    ]

    -- The answer to the request that carries the commit header.
    abbrev pub settle_commit :
        Bytes → Bytes → ℕ → Result ClientError Bytes → Result OrderedError NoValue
    settle_commit name id sent (ok reply) = settle_ack name id sent reply
    settle_commit name id sent (err e) =
        if is_ordered_ambiguous e then err lost_ack else err (stream_op name commit_op)

    abbrev pub commit_batch : Bytes → Bytes → ℕ → WireMsg → Op (SeamState W H) OrderedError NoValue
    commit_batch name id sent wire s =
        let (r, w) = js.request_msg wire s.world in
        (settle_commit name id sent r, record s { world = w })

    -- All members but the last are sent; the last is the request.
    unfoldable pub send_batch :
        Bytes → Bytes → ℕ → ℕ → List OrderedMsg → Op (SeamState W H) OrderedError NoValue
    unfolding classify_ordered_batch_ack
    send_batch name id sent position [] = pure tt
    send_batch name id sent position (m ∷ []) =
        commit_batch name id sent (wire_msg id position true m)
    send_batch name id sent position (m ∷ n ∷ msgs) =
        calling name member_op (js.send_msg (wire_msg id position false m))
        >> send_batch name id sent (position + 1) (n ∷ msgs)

    unfoldable pub publish_batch : Bytes → List OrderedMsg → Op (SeamState W H) OrderedError NoValue
    unfolding send_batch
    publish_batch name [] = fail (batch_rejected [] 0)
    publish_batch name (m ∷ msgs) = elim (repeated_subject [] (m ∷ msgs)) [
      | some subject ↦ fail (batch_subjects subject)
      | none ↦ next_batch_id >>= λ id. send_batch name id (length (m ∷ msgs)) 1 (m ∷ msgs)
    ]

    abbrev pub settle_publish_msg : Bytes → Result ClientError NoValue → Result OrderedError NoValue
    settle_publish_msg name (ok _) = ok tt
    settle_publish_msg name (err e) = err (publish_fault name e)

    unfoldable pub publish : Bytes → OrderedMsg → Op (SeamState W H) OrderedError NoValue
    publish name m s =
        let (r, w) = js.publish_msg m s.world in (settle_publish_msg name r, record s { world = w })
