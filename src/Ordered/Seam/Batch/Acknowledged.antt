-- ===== src/Ordered/Seam/Batch/Acknowledged.antt =====
-- What the answers of publishBatch (ordered_seam.go) mean: success is an acknowledgement of the whole batch,
-- and what a definite failure can come from.
use natsstore.Base.{
  ℕ, ◌+◌, ◌%◌, true, false, none, some, List, [], ◌∷◌, ◌≡◌, ◌≢◌, ◌⊎◌, refl, arith, Bool-cases,
  Option-cases, inl, inr, All, length, sym, ◌∙◌,
}
use natsstore.Base.Bytes.{Bytes, bytes_eq_iff}
use natsstore.Base.Outcome.{Result, ok, err, Result-cases}
use natsstore.Ordered.Errors.{
  commit_op, ack_decode_op, OrderedError, batch_rejected, batch_subjects, stream_op, member_op,
  precondition,
}
use natsstore.Ordered.Codec.{max_uint64}
use natsstore.Ordered.Store.{OrderedMsg, NoValue}
use natsstore.Ordered.Seam.Config.{Constants}
use natsstore.Ordered.Seam.Client.{
  ClientError, BatchAck, ApiError, WireMsg, JetStream, SeamState, is_ordered_ambiguous,
}
use natsstore.Ordered.Seam.Batch.{
  member, repeated_subject, wire_msg, batch_id_of, next_batch_id, classify_ordered_batch_ack,
  settle_ack, settle_commit, send_batch, publish_batch,
}

-- No two members of a batch name one subject.
abbrev pub Distinct : List OrderedMsg → Type 0
Distinct [] = Unit
Distinct (m ∷ msgs) = All (λ n. n.subject ≢ m.subject) msgs × Distinct msgs

abbrev Unseen : List Bytes → List OrderedMsg → Type 0
Unseen seen msgs = All (λ m. member m.subject seen ≡ false) msgs

Unseen-ne :
    (subject : Bytes) (seen : List Bytes) (msgs : List OrderedMsg)
    → Unseen (subject ∷ seen) msgs
    → All (λ n. n.subject ≢ subject) msgs × Unseen seen msgs
Unseen-ne subject seen [] h = (tt, tt)
Unseen-ne subject seen (m ∷ msgs) (h, rest) =
    let (differ, unseen) = Unseen-ne subject seen msgs rest in
    let here : m.subject ≢ subject = ground (arith, h, bytes_eq_iff subject m.subject) in
    let fresh : member m.subject seen ≡ false = ground (arith, h) in
    ((here, differ), (fresh, unseen))

pub repeated_subject-Distinct :
    (seen : List Bytes) (msgs : List OrderedMsg)
    → repeated_subject seen msgs ≡ none
    → Unseen seen msgs × Distinct msgs
repeated_subject-Distinct seen [] h = (tt, tt)
repeated_subject-Distinct seen (m ∷ msgs) h = elim (Bool-cases (member m.subject seen)) [
  | inl e ↦ cc (rw e at h)
  | inr e ↦
      let (unseen, distinct) = repeated_subject-Distinct (m.subject ∷ seen) msgs (rw e at h) in
      let (differ, rest) = Unseen-ne m.subject seen msgs unseen in ((e, rest), (differ, distinct))
]

module _ (constants : Constants) {W H : Type 0} (js : JetStream W H) where
  -- How a batch ends: refused before anything was sent, stopped at a member that could not be sent, or
  -- by the answer to the request with the commit header.
  data Ends (name : Bytes) (msgs : List OrderedMsg) (result : Result OrderedError NoValue)
      : Type 0 where
    empty_batch : msgs ≡ [] → result ≡ err (batch_rejected [] 0) → Ends name msgs result
    repeats : (subject : Bytes) → result ≡ err (batch_subjects subject) → Ends name msgs result
    unsent : result ≡ err (stream_op name member_op) → Ends name msgs result
    requested :
        (id : Bytes) (wire : WireMsg) (w : W)
        → wire.commit ≡ true
        → Distinct msgs
        → result ≡ settle_commit constants js name id (length msgs) (js.request_msg wire w).0
        → Ends name msgs result

  send_batch-Ends :
      (name id : Bytes) (all : List OrderedMsg) (position : ℕ) (m : OrderedMsg)
      (msgs : List OrderedMsg) (s : SeamState W H)
      → Distinct all
      → Ends name all (send_batch constants js name id (length all) position (m ∷ msgs) s).0
  unfolding send_batch
  send_batch-Ends name id all position m [] s distinct =
      requested id (wire_msg id position true m) s.world refl distinct refl
  send_batch-Ends name id all position m (n ∷ msgs) s distinct =
      elim (Result-cases (js.send_msg (wire_msg id position false m) s.world).0) [
        | inl (u, e) ↦
            rw (send_batch, e)
              (send_batch-Ends name id all (position + 1) n msgs
                (record s { world = (js.send_msg (wire_msg id position false m) s.world).1 })
                distinct)
        | inr (x, e) ↦ rw (send_batch, e) (unsent refl)
      ]

  publish_batch-Ends :
      (name : Bytes) (msgs : List OrderedMsg) (s : SeamState W H)
      → Ends name msgs (publish_batch constants js name msgs s).0
  unfolding publish_batch
  publish_batch-Ends name [] s = empty_batch refl refl
  publish_batch-Ends name (m ∷ msgs) s =
      let id : Bytes = batch_id_of s.batch_nonce ((s.batch_id + 1) % (max_uint64 + 1)) in
      elim (Option-cases (repeated_subject [] (m ∷ msgs))) [
        | inr (subject, e) ↦ rw (publish_batch, e) (repeats subject refl)
        | inl e ↦
            rw (publish_batch, e)
              (send_batch-Ends name id (m ∷ msgs) 1 m msgs (next_batch_id s).1
                (repeated_subject-Distinct [] (m ∷ msgs) e).1)
      ]

  -- The reply to a request is an acknowledgement, and it has the property.
  pub record Replied (P : BatchAck → Type 0) : Type 0 where
    pub wire : WireMsg
    pub committing : wire.commit ≡ true
    pub asked_in : W
    pub reply : Bytes
    pub answered : (js.request_msg wire asked_in).0 ≡ ok reply
    pub ack : BatchAck
    pub decoded : js.decode_ack reply ≡ some ack
    pub holds : P ack

  classify-ok :
      (id : Bytes) (sent : ℕ) (ack : BatchAck)
      → classify_ordered_batch_ack constants id sent ack ≡ ok tt
      → (ack.error ≡ none) × (ack.batch_size ≡ sent)
  unfolding classify_ordered_batch_ack
  classify-ok id sent ack h = ground (arith, h)

  -- What a definite failure can come from: nothing was asked to commit, or the request with the commit header
  -- failed, was answered by something that is no acknowledgement, or by an acknowledgement with an error.
  pub data Definite (name : Bytes) (e : OrderedError) : Type 0 where
    no_members : e ≡ batch_rejected [] 0 → Definite name e
    one_subject : (subject : Bytes) → e ≡ batch_subjects subject → Definite name e
    member_unsent : e ≡ stream_op name member_op → Definite name e
    request_failed :
        (wire : WireMsg) (w : W) (x : ClientError)
        → wire.commit ≡ true
        → (js.request_msg wire w).0 ≡ err x
        → is_ordered_ambiguous x ≡ false
        → e ≡ stream_op name commit_op
        → Definite name e
    undecodable :
        (wire : WireMsg) (w : W) (reply : Bytes)
        → wire.commit ≡ true
        → (js.request_msg wire w).0 ≡ ok reply
        → js.decode_ack reply ≡ none
        → e ≡ stream_op name ack_decode_op
        → Definite name e
    refused :
        (wire : WireMsg) (w : W) (id reply : Bytes) (ack : BatchAck) (x : ApiError)
        → wire.commit ≡ true
        → (js.request_msg wire w).0 ≡ ok reply
        → js.decode_ack reply ≡ some ack
        → ack.error ≡ some x
        → (e ≡ precondition) ⊎ (e ≡ batch_rejected id x.err_code)
        → Definite name e

  settle_commit-ok :
      (name id : Bytes) (sent : ℕ) (r : Result ClientError Bytes)
      → settle_commit constants js name id sent r ≡ ok tt
      → (reply : Bytes) × (ack : BatchAck) × (r ≡ ok reply)
        × (js.decode_ack reply ≡ some ack)
        × (ack.error ≡ none)
        × (ack.batch_size ≡ sent)
  settle_commit-ok name id sent (err e) h = elim (Bool-cases (is_ordered_ambiguous e)) [
    | inl a ↦ cc (rw a at h)
    | inr a ↦ cc (rw a at h)
  ]
  settle_commit-ok name id sent (ok reply) h = elim (Option-cases (js.decode_ack reply)) [
    | inl e ↦ cc (rw (settle_ack, e) at h)
    | inr (ack, e) ↦
        let (no_error, whole) = classify-ok id sent ack (rw (settle_ack, e) at h) in
        (reply, ack, refl, e, no_error, whole)
  ]

  -- A batch succeeds only if no two members name one subject and the request with the commit header was
  -- answered by an acknowledgement with no error that counts all of its members.
  pub publish_batch-ok :
      (name : Bytes) (msgs : List OrderedMsg) (s : SeamState W H)
      → (publish_batch constants js name msgs s).0 ≡ ok tt
      → Distinct msgs × Replied (λ ack. (ack.error ≡ none) × (ack.batch_size ≡ length msgs))
  publish_batch-ok name msgs s h = elim (publish_batch-Ends name msgs s) [
    | empty_batch nil e ↦ cc
    | repeats subject e ↦ cc
    | unsent e ↦ cc
    | requested id wire w commit distinct e ↦
        let (reply, ack, answered, decoded, no_error, whole) =
          settle_commit-ok name id (length msgs) (js.request_msg wire w).0 (sym e ∙ h) in
        (
          distinct,
          record {
            wire = wire;
            committing = commit;
            asked_in = w;
            reply = reply;
            answered = answered;
            ack = ack;
            decoded = decoded;
            holds = (no_error, whole);
          },
        )
  ]
