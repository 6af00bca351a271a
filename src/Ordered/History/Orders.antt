-- ===== src/Ordered/History/Orders.antt =====
-- The orders of a scope: its counter is never below one of them, and no two subjects hold the same one.
use natsstore.Base.{
  ℕ, ◌+◌, ◌≤◌, ◌≡◌, ◌≢◌, ◌⊎◌, inl, inr, arith, false, some, refl, sym, Bool-cases, ◌==◌,
}
use natsstore.Base.Bytes.{Bytes}
use natsstore.Base.Outcome.{ok}
use natsstore.Ordered.Record.{OrderedRecord, OrderedId}
use natsstore.Ordered.Libraries.{Storage, Encodings, OrderedPayload}
use natsstore.Ordered.Codec.{max_uint64, encode_ordered_record, decode_ordered_counter}
use natsstore.Ordered.Codec.Counter.{decode-encode_ordered_counter}
use natsstore.Ordered.Codec.Families.{counter-ne-record_subject}
use natsstore.Ordered.Codec.Gates.{decode-encode_ordered_record}
use natsstore.Ordered.Store.{Location, ordered_location, last_order_of, create_batch}
use natsstore.Ordered.Store.Allocated.{last_order_of-le}
use natsstore.Ordered.History.{Log, Fenced, Holds, Step, creates, revises, revision_batch}
use natsstore.Ordered.History.Records.{
  subject-cases, location-subjects, counter-ne-record, created-heads, created-others,
  revised-others, Holds-kept, Holds-unique,
}
use natsstore.Ordered.History.Revisions.{revised-Holds}

pub last_order_of-present :
    (seq : ℕ) (text : Bytes) (last : ℕ)
    → seq ≢ 0
    → last_order_of (seq, text) ≡ ok last
    → decode_ordered_counter text ≡ ok last
last_order_of-present seq text last present h = elim (Bool-cases (seq == 0)) [
  | inl e ↦ absurd (present (ground (arith, e)))
  | inr e ↦ rw e at h
]

module _ (storage : Storage) (enc : Encodings) {W : Type 0} (log : Log W) (fenced : Fenced log)
    (json : (p : OrderedPayload) (text : Bytes)
      → enc.marshal_record p ≡ some text
      → enc.decode_record_json text ≡ some (p, false)) where
  -- The counter under a subject is at least this.
  pub record Reached (w : W) (counter : Bytes) (order : ℕ) : Type 0 where
    pub present : (log.head w counter).0 ≢ 0
    pub last : ℕ
    pub decoded : decode_ordered_counter (log.head w counter).1 ≡ ok last
    pub bound : order ≤ last

  pub created-Reached :
      (v w : W) (at : Location) (rec : OrderedRecord) (last seq : ℕ) (payload : Bytes)
      → last_order_of (log.head v at.counter_subject) ≡ ok last
      → last ≢ max_uint64
      → rec.order ≡ last + 1
      → log.Commits v (create_batch at seq rec payload) w
      → Reached w at.counter_subject rec.order
  created-Reached v w at rec last seq payload read below order c =
      let (_, _, _, present, text) =
        created-heads storage enc log fenced v w at seq rec payload c in
      let le : last ≤ max_uint64 =
        last_order_of-le (log.head v at.counter_subject).0 (log.head v at.counter_subject).1 last
          read in
      record {
        present = present;
        last = rec.order;
        decoded = rw text (
            decode-encode_ordered_counter rec.order (omega (arith, order))
              (omega (arith, order, le, below)));
        bound = omega arith;
      }

  pub Step-Reached :
      {v w : W} (id : OrderedId) (here : Location) (order : ℕ)
      → ordered_location storage enc id ≡ ok here
      → Step storage enc log v w
      → Reached v here.counter_subject order
      → Reached w here.counter_subject order
  Step-Reached {v} {w} id here order located
        (creates at rec last payload where_at read below next _ _ c) old =
      let seq : ℕ = (log.head v at.counter_subject).0 in
      let subjects = location-subjects storage enc id here located in
      let apart : here.counter_subject ≢ at.record_subject =
        counter-ne-record_subject storage enc id.namespace id.ordering_scope rec.id
          here.counter_subject at.record_subject subjects.0
          (location-subjects storage enc rec.id at where_at).1 in
      elim (subject-cases at.counter_subject here.counter_subject) [
        | inl same ↦
            let new : Reached w here.counter_subject rec.order =
              rw same at (created-Reached v w at rec last seq payload read below next c) in
            let again : decode_ordered_counter (log.head v here.counter_subject).1 ≡ ok last =
              last_order_of-present (log.head v here.counter_subject).0
                (log.head v here.counter_subject).1 last (old.present) (rw same at read) in
            let prior = old.decoded in
            let counted : old.last ≡ last = cc (prior, again) in
            record {
              present = new.present;
              last = new.last;
              decoded = new.decoded;
              bound = omega (arith, old.bound, counted, next, new.bound);
            }
        | inr other ↦
            let kept =
              created-others storage enc log fenced v w at seq rec payload here.counter_subject c
                other (λ e. apart (sym e)) in
            record {
              present = rw kept (old.present);
              last = old.last;
              decoded = rw kept (old.decoded);
              bound = old.bound;
            }
      ]
  Step-Reached {v} {w} id here order located
        (revises subject current next payload before _ _ _ _ _ c) old =
      let apart : here.counter_subject ≢ subject =
        counter-ne-record storage enc id here current subject (log.head v subject).1 located
          (before.decoded) in
      let kept =
        revised-others storage enc log fenced v w subject (log.head v subject).0 payload
          here.counter_subject c (λ e. apart (sym e)) in
      record {
        present = rw kept (old.present);
        last = old.last;
        decoded = rw kept (old.decoded);
        bound = old.bound;
      }

  pub created-Holds :
      (v w : W) (at : Location) (rec : OrderedRecord) (seq : ℕ) (payload : Bytes)
      → ordered_location storage enc rec.id ≡ ok at
      → encode_ordered_record storage enc rec ≡ ok payload
      → log.Commits v (create_batch at seq rec payload) w
      → Holds storage enc log w at.record_subject rec
  created-Holds v w at rec seq payload located encoded c =
      let (_, present, text, _, _) =
        created-heads storage enc log fenced v w at seq rec payload c in
      record {
        present = present;
        decoded = rw text (
            decode-encode_ordered_record storage enc json rec at.record_subject payload
              (location-subjects storage enc rec.id at located).1 encoded);
      }

  -- After a create a subject holds the new record, or what it held before.
  pub created-origin :
      (v w : W) (at : Location) (new : OrderedRecord) (seq : ℕ) (payload subject : Bytes)
      (rec : OrderedRecord)
      → ordered_location storage enc new.id ≡ ok at
      → encode_ordered_record storage enc new ≡ ok payload
      → log.Commits v (create_batch at seq new payload) w
      → Holds storage enc log w subject rec
      → Holds storage enc log v subject rec ⊎ ((at.record_subject ≡ subject) × (new ≡ rec))
  created-origin v w at new seq payload subject rec located encoded c held =
      let not_counter : at.counter_subject ≢ subject =
        counter-ne-record storage enc new.id at rec subject (log.head w subject).1 located
          (held.decoded) in
      elim (subject-cases at.record_subject subject) [
        | inl same ↦
            let fresh : Holds storage enc log w subject new =
              rw same at (created-Holds v w at new seq payload located encoded c) in
            inr (same, Holds-unique storage enc log fenced w subject new rec fresh held)
        | inr other ↦ inl (
            Holds-kept storage enc log fenced w v subject rec
              (sym (
                created-others storage enc log fenced v w at seq new payload subject c not_counter
                  other))
              held)
      ]

  -- After a revision a subject holds a record with the identity and the order of what it held before.
  pub revised-origin :
      (v w : W) (at : Bytes) (current next : OrderedRecord) (payload subject : Bytes)
      (rec : OrderedRecord)
      → Holds storage enc log v at current
      → next.id ≡ current.id
      → next.order ≡ current.order
      → encode_ordered_record storage enc next ≡ ok payload
      → log.Commits v (revision_batch at (log.head v at).0 payload) w
      → Holds storage enc log w subject rec
      → (old : OrderedRecord) × Holds storage enc log v subject old
        × (rec.id ≡ old.id)
        × (rec.order ≡ old.order)
  revised-origin v w at current next payload subject rec before id order encoded c held =
      elim (subject-cases at subject) [
        | inl same ↦
            let new : Holds storage enc log w subject next = rw same at (
              revised-Holds storage enc log fenced json v w at current next payload before id
                encoded c) in
            let e : next ≡ rec = Holds-unique storage enc log fenced w subject next rec new held in
            (current, rw same at before, rw e at id, rw e at order)
        | inr other ↦ (
          rec,
          Holds-kept storage enc log fenced w v subject rec
              (sym (
                revised-others storage enc log fenced v w at (log.head v at).0 payload subject c
                  other))
              held,
          refl,
          refl,
        )
      ]
