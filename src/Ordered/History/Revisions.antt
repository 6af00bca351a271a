-- ===== src/Ordered/History/Revisions.antt =====
-- What every reader may rely on: a record that a subject holds keeps its identity, its order and its ranking
-- scope, and only newer revisions replace it.
use natsstore.Base.{ℕ, ◌≤◌, ◌≡◌, ◌≢◌, inl, inr, arith, false, some, refl, ◌∙◌}
use natsstore.Base.Bytes.{Bytes}
use natsstore.Base.Outcome.{ok}
use natsstore.Ordered.Record.{OrderedRecord}
use natsstore.Ordered.Libraries.{Storage, Encodings, OrderedPayload}
use natsstore.Ordered.Codec.{ordered_record_subject, encode_ordered_record}
use natsstore.Ordered.Codec.Gates.{decode_ordered_record_sound, decode-encode_ordered_record}
use natsstore.Ordered.History.{
  Log, Fenced, Holds, Step, creates, revises, Steps, start, later, revision_batch,
}
use natsstore.Ordered.History.Records.{
  subject-cases, counter-ne-record, created-heads, created-others, revised-heads, revised-others,
  Holds-kept, Holds-unique,
}

pub record Follows (old new : OrderedRecord) : Type 0 where
  pub same_id : new.id ≡ old.id
  pub same_order : new.order ≡ old.order
  pub same_scope : new.ranking_scope ≡ old.ranking_scope
  pub newer : old.revision ≤ new.revision
  pub settled : old.revision ≡ new.revision → new ≡ old

pub Follows-refl : (r : OrderedRecord) → Follows r r
Follows-refl r = record {
  same_id = refl;
  same_order = refl;
  same_scope = refl;
  newer = omega arith;
  settled = λ e. refl;
}

pub Follows-trans : (a b c : OrderedRecord) → Follows a b → Follows b c → Follows a c
Follows-trans a b c f g = record {
  same_id = g.same_id ∙ f.same_id;
  same_order = g.same_order ∙ f.same_order;
  same_scope = g.same_scope ∙ f.same_scope;
  newer = omega (arith, f.newer, g.newer);
  settled = λ e.
      g.settled (omega (arith, e, f.newer, g.newer))
      ∙ f.settled (omega (arith, e, f.newer, g.newer));
}

module _ (storage : Storage) (enc : Encodings) {W : Type 0} (log : Log W) (fenced : Fenced log)
    (json : (p : OrderedPayload) (text : Bytes)
      → enc.marshal_record p ≡ some text
      → enc.decode_record_json text ≡ some (p, false)) where
  -- What a revision leaves under its subject.
  pub revised-Holds :
      (v w : W) (subject : Bytes) (current next : OrderedRecord) (payload : Bytes)
      → Holds storage enc log v subject current
      → next.id ≡ current.id
      → encode_ordered_record storage enc next ≡ ok payload
      → log.Commits v (revision_batch subject (log.head v subject).0 payload) w
      → Holds storage enc log w subject next
  revised-Holds v w subject current next payload held id encoded c =
      let (present, text) =
        revised-heads storage enc log fenced v w subject (log.head v subject).0 payload c in
      let own : ordered_record_subject storage enc next.id ≡ ok subject =
        rw id
          (decode_ordered_record_sound storage enc subject (log.head v subject).1 current
            (held.decoded)).1 in
      record {
        present = present;
        decoded =
            rw text
              (decode-encode_ordered_record storage enc json next subject payload own encoded);
      }

  Step-Follows :
      {v w : W} (subject : Bytes) (rec : OrderedRecord)
      → Step storage enc log v w
      → Holds storage enc log v subject rec
      → (next : OrderedRecord) × Holds storage enc log w subject next × Follows rec next
  Step-Follows {v} {w} subject rec (creates at new last payload located _ _ _ _ _ c) held =
      let seq : ℕ = (log.head v at.counter_subject).0 in
      let (absent, _, _, _, _) = created-heads storage enc log fenced v w at seq new payload c in
      let not_counter : at.counter_subject ≢ subject =
        counter-ne-record storage enc new.id at rec subject (log.head v subject).1 located
          (held.decoded) in
      elim (subject-cases at.record_subject subject) [
        | inl same ↦ absurd (held.present (rw same at absent))
        | inr other ↦ (
          rec,
          Holds-kept storage enc log fenced v w subject rec
              (created-others storage enc log fenced v w at seq new payload subject c not_counter
                other)
              held,
          Follows-refl rec,
        )
      ]
  Step-Follows {v} {w} subject rec
        (revises at current next payload before id order scope revision encoded c) held =
      let seq : ℕ = (log.head v at).0 in
      elim (subject-cases at subject) [
        | inr other ↦ (
          rec,
          Holds-kept storage enc log fenced v w subject rec
              (revised-others storage enc log fenced v w at seq payload subject c other) held,
          Follows-refl rec,
        )
        | inl same ↦
            let here : Holds storage enc log v subject current = rw same at before in
            let read : current ≡ rec =
              Holds-unique storage enc log fenced v subject current rec here held in
            let after : Holds storage enc log w subject next =
              rw same at (revised-Holds v w at current next payload before id encoded c) in
            let follows : Follows current next = record {
              same_id = id;
              same_order = order;
              same_scope = scope;
              newer = omega (arith, revision);
              settled = λ e. absurd (omega (arith, e, revision));
            } in
            (next, after, rw read at follows)
      ]

  -- A record that a subject holds is replaced only by newer revisions with its identity, order and ranking
  -- scope, whatever Creates, Updates and Deletes commit meanwhile; with the same revision it is unchanged.
  pub Steps-Follows :
      {v w : W} (subject : Bytes) (rec : OrderedRecord)
      → Steps storage enc log v w
      → Holds storage enc log v subject rec
      → (next : OrderedRecord) × Holds storage enc log w subject next × Follows rec next
  Steps-Follows subject rec start held = (rec, held, Follows-refl rec)
  Steps-Follows subject rec (later before step) held =
      let (mid, here, follows) = Steps-Follows subject rec before held in
      let (next, there, more) = Step-Follows subject mid step here in
      (next, there, Follows-trans rec mid next follows more)
