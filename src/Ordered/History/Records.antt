-- ===== src/Ordered/History/Records.antt =====
-- What one commit does to the records of the subjects: it creates one, revises one, or leaves it.
use natsstore.Base.{ℕ, ◌≡◌, ◌≢◌, ◌⊎◌, inl, inr, arith, Bool-cases, ◌∙◌, ap}
use natsstore.Base.Bytes.{Bytes, bytes_eq, bytes_eq_iff}
use natsstore.Base.Outcome.{ok, then_try, Result-cases}
use natsstore.Ordered.Record.{OrderedRecord, OrderedId}
use natsstore.Ordered.Libraries.{Storage, Encodings}
use natsstore.Ordered.Codec.{
  decode_ordered_record, ordered_record_subject, ordered_counter_subject, ordered_stream_name,
  ordered_subject_filter, encode_ordered_counter,
}
use natsstore.Ordered.Codec.Gates.{decode_ordered_record_sound}
use natsstore.Ordered.Codec.Families.{counter-ne-record_subject}
use natsstore.Ordered.Store.{Location, create_batch, ordered_location}
use natsstore.Ordered.History.{Log, Fenced, Holds, revision_batch}

pub subject-cases : (a b : Bytes) → (a ≡ b) ⊎ (a ≢ b)
subject-cases a b = elim (Bool-cases (bytes_eq a b)) [
  | inl e ↦ inl (ground (arith, e, bytes_eq_iff a b))
  | inr e ↦ inr (ground (arith, e, bytes_eq_iff a b))
]

module _ (storage : Storage) (enc : Encodings) where
  -- The two subjects of a location are those of its identity.
  pub location-subjects :
      (id : OrderedId) (at : Location)
      → ordered_location storage enc id ≡ ok at
      → (ordered_counter_subject storage id.namespace id.ordering_scope ≡ ok at.counter_subject)
        × (ordered_record_subject storage enc id ≡ ok at.record_subject)
  unfolding ordered_location
  location-subjects id at h = elim (Bool-cases (storage.validate_ordered_id id)) [
    | inr e ↦ cc (rw e at h)
    | inl e ↦ elim (Result-cases (ordered_stream_name storage id.namespace)) [
      | inr (x, f) ↦ cc (rw (e, f) at h)
      | inl (stream, f) ↦ elim (Result-cases (ordered_subject_filter storage id.namespace)) [
        | inr (x, g) ↦ cc (rw (e, f, g) at h)
        | inl (filter, g) ↦
            elim (Result-cases (ordered_counter_subject storage id.namespace id.ordering_scope)) [
              | inr (x, k) ↦ cc (rw (e, f, g, k) at h)
              | inl (counter, k) ↦ elim (Result-cases (ordered_record_subject storage enc id)) [
                | inr (x, l) ↦ cc (rw (e, f, g, k, l) at h)
                | inl (subject, l) ↦
                    let same = rw (e, f, g, k, l) at h in
                    (
                      k ∙ ap (λ r. then_try r (λ a. ok (a.counter_subject))) same,
                      l ∙ ap (λ r. then_try r (λ a. ok (a.record_subject))) same,
                    )
              ]
            ]
      ]
    ]
  ]

  pub counter-ne-record :
      (id : OrderedId) (at : Location) (other : OrderedRecord) (subject text : Bytes)
      → ordered_location storage enc id ≡ ok at
      → decode_ordered_record storage enc subject text ≡ ok other
      → at.counter_subject ≢ subject
  counter-ne-record id at other subject text located decoded =
      counter-ne-record_subject storage enc id.namespace id.ordering_scope other.id
        at.counter_subject subject (location-subjects id at located).0
        (decode_ordered_record_sound storage enc subject text other decoded).1

module _ (storage : Storage) (enc : Encodings) {W : Type 0} (log : Log W)
    (fenced : Fenced log) where
  -- The heads of the two subjects after a create, and that its record was absent.
  pub created-heads :
      (v w : W) (at : Location) (seq : ℕ) (rec : OrderedRecord) (payload : Bytes)
      → log.Commits v (create_batch at seq rec payload) w
      → ((log.head v at.record_subject).0 ≡ 0)
        × ((log.head w at.record_subject).0 ≢ 0)
        × ((log.head w at.record_subject).1 ≡ payload)
        × ((log.head w at.counter_subject).0 ≢ 0)
        × ((log.head w at.counter_subject).1 ≡ encode_ordered_counter rec.order)
  created-heads v w at seq rec payload c =
      let (_, (absent, _)) = fenced.expected v w (create_batch at seq rec payload) c in
      let ((counter, counts), ((text, rises), _)) =
        fenced.stored v w (create_batch at seq rec payload) c in
      (absent, (λ z. omega (arith, z, rises)), text, (λ z. omega (arith, z, counts)), counter)

  pub revised-heads :
      (v w : W) (subject : Bytes) (seq : ℕ) (payload : Bytes)
      → log.Commits v (revision_batch subject seq payload) w
      → ((log.head w subject).0 ≢ 0) × ((log.head w subject).1 ≡ payload)
  revised-heads v w subject seq payload c =
      let ((text, rises), _) = fenced.stored v w (revision_batch subject seq payload) c in
      ((λ z. omega (arith, z, rises)), text)

  pub created-others :
      (v w : W) (at : Location) (seq : ℕ) (rec : OrderedRecord) (payload subject : Bytes)
      → log.Commits v (create_batch at seq rec payload) w
      → at.counter_subject ≢ subject
      → at.record_subject ≢ subject
      → log.head w subject ≡ log.head v subject
  created-others v w at seq rec payload subject c a b =
      fenced.others_kept v w (create_batch at seq rec payload) subject c (a, (b, tt))

  pub revised-others :
      (v w : W) (at : Bytes) (seq : ℕ) (payload subject : Bytes)
      → log.Commits v (revision_batch at seq payload) w
      → at ≢ subject
      → log.head w subject ≡ log.head v subject
  revised-others v w at seq payload subject c a =
      fenced.others_kept v w (revision_batch at seq payload) subject c (a, tt)

  pub Holds-kept :
      (v w : W) (subject : Bytes) (rec : OrderedRecord)
      → log.head w subject ≡ log.head v subject
      → Holds storage enc log v subject rec
      → Holds storage enc log w subject rec
  Holds-kept v w subject rec same h = record {
    present = rw same (h.present);
    decoded = rw same (h.decoded);
  }

  pub Holds-unique :
      (w : W) (subject : Bytes) (a b : OrderedRecord)
      → Holds storage enc log w subject a
      → Holds storage enc log w subject b
      → a ≡ b
  Holds-unique w subject a b h k = let p = h.decoded in let q = k.decoded in cc (p, q)
