-- ===== src/Ordered/Store/Revised.antt =====
-- What Update and Delete return: the next revision of the record that they read.
use natsstore.Base.{ℕ, ◌≡◌, refl, true, none, some, Bool-cases, inl, inr, ◌∙◌, ap, sym, ◌⊎◌}
use natsstore.Base.Bytes.{Bytes}
use natsstore.Base.Outcome.{ok, err, lift, Result-cases}
use natsstore.Base.Runs.{bind-eq-ok}
use natsstore.Ordered.Record.{OrderedRecord, OrderedId, ordered_record_equal}
use natsstore.Ordered.Errors.{
  OrderedError, OrderedOperation, create_operation, update_operation, delete_operation,
  is_precondition, is_ambiguous,
}
use natsstore.Ordered.Libraries.{Storage, Encodings}
use natsstore.Ordered.Codec.{encode_ordered_record}
use natsstore.Ordered.Store.{
  OrderedSeam, OrderedStore, OrderedStreamSpec, Found, read_record, settle_conflict,
  settle_revision, settle_publish, publish_payload, commit_revision,
}
use natsstore.Ordered.Store.Allocated.{ordered_record_equal-eq, encode-valid}

module _ (storage : Storage) (enc : Encodings) {W : Type 0} (seam : OrderedSeam W) where
  -- A tombstone that beat a write: the fence of the write was lost, and the tombstone was read right after it.
  abbrev pub Beaten :
      OrderedStreamSpec → Bytes → ℕ → OrderedRecord → OrderedStore W → OrderedRecord → Type 0
  Beaten spec subject expect next s r =
      (payload : Bytes) × ((encode_ordered_record storage enc next ≡ ok payload)
        × (let (outcome, w) =
              seam.publish spec.stream
                (record { subject = subject; payload = payload; expect_last_seq = expect })
                s.world in
            (e : OrderedError) × ((outcome ≡ err e)
              × ((is_precondition e ≡ true)
                  × ((seq : ℕ) × (((read_record storage enc seam spec subject
                            (record s { world = w })).0
                          ≡ ok (some (r, seq)))
                        × (r.deleted ≡ true)))))))

  -- How a commit succeeds: with the record that it wrote, or a Delete with the tombstone that beat it.
  abbrev pub Committed :
      OrderedStreamSpec
      → Bytes
      → ℕ
      → OrderedRecord
      → OrderedOperation
      → OrderedStore W
      → OrderedRecord
      → Type 0
  Committed spec subject expect next op s r =
      ((r ≡ next) × (storage.validate_ordered_record r ≡ true))
      ⊎ ((op ≡ delete_operation) × Beaten spec subject expect next s r)

  settle_conflict-ok :
      (id : OrderedId) (expected : ℕ) (op : OrderedOperation) (found : Found) (r : OrderedRecord)
      → settle_conflict id expected op found ≡ ok r
      → (op ≡ delete_operation) × ((seq : ℕ) × ((found ≡ some (r, seq)) × (r.deleted ≡ true)))
  settle_conflict-ok id expected op none r h = cc h
  settle_conflict-ok id expected create_operation (some (current, seq)) r h =
      elim (Bool-cases current.deleted) [ inl e ↦ cc (rw e at h) | inr e ↦ cc (rw e at h) ]
  settle_conflict-ok id expected update_operation (some (current, seq)) r h =
      elim (Bool-cases current.deleted) [ inl e ↦ cc (rw e at h) | inr e ↦ cc (rw e at h) ]
  settle_conflict-ok id expected delete_operation (some (current, seq)) r h =
      elim (Bool-cases current.deleted) [
        | inl e ↦
            let p : current ≡ r = cc (rw e at h) in
            (refl, (seq, (ap (λ x. some (x, seq)) p, ap (λ x. x.deleted) (sym p) ∙ e)))
        | inr e ↦ cc (rw e at h)
      ]

  settle_revision-eq :
      (op : OrderedOperation) (next : OrderedRecord) (found : Found) (r : OrderedRecord)
      → settle_revision op next found ≡ ok r
      → r ≡ next
  settle_revision-eq op next none r h = cc h
  settle_revision-eq op next (some (current, seq)) r h =
      elim (Bool-cases (ordered_record_equal current next)) [
        | inl e ↦
            let p : current ≡ r = cc (rw e at h) in sym p ∙ ordered_record_equal-eq current next e
        | inr e ↦ cc (rw e at h)
      ]

  module _ (spec : OrderedStreamSpec) (subject : Bytes) (next : OrderedRecord) (expected : ℕ)
      (op : OrderedOperation) where
    pub commit_revision-Committed :
        (expect : ℕ) (s : OrderedStore W) (r : OrderedRecord)
        → (commit_revision storage enc seam spec subject expect next expected op s).0 ≡ ok r
        → Committed spec subject expect next op s r
    unfolding commit_revision settle_publish
    commit_revision-Committed expect s r h =
        let (payload, (encoded, published)) =
          bind-eq-ok (lift (encode_ordered_record storage enc next))
            (publish_payload storage enc seam spec subject expect next expected op) s r h in
        let valid = encode-valid storage enc seam next payload encoded in
        let sent =
          seam.publish spec.stream
            (record { subject = subject; payload = payload; expect_last_seq = expect }) s.world in
        let after : OrderedStore W = record s { world = sent.1 } in
        elim (Result-cases sent.0) [
          | inl (u, e) ↦
              let same : next ≡ r = cc (rw (settle_publish, e) at published) in
              inl (sym same, rw (← same) valid)
          | inr (x, e) ↦ elim (Bool-cases (is_precondition x)) [
            | inl p ↦
                let (found, (got, settled)) =
                  bind-eq-ok (read_record storage enc seam spec subject)
                    (λ found. lift (settle_conflict next.id expected op found)) after r
                    (rw (settle_publish, e, p) at published) in
                let (deletes, (seq, (there, gone))) =
                  settle_conflict-ok next.id expected op found r settled in
                inr (deletes, (payload, (encoded, (x, (e, (p, (seq, (got ∙ ap ok there, gone))))))))
            | inr p ↦ elim (Bool-cases (is_ambiguous x)) [
              | inr q ↦ cc (rw (settle_publish, e, p, q) at published)
              | inl q ↦
                  let (found, (got, settled)) =
                    bind-eq-ok (read_record storage enc seam spec subject)
                      (λ found. lift (settle_revision op next found)) after r
                      (rw (settle_publish, e, p, q) at published) in
                  let same = settle_revision-eq op next found r settled in inl (same, rw same valid)
            ]
          ]
        ]
