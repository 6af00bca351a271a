-- ===== src/Ordered/Store/Outcomes.antt =====
-- Update and Delete as a whole: what each returns when it succeeds.
use natsstore.Base.{
  ℕ, ◌+◌, ap, ◌∙◌, ◌≡◌, refl, true, false, none, some, ◌==◌, arith, Bool-cases, inl, inr, ◌⊎◌,
}
use natsstore.Base.Bytes.{Bytes}
use natsstore.Base.Outcome.{◌>>=◌, ok, Result-cases, lift}
use natsstore.Base.Int.{pos}
use mathlib.Core.Path.{subst}
use natsstore.Base.Runs.{bind-eq-ok}
use natsstore.Ordered.Record.{OrderedRecord, OrderedId, Rank, Due}
use natsstore.Ordered.Errors.{update_operation, delete_operation}
use natsstore.Ordered.Libraries.{Storage, Encodings}
use natsstore.Ordered.Codec.{max_uint64}
use natsstore.Ordered.Store.{
  OrderedStreamSpec, OrderedSeam, OrderedStore, Location, Found, NoValue, read_record,
  commit_revision, check_revision, check_update, updated, tombstone, update_found, update,
  delete_found, delete, ordered_location,
}
use natsstore.Ordered.Store.Revised.{Beaten, commit_revision-Committed}

module _ (storage : Storage) (enc : Encodings) {W : Type 0} (seam : OrderedSeam W) where
  -- The live record of the expected revision, below the largest, that a read of the subject finds.
  abbrev pub Current : Location → ℕ → OrderedStore W → OrderedRecord → ℕ → Type 0
  Current at expected s current seq =
      ((read_record storage enc seam at.spec at.record_subject s).0 ≡ ok (some (current, seq)))
      × ((current.deleted ≡ false)
          × ((current.revision ≡ expected) × (expected == max_uint64 ≡ false)))

  abbrev pub IsUpdate : OrderedId → ℕ → Bytes → Rank → Due → OrderedStore W → OrderedRecord → Type 0
  IsUpdate id expected value rank when s r =
      (at : Location) × ((ordered_location storage enc id ≡ ok at)
        × ((current : OrderedRecord) × ((seq : ℕ) × (Current at expected s current seq
                × ((r ≡ record {
                  id = current.id;
                  ranking_scope = current.ranking_scope;
                  revision = expected + 1;
                  order = current.order;
                  due = when;
                  rank = rank;
                  value = value;
                  deleted = false;
                })
                    × (storage.validate_ordered_record r ≡ true))))))

  -- The tombstone of a record: its place in the order, its scope and its value are kept, its rank and due
  -- time are not.
  abbrev pub tombstone_of : OrderedRecord → ℕ → OrderedRecord
  tombstone_of current expected = record {
    id = current.id;
    ranking_scope = current.ranking_scope;
    revision = expected + 1;
    order = current.order;
    due = record { state = storage.not_due; unix_millis = pos 0 };
    rank = record { ranked = false; value = pos 0 };
    value = current.value;
    deleted = true;
  }

  abbrev pub IsDelete : OrderedId → ℕ → OrderedStore W → OrderedRecord → Type 0
  IsDelete id expected s r =
      (at : Location) × ((ordered_location storage enc id ≡ ok at)
        × ((current : OrderedRecord) × ((seq : ℕ) × ((((read_record storage enc seam at.spec
                      at.record_subject s).0
                    ≡ ok (some (current, seq)))
                  × ((current.deleted ≡ true) × (r ≡ current)))
                ⊎ (Current at expected s current seq
                    × (((r ≡ tombstone_of current expected)
                          × (storage.validate_ordered_record r ≡ true))
                        ⊎ Beaten storage enc seam at.spec at.record_subject seq
                            (tombstone_of current expected)
                            (record s {
                              world =
                                  (seam.last_msg_for_subject at.spec at.record_subject s.world).1;
                            })
                            r))))))

  check_revision-ok :
      (id : OrderedId) (current : OrderedRecord) (expected : ℕ) (u : NoValue)
      → check_revision id current expected ≡ ok u
      → (current.revision ≡ expected) × (expected == max_uint64 ≡ false)
  check_revision-ok id current expected u h = ground arith

  check_update-ok :
      (id : OrderedId) (current : OrderedRecord) (expected : ℕ) (value : Bytes) (when : Due)
      (u : NoValue)
      → check_update storage id current expected value when ≡ ok u
      → (current.deleted ≡ false)
        × ((current.revision ≡ expected) × (expected == max_uint64 ≡ false))
  check_update-ok id current expected value when u h = ground arith

  read_record-world :
      (spec : OrderedStreamSpec) (subject : Bytes) (s : OrderedStore W)
      → (read_record storage enc seam spec subject s).1
        ≡ record s { world = (seam.last_msg_for_subject spec subject s.world).1 }
  unfolding read_record
  read_record-world spec subject s =
      elim (Result-cases (seam.last_msg_for_subject spec subject s.world).0) [
        | inl ((seq, text), e) ↦ elim (Bool-cases (seq == 0)) [
          | inl f ↦ rw (read_record, e, f) refl
          | inr f ↦ rw (read_record, e, f) refl
        ]
        | inr (x, e) ↦ rw (read_record, e) refl
      ]

  -- A successful Update returns the next revision of the live record that a read of the identity's subject
  -- finds first, with the expected revision, below the largest uint64: the value, the rank and the due state
  -- are those of the call, identity, order and ranking scope those that were read, and package storage
  -- accepts the result.
  pub update-ok :
      (id : OrderedId) (expected : ℕ) (value : Bytes) (rank : Rank) (when : Due)
      (s : OrderedStore W) (r : OrderedRecord)
      → (update storage enc seam id expected value rank when s).0 ≡ ok r
      → IsUpdate id expected value rank when s r
  unfolding update
  update-ok id expected value rank when s r h =
      let (at, (located, found_there)) =
        bind-eq-ok (lift (ordered_location storage enc id))
          (λ at.
            read_record storage enc seam at.spec at.record_subject
            >>= update_found storage enc seam id expected value rank when at)
          s r h in
      let (found, (got, settled)) =
        bind-eq-ok (read_record storage enc seam at.spec at.record_subject)
          (update_found storage enc seam id expected value rank when at) s r found_there in
      let after = (read_record storage enc seam at.spec at.record_subject s).1 in
      let (current, (seq, (rest, done))) = committed at found after settled in
      (at, (located, (current, (seq, ((got ∙ ap ok rest, done.0), done.1)))))
    where
      committed :
          (at : Location) (found : Found) (after : OrderedStore W)
          → (update_found storage enc seam id expected value rank when at found after).0 ≡ ok r
          → (current : OrderedRecord) × ((seq : ℕ) × ((found ≡ some (current, seq))
                × (((current.deleted ≡ false)
                      × ((current.revision ≡ expected) × (expected == max_uint64 ≡ false)))
                    × ((r ≡ record {
                      id = current.id;
                      ranking_scope = current.ranking_scope;
                      revision = expected + 1;
                      order = current.order;
                      due = when;
                      rank = rank;
                      value = value;
                      deleted = false;
                    })
                        × (storage.validate_ordered_record r ≡ true)))))
      committed at none after settled = cc settled
      committed at (some (current, seq)) after settled =
          let next : OrderedRecord = updated current value rank when in
          let (u, (checked, written)) =
            bind-eq-ok (lift (check_update storage id current expected value when))
              (λ _.
                commit_revision storage enc seam at.spec at.record_subject seq next expected
                  update_operation)
              after r settled in
          let (live, (revision, below)) =
            check_update-ok id current expected value when u checked in
          elim (commit_revision-Committed storage enc seam at.spec at.record_subject next expected
            update_operation seq after r written) [
              | inl (same, valid) ↦
                  (current, (seq, (refl, ((live, (revision, below)), (same ∙ cc, valid)))))
              | inr (differ, _) ↦ cc differ
            ]

  -- A successful Delete returns a tombstone. A read of the identity's subject finds it first, whatever
  -- revision was expected; or it is made of the live record that is read there, of the expected revision,
  -- below the largest uint64, and keeps its identity, order, ranking scope and value, without rank or due
  -- time; or it beat that write: the fence was lost, and the read that follows finds it.
  pub delete-ok :
      (id : OrderedId) (expected : ℕ) (s : OrderedStore W) (r : OrderedRecord)
      → (delete storage enc seam id expected s).0 ≡ ok r
      → IsDelete id expected s r
  unfolding delete
  delete-ok id expected s r h =
      let (at, (located, found_there)) =
        bind-eq-ok (lift (ordered_location storage enc id))
          (λ at.
            read_record storage enc seam at.spec at.record_subject
            >>= delete_found storage enc seam id expected at)
          s r h in
      let (found, (got, settled)) =
        bind-eq-ok (read_record storage enc seam at.spec at.record_subject)
          (delete_found storage enc seam id expected at) s r found_there in
      (
        at,
        (
          located,
          by_found at found got (rw (read_record-world at.spec at.record_subject s) at settled),
        ),
      )
    where
      by_found :
          (at : Location) (found : Found)
          → (read_record storage enc seam at.spec at.record_subject s).0 ≡ ok found
          → (delete_found storage enc seam id expected at found (record s {
            world = (seam.last_msg_for_subject at.spec at.record_subject s.world).1;
          })).0
            ≡ ok r
          → (current : OrderedRecord) × ((seq : ℕ) × ((((read_record storage enc seam at.spec
                      at.record_subject s).0
                    ≡ ok (some (current, seq)))
                  × ((current.deleted ≡ true) × (r ≡ current)))
                ⊎ (Current at expected s current seq
                    × (((r ≡ tombstone_of current expected)
                          × (storage.validate_ordered_record r ≡ true))
                        ⊎ Beaten storage enc seam at.spec at.record_subject seq
                            (tombstone_of current expected)
                            (record s {
                              world =
                                  (seam.last_msg_for_subject at.spec at.record_subject s.world).1;
                            })
                            r))))
      by_found at none got settled = cc settled
      by_found at (some (current, seq)) got settled = elim (Bool-cases current.deleted) [
        | inl gone ↦ (current, (seq, inl (got, (gone, cc (rw gone at settled)))))
        | inr live ↦
            let after : OrderedStore W = record s {
              world = (seam.last_msg_for_subject at.spec at.record_subject s.world).1;
            } in
            let (u, (checked, written)) =
              bind-eq-ok (lift (check_revision id current expected))
                (λ _.
                  commit_revision storage enc seam at.spec at.record_subject seq
                    (tombstone storage current) expected delete_operation)
                after r (rw live at settled) in
            let (revision, below) = check_revision-ok id current expected u checked in
            let same_next : tombstone storage current ≡ tombstone_of current expected =
              ap (λ n. record (tombstone storage current) { revision = n + 1 }) revision in
            (
              current,
              (
                seq,
                inr (
                  (got, (live, (revision, below))),
                  elim (commit_revision-Committed storage enc seam at.spec at.record_subject
                      (tombstone storage current) expected delete_operation seq after r written) [
                        | inl (same, valid) ↦ inl (same ∙ same_next, valid)
                        | inr (_, beaten) ↦ inr (
                            subst
                              (λ n. Beaten storage enc seam at.spec at.record_subject seq n after r)
                              same_next beaten)
                      ],
                ),
              ),
            )
      ]
