-- ===== src/Ordered/History/Writes.antt =====
-- Update and Delete (ordered.go) beside other clients: all that they do to the server is a step, and what they
-- return was stored at a moment of the call.
pub mod Creates
pub mod Calls
pub mod Sessions
use natsstore.Base.{
  ℕ, ◌+◌, ◌≡◌, ◌≢◌, List, [], ◌∷◌, Option, none, some, refl, sym, ◌∙◌, ap, inl, inr, Bool-cases,
  true, false, if◌then◌else◌, not,
}
use natsstore.Base.Bytes.{Bytes}
use natsstore.Base.Outcome.{Result, ok, err, Op, pure, fail, lift, ◌>>=◌, ◌>>◌, Result-cases}
use natsstore.Ordered.Record.{OrderedRecord, OrderedId, Rank, Due, ordered_record_equal}
use natsstore.Ordered.Errors.{
  OrderedError, OrderedOperation, create_operation, update_operation, delete_operation,
  is_precondition, is_ambiguous, record_not_found,
}
use natsstore.Ordered.Libraries.{Storage, Encodings, OrderedPayload}
use natsstore.Ordered.Codec.{encode_ordered_record}
use natsstore.Ordered.Store.{
  OrderedStreamSpec, OrderedMsg, OrderedSeam, OrderedStore, NoValue, Found, Location, read_record,
  outside, attempt, settle_conflict, settle_revision, settle_publish, publish_payload,
  commit_revision, ordered_location, check_update, check_revision, updated, tombstone, update_found,
  update, delete_found, delete,
}
use natsstore.Ordered.History.{
  Log, Fenced, Holds, Step, revises, Steps, start, later, Steps-trans, revision_batch,
}
use natsstore.Ordered.History.Sequences.{Steps-current}
use natsstore.Ordered.History.Records.{Holds-kept}
use natsstore.Ordered.History.Revisions.{revised-Holds}
use natsstore.Ordered.History.Lawful.{
  Runs, Sent, committed, not_committed, Lawful, Triple, pure-Triple, fail-Triple, lift-Triple,
  bind-Triple, ReadAt, Stored, Stored-since, ReadAt-Stored, FoundAt, FoundAt-Runs,
  read_record-Triple,
}

-- The next revision keeps all that is immutable.
pub record IsNext (current next : OrderedRecord) : Type 0 where
  pub same_id : next.id ≡ current.id
  pub same_order : next.order ≡ current.order
  pub same_scope : next.ranking_scope ≡ current.ranking_scope
  pub counts : next.revision ≡ current.revision + 1

module _ (storage : Storage) (enc : Encodings) {W : Type 0} (log : Log W) (fenced : Fenced log)
    (json : (p : OrderedPayload) (text : Bytes)
      → enc.marshal_record p ≡ some text
      → enc.decode_record_json text ≡ some (p, false))
    (seam : OrderedSeam W) (lawful : Lawful storage enc log seam) where
  abbrev pub Published : W → Bytes → OrderedRecord → Result OrderedError NoValue → W → Type 0
  Published v subject next outcome w =
      Runs storage enc log v w × (outcome ≡ ok tt → Stored storage enc log v subject next w)

  -- A record that was read and returned, or written and returned.
  abbrev pub Returned : W → Bytes → OrderedRecord → W → Type 0
  Returned v subject rec w = Runs storage enc log v w × Stored storage enc log v subject rec w

  Sent-Published :
      (v w x : W) (subject : Bytes) (current next : OrderedRecord) (seq : ℕ) (payload : Bytes)
      (outcome : Result OrderedError NoValue)
      → ReadAt storage enc log v subject current seq w
      → IsNext current next
      → encode_ordered_record storage enc next ≡ ok payload
      → Sent storage enc log w (revision_batch subject seq payload) outcome x
      → Published w subject next outcome x
  Sent-Published v w x subject current next seq payload outcome read is_next encoded
        (not_committed failed more) =
      (more, λ e. absurd (failed e))
  Sent-Published v w x subject current next seq payload outcome read is_next encoded
        (committed before after first c last) =
      let (fence, _) = fenced.expected before after (revision_batch subject seq payload) c in
      let until : Runs storage enc log (read.moment) before =
        Steps-trans storage enc log (read.moment) (read.until) first in
      let same : log.head before subject ≡ log.head (read.moment) subject =
        Steps-current storage enc log fenced subject until (read.under ∙ sym fence) in
      let here : Holds storage enc log before subject current =
        Holds-kept storage enc log fenced (read.moment) before subject current same (read.held) in
      let c' : log.Commits before (revision_batch subject (log.head before subject).0 payload)
          after =
        rw fence c in
      let step : Step storage enc log before after =
        revises subject current next payload here (is_next.same_id) (is_next.same_order)
          (is_next.same_scope) (is_next.counts) encoded c' in
      let moment : Runs storage enc log w after = later first step in
      (
        Steps-trans storage enc log w moment last,
        λ _. record {
          moment = after;
          since = moment;
          until = last;
          held =
              revised-Holds storage enc log fenced json before after subject current next payload
                here (is_next.same_id) encoded c';
        },
      )

  pub Published-since :
      (v w x : W) (subject : Bytes) (next : OrderedRecord) (outcome : Result OrderedError NoValue)
      → Runs storage enc log v w
      → Published w subject next outcome x
      → Published v subject next outcome x
  Published-since v w x subject next outcome before (runs, stored) = (
    Steps-trans storage enc log v before runs,
    λ e. Stored-since storage enc log v w x subject next before (stored e),
  )

  settle_conflict-Returned :
      (v w : W) (subject : Bytes) (id : OrderedId) (expected : ℕ) (op : OrderedOperation)
      (found : Found) (r : OrderedRecord)
      → FoundAt storage enc log v subject found w
      → settle_conflict id expected op found ≡ ok r
      → Returned v subject r w
  settle_conflict-Returned v w subject id expected op none r at h = cc h
  settle_conflict-Returned v w subject id expected op (some (current, seq)) r (runs, read) h =
      let same : current ≡ r = by_deletion op current r id h in
      rw (← same) (runs, ReadAt-Stored storage enc log v w subject current seq read)
    where
      by_deletion :
          (op : OrderedOperation) (current r : OrderedRecord) (id : OrderedId)
          → settle_conflict id expected op (some (current, seq)) ≡ ok r
          → current ≡ r
      by_deletion create_operation current r id h = elim (Bool-cases current.deleted) [
        | inl e ↦ cc (rw e at h)
        | inr e ↦ cc (rw e at h)
      ]
      by_deletion update_operation current r id h = elim (Bool-cases current.deleted) [
        | inl e ↦ cc (rw e at h)
        | inr e ↦ cc (rw e at h)
      ]
      by_deletion delete_operation current r id h = elim (Bool-cases current.deleted) [
        | inl e ↦ cc (rw e at h)
        | inr e ↦ cc (rw e at h)
      ]

  settle_revision-Returned :
      (v w : W) (subject : Bytes) (op : OrderedOperation) (next : OrderedRecord) (found : Found)
      (r : OrderedRecord)
      → FoundAt storage enc log v subject found w
      → settle_revision op next found ≡ ok r
      → Returned v subject r w
  settle_revision-Returned v w subject op next none r at h = cc h
  settle_revision-Returned v w subject op next (some (current, seq)) r (runs, read) h =
      elim (Bool-cases (ordered_record_equal current next)) [
        | inl e ↦
            let same : current ≡ r = cc (rw e at h) in
            rw (← same) (runs, ReadAt-Stored storage enc log v w subject current seq read)
        | inr e ↦ cc (rw e at h)
      ]

  settle_publish-Triple :
      (v : W) (spec : OrderedStreamSpec) (subject : Bytes) (next : OrderedRecord) (expected : ℕ)
      (op : OrderedOperation) (outcome : Result OrderedError NoValue)
      → Triple storage enc log
          (Published v subject next outcome)
          (settle_publish storage enc seam spec subject next expected op outcome)
          (Returned v subject)
  unfolding settle_publish
  settle_publish-Triple v spec subject next expected op (ok tt) =
      pure-Triple storage enc log (Published v subject next (ok tt)) (Returned v subject) next
        (λ w h. (h.0, h.1 refl))
  settle_publish-Triple v spec subject next expected op (err e) =
      elim (Bool-cases (is_precondition e)) [
        | inl p ↦ rw p (
            bind-Triple storage enc log (Published v subject next (err e))
              (FoundAt storage enc log v subject) (Returned v subject)
              (read_record storage enc seam spec subject)
              (λ found. lift (settle_conflict next.id expected op found)) reread
              (λ found.
                lift-Triple storage enc log (FoundAt storage enc log v subject found)
                  (Returned v subject) (settle_conflict next.id expected op found)
                  (λ r w h at.
                    settle_conflict-Returned v w subject next.id expected op found r at h)))
        | inr p ↦ elim (Bool-cases (is_ambiguous e)) [
          | inl q ↦
              rw (p, q)
                (bind-Triple storage enc log (Published v subject next (err e))
                  (FoundAt storage enc log v subject) (Returned v subject)
                  (read_record storage enc seam spec subject)
                  (λ found. lift (settle_revision op next found)) reread
                  (λ found.
                    lift-Triple storage enc log (FoundAt storage enc log v subject found)
                      (Returned v subject) (settle_revision op next found)
                      (λ r w h at. settle_revision-Returned v w subject op next found r at h)))
          | inr q ↦
              rw (p, q)
                (fail-Triple storage enc log (Published v subject next (err e)) (Returned v subject)
                  e)
        ]
      ]
    where
      reread :
          Triple storage enc log
            (Published v subject next (err e))
            (read_record storage enc seam spec subject)
            (FoundAt storage enc log v subject)
      reread s p = read_record-Triple storage enc log seam lawful v spec subject s (p.0)

  -- From the moment at which the current record was read.
  commit_revision-Triple :
      (v : W) (spec : OrderedStreamSpec) (subject : Bytes) (current next : OrderedRecord)
      (seq expected : ℕ) (op : OrderedOperation)
      → IsNext current next
      → Triple storage enc log
          (FoundAt storage enc log v subject (some (current, seq)))
          (commit_revision storage enc seam spec subject seq next expected op)
          (Returned v subject)
  unfolding commit_revision
  commit_revision-Triple v spec subject current next seq expected op is_next =
      bind-Triple storage enc log here Ready (Returned v subject)
        (lift (encode_ordered_record storage enc next))
        (publish_payload storage enc seam spec subject seq next expected op)
        (lift-Triple storage enc log here Ready (encode_ordered_record storage enc next)
          (λ payload w h at. (at, h)))
        (λ payload.
          bind-Triple storage enc log (Ready payload) (Published v subject next)
            (Returned v subject) (attempt (outside (seam.publish spec.stream (message payload))))
            (settle_publish storage enc seam spec subject next expected op) (send payload)
            (settle_publish-Triple v spec subject next expected op))
    where
      here : W → Type 0
      here = FoundAt storage enc log v subject (some (current, seq))

      Ready : Bytes → W → Type 0
      Ready payload w = here w × (encode_ordered_record storage enc next ≡ ok payload)

      message : Bytes → OrderedMsg
      message payload = record { subject = subject; payload = payload; expect_last_seq = seq }

      send :
          (payload : Bytes)
          → Triple storage enc log
              (Ready payload)
              (attempt (outside (seam.publish spec.stream (message payload))))
              (Published v subject next)
      send payload s ((before, read), encoded) =
          let r : Result OrderedError NoValue =
            (seam.publish spec.stream (message payload) s.world).0 in
          let w : W = (seam.publish spec.stream (message payload) s.world).1 in
          let p : Published s.world subject next r w =
            Sent-Published v s.world w subject current next seq payload r read is_next encoded
              (lawful.publishes spec.stream (message payload) s.world) in
          (
            p.0,
            λ a h.
                let same : r ≡ a = cc h in
                rw (← same) (Published-since v s.world w subject next r before p),
          )

  pub update_found-Triple :
      (v : W) (id : OrderedId) (expected : ℕ) (value : Bytes) (rank : Rank) (when : Due)
      (at : Location) (found : Found)
      → Triple storage enc log
          (FoundAt storage enc log v at.record_subject found)
          (update_found storage enc seam id expected value rank when at found)
          (Returned v at.record_subject)
  update_found-Triple v id expected value rank when at none =
      fail-Triple storage enc log (Runs storage enc log v) (Returned v at.record_subject)
        (record_not_found id)
  update_found-Triple v id expected value rank when at (some (current, seq)) =
      bind-Triple storage enc log here (λ _. here) (Returned v at.record_subject)
        (lift (check_update storage id current expected value when))
        (λ _.
          commit_revision storage enc seam at.spec at.record_subject seq
            (updated current value rank when) expected update_operation)
        (lift-Triple storage enc log here (λ _. here)
          (check_update storage id current expected value when) (λ _ w _ h. h))
        (λ _.
          commit_revision-Triple v at.spec at.record_subject current
            (updated current value rank when) seq expected update_operation next)
    where
      here : W → Type 0
      here = FoundAt storage enc log v at.record_subject (some (current, seq))

      next : IsNext current (updated current value rank when)
      next = record { same_id = refl; same_order = refl; same_scope = refl; counts = refl }

  pub delete_found-Triple :
      (v : W) (id : OrderedId) (expected : ℕ) (at : Location) (found : Found)
      → Triple storage enc log
          (FoundAt storage enc log v at.record_subject found)
          (delete_found storage enc seam id expected at found)
          (Returned v at.record_subject)
  delete_found-Triple v id expected at none =
      fail-Triple storage enc log (Runs storage enc log v) (Returned v at.record_subject)
        (record_not_found id)
  delete_found-Triple v id expected at (some (current, seq)) = elim (Bool-cases current.deleted) [
    | inl e ↦ simp e (
        pure-Triple storage enc log here (Returned v at.record_subject) current (λ w (runs, read).
          (runs, ReadAt-Stored storage enc log v w at.record_subject current seq read)))
    | inr e ↦ simp e (
        bind-Triple storage enc log here (λ _. here) (Returned v at.record_subject)
          (lift (check_revision id current expected))
          (λ _.
            commit_revision storage enc seam at.spec at.record_subject seq
              (tombstone storage current) expected delete_operation)
          (lift-Triple storage enc log here (λ _. here) (check_revision id current expected)
            (λ _ w _ h. h))
          (λ _.
            commit_revision-Triple v at.spec at.record_subject current (tombstone storage current)
              seq expected delete_operation next))
  ]
    where
      here : W → Type 0
      here = FoundAt storage enc log v at.record_subject (some (current, seq))

      next : IsNext current (tombstone storage current)
      next = record { same_id = refl; same_order = refl; same_scope = refl; counts = refl }
