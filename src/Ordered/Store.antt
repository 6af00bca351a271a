-- ===== src/Ordered/Store.antt =====
-- orderedStore (ordered.go): Get, Create, Update and Delete over the seam. The seam and the waits are
-- parameters: operations on a world `W` that the backend and the other clients change too.
pub mod Latches
pub mod Allocated
pub mod Created
pub mod Revised
pub mod Outcomes
pub mod Released
use natsstore.Base.{
  ℕ, zero, suc, ◌+◌, ◌-◌, Bool, true, false, not, Option, none, some, List, [], ◌∷◌, ◌==◌,
  if◌then◌else◌,
}
use natsstore.Base.Int.{pos}
use natsstore.Base.Bytes.{Bytes}
use natsstore.Base.Dict.{Dict}
use natsstore.Base.Outcome.{Result, ok, err, then_try, Op, pure, fail, lift, ◌>>=◌, ◌>>◌}
use natsstore.Ordered.Record.{OrderedRecord, OrderedId, Rank, Due, zero_rank, ordered_record_equal}
use natsstore.Ordered.Errors.{
  OrderedError, OrderedOperation, create_operation, update_operation, delete_operation, invalid,
  name, ordered_id, ordered_value, due, record_not_found, record_deleted, revision_conflict,
  revision_exhausted, order_exhausted, contention, outcome_unknown, is_precondition, is_ambiguous,
}
use natsstore.Ordered.Libraries.{Storage, Encodings}
use natsstore.Ordered.Codec.{
  max_uint64, ordered_stream_name, ordered_subject_filter, ordered_counter_subject,
  ordered_record_subject, encode_ordered_record, decode_ordered_record, encode_ordered_counter,
  decode_ordered_counter,
}
use natsstore.Ordered.Store.Latches.{Latch, enter_scope, hold_scope, drop_scope}

pub record OrderedStreamSpec : Type 0 where
  pub stream : Bytes
  pub subject_filter : Bytes

pub record OrderedMsg : Type 0 where
  pub subject : Bytes
  pub payload : Bytes
  pub expect_last_seq : ℕ

-- What an operation returns that only fails or succeeds.
abbrev pub NoValue : Type 0
NoValue = Unit

-- The interface orderedSeam, with the two waits of a create: the token of a latch and the back-off.
pub record OrderedSeam (W : Type 0) : Type 0 where
  pub ensure_stream : OrderedStreamSpec → Op W OrderedError NoValue
  pub last_msg_for_subject : OrderedStreamSpec → Bytes → Op W OrderedError (ℕ × Bytes)
  pub publish : Bytes → OrderedMsg → Op W OrderedError NoValue
  pub publish_batch : Bytes → List OrderedMsg → Op W OrderedError NoValue
  pub await_token : Bytes → Op W OrderedError NoValue
  pub wait_before_retry : ℕ → Op W OrderedError NoValue

pub record OrderedStore (W : Type 0) : Type 0 where
  pub latches : Dict Bytes Latch
  pub world : W

abbrev pub ordered_create_attempts : ℕ
ordered_create_attempts = 64

pub record Location : Type 0 where
  pub spec : OrderedStreamSpec
  pub counter_subject : Bytes
  pub record_subject : Bytes

-- What readRecord found: the record and the sequence that a fence names.
abbrev pub Found : Type 0
Found = Option (OrderedRecord × ℕ)

-- The record that Create writes for an absent identity.
abbrev pub first_record : OrderedId → Bytes → Bytes → Rank → Due → ℕ → OrderedRecord
first_record id scope value rank when order = record {
  id = id;
  ranking_scope = scope;
  revision = 1;
  order = order;
  due = when;
  rank = rank;
  value = value;
  deleted = false;
}

abbrev pub updated : OrderedRecord → Bytes → Rank → Due → OrderedRecord
updated current value rank when = record current {
  revision = current.revision + 1;
  value = value;
  rank = rank;
  due = when;
}

abbrev pub last_order_of : ℕ × Bytes → Result OrderedError ℕ
last_order_of (seq, text) = if seq == 0 then ok 0 else decode_ordered_counter text

-- The two messages of a create, each with its own fence.
abbrev pub create_batch : Location → ℕ → OrderedRecord → Bytes → List OrderedMsg
create_batch at counter_seq rec payload =
    record {
      subject = at.counter_subject;
      payload = encode_ordered_counter rec.order;
      expect_last_seq = counter_seq;
    }
    ∷ record { subject = at.record_subject; payload = payload; expect_last_seq = 0 }
    ∷ []

abbrev pub settle_ambiguous :
    OrderedId → OrderedRecord → Found → Result OrderedError (OrderedRecord × Bool)
settle_ambiguous id rec none = err (outcome_unknown create_operation id)
settle_ambiguous id rec (some (winner, seq)) = ok (winner, ordered_record_equal winner rec)

-- The winner of a fence that was lost.
abbrev pub settle_conflict :
    OrderedId → ℕ → OrderedOperation → Found → Result OrderedError OrderedRecord
settle_conflict id expected op none = err (record_not_found id)
settle_conflict id expected op (some (current, seq)) =
    if current.deleted
    then elim op [ delete_operation ↦ ok current | _ ↦ err (record_deleted id) ]
    else err (revision_conflict id expected current.revision)

abbrev pub settle_revision :
    OrderedOperation → OrderedRecord → Found → Result OrderedError OrderedRecord
settle_revision op next none = err (outcome_unknown op next.id)
settle_revision op next (some (current, seq)) =
    if ordered_record_equal current next then ok current else err (outcome_unknown op next.id)

-- The two revision gates that Update and Delete share.
abbrev pub check_revision : OrderedId → OrderedRecord → ℕ → Result OrderedError NoValue
check_revision id current expected =
    if not (current.revision == expected)
    then err (revision_conflict id expected current.revision)
    else if current.revision == max_uint64
    then err (revision_exhausted id current.revision)
    else ok tt

module _ {W : Type 0} where
  -- A call of the seam, which leaves the latches alone.
  abbrev pub outside : {A : Type 0} → Op W OrderedError A → Op (OrderedStore W) OrderedError A
  outside f s = let (r, w) = f s.world in (r, record s { world = w })

  -- Any operation without its error: the second component of the state goes on.
  abbrev pub attempt :
      {A : Type 0}
      → Op (OrderedStore W) OrderedError A
      → Op (OrderedStore W) OrderedError (Result OrderedError A)
  attempt f s = let (r, s') = f s in (ok r, s')

  -- What the failed fence of a create tells: the winner if the identity exists, else a retry.
  abbrev pub settle_lost :
      Found
      → Op (OrderedStore W) OrderedError (OrderedRecord × Bool)
      → Op (OrderedStore W) OrderedError (OrderedRecord × Bool)
  settle_lost none retry = retry
  settle_lost (some (winner, seq)) retry = pure (winner, false)

module _ (storage : Storage) where
  abbrev pub check_candidate : Bytes → Bytes → Due → Result OrderedError NoValue
  check_candidate scope value when =
      if not (storage.validate_name scope)
      then err (invalid name)
      else if not (storage.validate_ordered_value value)
      then err (invalid ordered_value)
      else if not (storage.validate_due when)
      then err (invalid due)
      else ok tt

  abbrev pub check_update :
      OrderedId → OrderedRecord → ℕ → Bytes → Due → Result OrderedError NoValue
  check_update id current expected value when =
      if current.deleted
      then err (record_deleted id)
      else if not (storage.validate_ordered_value value)
      then err (invalid ordered_value)
      else if not (storage.validate_due when)
      then err (invalid due)
      else check_revision id current expected

  abbrev pub tombstone : OrderedRecord → OrderedRecord
  tombstone current = record current {
    revision = current.revision + 1;
    deleted = true;
    rank = zero_rank;
    due = record { state = storage.not_due; unix_millis = pos 0 };
  }

module _ (storage : Storage) (enc : Encodings) where
  unfoldable pub ordered_location : OrderedId → Result OrderedError Location
  ordered_location id =
      if not (storage.validate_ordered_id id)
      then err (invalid ordered_id)
      else then_try (ordered_stream_name storage id.namespace) λ stream.
        then_try (ordered_subject_filter storage id.namespace) λ filter.
          then_try (ordered_counter_subject storage id.namespace id.ordering_scope) λ counter.
            then_try (ordered_record_subject storage enc id) λ subject. ok (record {
              spec = record { stream = stream; subject_filter = filter };
              counter_subject = counter;
              record_subject = subject;
            })

  module _ {W : Type 0} (seam : OrderedSeam W) where
    unfoldable pub read_record : OrderedStreamSpec → Bytes → Op (OrderedStore W) OrderedError Found
    read_record spec subject = outside (seam.last_msg_for_subject spec subject) >>= λ (seq, text).
        if seq == 0
        then pure none
        else lift
            (then_try (decode_ordered_record storage enc subject text) (λ r. ok (some (r, seq))))

    unfoldable pub get : OrderedId → Op (OrderedStore W) OrderedError OrderedRecord
    get id = lift (ordered_location id) >>= λ at. read_record at.spec at.record_subject >>= λ found.
        lift (elim found [ none ↦ err (record_not_found id) | some (r, seq) ↦ ok r ])

    -- acquireScope: the latch is entered before the wait for its token and left again if that fails.
    unfoldable pub acquire_scope : Bytes → Op (OrderedStore W) OrderedError NoValue
    unfolding enter_scope hold_scope drop_scope
    acquire_scope key s =
        let entered = record s { latches = enter_scope key s.latches } in
        let (r, w) = seam.await_token key entered.world in
        elim r [
          | ok _ ↦ (ok tt, record { latches = hold_scope key entered.latches; world = w })
          | err e ↦ (err e, record { latches = drop_scope false key entered.latches; world = w })
        ]

    -- The returned closure, deferred until the caller returns.
    unfoldable pub release_scope : Bytes → OrderedStore W → OrderedStore W
    unfolding drop_scope
    release_scope key s = record s { latches = drop_scope true key s.latches }

    -- The three answers of the batch. `retry` is the rest of the loop.
    unfoldable pub settle_batch :
        Location
        → OrderedRecord
        → OrderedId
        → Op (OrderedStore W) OrderedError (OrderedRecord × Bool)
        → Result OrderedError NoValue
        → Op (OrderedStore W) OrderedError (OrderedRecord × Bool)
    settle_batch at rec id retry (ok _) = pure (rec, true)
    settle_batch at rec id retry (err e) =
        if is_precondition e
        then (read_record at.spec at.record_subject >>= λ found. settle_lost found retry)
        else if is_ambiguous e
        then (read_record at.spec at.record_subject >>= λ found.
            lift (settle_ambiguous id rec found))
        else fail e

    -- The batch under the fence of the counter that was read.
    unfoldable pub write_batch :
        Location
        → OrderedRecord
        → OrderedId
        → Op (OrderedStore W) OrderedError (OrderedRecord × Bool)
        → ℕ
        → Bytes
        → Op (OrderedStore W) OrderedError (OrderedRecord × Bool)
    unfolding settle_batch
    write_batch at rec id retry counter_seq payload =
        attempt
          (outside (seam.publish_batch at.spec.stream (create_batch at counter_seq rec payload)))
        >>= settle_batch at rec id retry

    unfoldable pub allocate :
        Location
        → (ℕ → OrderedRecord)
        → OrderedId
        → Op (OrderedStore W) OrderedError (OrderedRecord × Bool)
        → ℕ
        → ℕ
        → Op (OrderedStore W) OrderedError (OrderedRecord × Bool)
    unfolding write_batch
    allocate at candidate id retry counter_seq last =
        if last == max_uint64
        then fail (order_exhausted id last)
        else lift (encode_ordered_record storage enc (candidate (last + 1)))
          >>= write_batch at (candidate (last + 1)) id retry counter_seq

    abbrev pub from_counter :
        Location
        → (ℕ → OrderedRecord)
        → OrderedId
        → Op (OrderedStore W) OrderedError (OrderedRecord × Bool)
        → ℕ × Bytes
        → Op (OrderedStore W) OrderedError (OrderedRecord × Bool)
    from_counter at candidate id retry head =
        lift (last_order_of head) >>= allocate at candidate id retry head.0

    -- One attempt behind the latch.
    unfoldable pub create_attempt :
        Location
        → (ℕ → OrderedRecord)
        → OrderedId
        → Op (OrderedStore W) OrderedError (OrderedRecord × Bool)
        → Op (OrderedStore W) OrderedError (OrderedRecord × Bool)
    unfolding allocate
    create_attempt at candidate id retry =
        outside (seam.last_msg_for_subject at.spec at.counter_subject)
        >>= from_counter at candidate id retry

    -- No wait before the first attempt.
    abbrev pub wait_turn : ℕ → Op (OrderedStore W) OrderedError NoValue
    wait_turn n = if n == 1 then pure tt else outside (seam.wait_before_retry (n - 1))

    -- The loop over `attempt <= orderedCreateAttempts`, on the attempts left.
    unfoldable pub create_loop :
        Location
        → (ℕ → OrderedRecord)
        → OrderedId
        → ℕ
        → ℕ
        → Op (OrderedStore W) OrderedError (OrderedRecord × Bool)
    unfolding create_attempt
    create_loop at candidate id n zero = fail (contention id ordered_create_attempts)
    create_loop at candidate id n (suc left) =
        let rest = create_loop at candidate id (n + 1) left in
        wait_turn n >> create_attempt at candidate id rest

    -- `defer release()`: the latch is dropped however the body ends.
    abbrev pub under_latch :
        {A : Type 0}
        → Bytes
        → Op (OrderedStore W) OrderedError A
        → Op (OrderedStore W) OrderedError A
    under_latch key body =
        acquire_scope key >> λ s. (let (r, s') = body s in (r, release_scope key s'))

    abbrev pub create_absent :
        Location
        → OrderedId
        → Bytes
        → Bytes
        → Rank
        → Due
        → Op (OrderedStore W) OrderedError (OrderedRecord × Bool)
    create_absent at id scope value rank when =
        lift (check_candidate storage scope value when)
        >> under_latch at.counter_subject
            (create_loop at (first_record id scope value rank when) id 1 ordered_create_attempts)

    abbrev pub create_found :
        Location
        → OrderedId
        → Bytes
        → Bytes
        → Rank
        → Due
        → Found
        → Op (OrderedStore W) OrderedError (OrderedRecord × Bool)
    create_found at id scope value rank when (some (existing, seq)) = pure (existing, false)
    create_found at id scope value rank when none = create_absent at id scope value rank when

    abbrev pub create_at :
        OrderedId
        → Bytes
        → Bytes
        → Rank
        → Due
        → Location
        → Op (OrderedStore W) OrderedError (OrderedRecord × Bool)
    create_at id scope value rank when at =
        outside (seam.ensure_stream at.spec)
        >> (read_record at.spec at.record_subject >>= create_found at id scope value rank when)

    unfoldable pub create :
        OrderedId
        → Bytes
        → Bytes
        → Rank
        → Due
        → Op (OrderedStore W) OrderedError (OrderedRecord × Bool)
    unfolding acquire_scope release_scope create_loop read_record
    create id scope value rank when =
        lift (ordered_location id) >>= create_at id scope value rank when

    unfoldable pub settle_publish :
        OrderedStreamSpec
        → Bytes
        → OrderedRecord
        → ℕ
        → OrderedOperation
        → Result OrderedError NoValue
        → Op (OrderedStore W) OrderedError OrderedRecord
    unfolding read_record
    settle_publish spec subject next expected op (ok _) = pure next
    settle_publish spec subject next expected op (err e) =
        if is_precondition e
        then (read_record spec subject >>= λ found.
            lift (settle_conflict next.id expected op found))
        else if is_ambiguous e
        then (read_record spec subject >>= λ found. lift (settle_revision op next found))
        else fail e

    abbrev pub publish_payload :
        OrderedStreamSpec
        → Bytes
        → ℕ
        → OrderedRecord
        → ℕ
        → OrderedOperation
        → Bytes
        → Op (OrderedStore W) OrderedError OrderedRecord
    publish_payload spec subject expect next expected op payload =
        attempt (
          outside (
            seam.publish spec.stream
              (record { subject = subject; payload = payload; expect_last_seq = expect })))
        >>= settle_publish spec subject next expected op

    unfoldable pub commit_revision :
        OrderedStreamSpec
        → Bytes
        → ℕ
        → OrderedRecord
        → ℕ
        → OrderedOperation
        → Op (OrderedStore W) OrderedError OrderedRecord
    unfolding settle_publish
    commit_revision spec subject expect next expected op =
        lift (encode_ordered_record storage enc next)
        >>= publish_payload spec subject expect next expected op

    abbrev pub update_found :
        OrderedId
        → ℕ
        → Bytes
        → Rank
        → Due
        → Location
        → Found
        → Op (OrderedStore W) OrderedError OrderedRecord
    update_found id expected value rank when at none = fail (record_not_found id)
    update_found id expected value rank when at (some (current, seq)) =
        lift (check_update storage id current expected value when)
        >> commit_revision at.spec at.record_subject seq (updated current value rank when) expected
            update_operation

    unfoldable pub update :
        OrderedId → ℕ → Bytes → Rank → Due → Op (OrderedStore W) OrderedError OrderedRecord
    unfolding read_record commit_revision
    update id expected value rank when = lift (ordered_location id) >>= λ at.
        read_record at.spec at.record_subject >>= update_found id expected value rank when at

    abbrev pub delete_found :
        OrderedId → ℕ → Location → Found → Op (OrderedStore W) OrderedError OrderedRecord
    delete_found id expected at none = fail (record_not_found id)
    delete_found id expected at (some (current, seq)) =
        if current.deleted
        then pure current
        else lift (check_revision id current expected)
          >> commit_revision at.spec at.record_subject seq (tombstone storage current) expected
              delete_operation

    unfoldable pub delete : OrderedId → ℕ → Op (OrderedStore W) OrderedError OrderedRecord
    unfolding read_record commit_revision
    delete id expected = lift (ordered_location id) >>= λ at.
        read_record at.spec at.record_subject >>= delete_found id expected at
