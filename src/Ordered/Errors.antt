-- ===== src/Ordered/Errors.antt =====
-- The errors of the ordered store. Where a Go error only carries a rendered message its kind is kept; the
-- cause that an error wraps is left out where nothing inspects it.
use natsstore.Base.{ℕ, Bool, true, false}
use natsstore.Base.Bytes.{Bytes}
use natsstore.Ordered.Record.{OrderedId}

-- Which test of package storage refused an argument.
pub data Refused : Type 0 where
  name ordered_id ordered_value ordered_record due ordered_limit : Refused

-- OrderedCodecError.Reason.
pub data CodecReason : Type 0 where
  encode_failed malformed_payload trailing_bytes contract_violated no_subject cursor_encode_failed :
      CodecReason
  unsupported_version : ℕ → CodecReason

-- OrderedCounterError.Reason.
pub data CounterReason : Type 0 where
  not_decimal counter_range counter_zero not_canonical : CounterReason

-- storage.OrderedCursorRule.
pub data CursorRule : Type 0 where
  malformed unknown_version wrong_kind query_mismatch : CursorRule

-- OrderedStreamConfigError.Reason: which test of verifyOrderedStreamConfig refused the stream.
pub data ConfigReason : Type 0 where
  other_layout no_atomic_publish keeps_history other_subjects other_retention few_consumers
        other_storage no_acknowledgements mirrored sourced is_sealed allows_rollup other_first_seq
        transformed republished allows_ttl allows_counter allows_schedules marks_deletes
        other_persistence short_inactivity small_messages expires limits_bytes limits_messages
        other_discard :
      ConfigReason

-- OrderedStreamOpError.Op.
pub data StreamOp : Type 0 where
  ensure_op info_op lookup_op get_last_op publish_op member_op commit_op ack_decode_op : StreamOp

pub data OrderedOperation : Type 0 where
  create_operation update_operation delete_operation : OrderedOperation

pub data OrderedError : Type 0 where
  invalid : Refused → OrderedError
  codec : Bytes → CodecReason → OrderedError
  identity_mismatch : Bytes → Bytes → OrderedError
  counter : Bytes → CounterReason → OrderedError
  record_not_found : OrderedId → OrderedError
  record_deleted : OrderedId → OrderedError
  revision_conflict : OrderedId → ℕ → ℕ → OrderedError
  revision_exhausted : OrderedId → ℕ → OrderedError
  order_exhausted : OrderedId → ℕ → OrderedError
  contention : OrderedId → ℕ → OrderedError
  outcome_unknown : OrderedOperation → OrderedId → OrderedError
  invalid_cursor : Bytes → Bytes → CursorRule → OrderedError
  store_closed : Bytes → OrderedError
  -- The seam's two sentinels. A lost acknowledgement is joined with its cause, of which only a count
  -- that is not the one that was sent is told apart.
  precondition : OrderedError
  lost_ack : OrderedError
  ack_mismatch : Bytes → ℕ → ℕ → OrderedError
  -- Definite failures of the backend, a stream of another layout, the two refusals of a batch, and an
  -- ended context.
  stream_op : Bytes → StreamOp → OrderedError
  stream_config : Bytes → ConfigReason → OrderedError
  batch_rejected : Bytes → ℕ → OrderedError
  batch_subjects : Bytes → OrderedError
  context_done : ℕ → OrderedError
  -- A slice or an index out of range.
  runtime_panic : OrderedError

-- errors.Is against the two sentinels, errors.As against *OrderedStreamConfigError.
abbrev pub is_precondition : OrderedError → Bool
is_precondition precondition = true
is_precondition _ = false

abbrev pub is_ambiguous : OrderedError → Bool
is_ambiguous lost_ack = true
is_ambiguous (ack_mismatch id committed sent) = true
is_ambiguous _ = false

abbrev pub is_stream_config : OrderedError → Bool
is_stream_config (stream_config stream reason) = true
is_stream_config _ = false
