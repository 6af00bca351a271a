-- ===== src/Ordered/Seam/Client.antt =====
-- What the ordered seam takes from nats.go, as parameters: the calls of the connection and of JetStream on
-- a world `W` with stream handles `H`, and what their errors answer to errors.Is and errors.As.
use natsstore.Base.{ℕ, Bool, false, Option, none, some, ◌||◌, ◌==◌}
use natsstore.Base.Int.{ℤ}
use natsstore.Base.Bytes.{Bytes}
use natsstore.Base.Dict.{Dict}
use natsstore.Base.Outcome.{Op, map_err}
use natsstore.Ordered.Errors.{OrderedError, StreamOp, stream_op}
use natsstore.Ordered.Store.{OrderedMsg, NoValue}
use natsstore.Ordered.Seam.Config.{Constants, StreamConfig}

-- The errors of package jetstream, nats and context that the seam compares with.
pub data Sentinel : Type 0 where
  stream_not_found stream_name_in_use msg_not_found deadline_exceeded nats_timeout no_responders
        no_stream_response jetstream_no_stream_response :
      Sentinel

-- `api_code` is the code of the *jetstream.APIError in the chain.
pub record ClientError : Type 0 where
  pub matches : Sentinel → Bool
  pub api_code : Option ℕ

-- orderedAPIError and orderedBatchAck, as JSON decodes them.
pub record ApiError : Type 0 where
  pub code : ℤ
  pub err_code : ℕ
  pub description : Bytes

pub record BatchAck : Type 0 where
  pub stream : Bytes
  pub sequence : ℕ
  pub batch_id : Bytes
  pub batch_size : ℕ
  pub error : Option ApiError

-- A member of a batch with its headers.
pub record WireMsg : Type 0 where
  pub subject : Bytes
  pub payload : Bytes
  pub batch_id : Bytes
  pub batch_seq : Bytes
  pub expected_last_seq : Bytes
  pub commit : Bool

pub record JetStream (W H : Type 0) : Type 0 where
  pub stream : Bytes → Op W ClientError H
  pub create_stream : StreamConfig → Op W ClientError H
  pub info : H → Op W ClientError StreamConfig
  pub cached_info : H → Option (StreamConfig × ℕ)
  pub get_last_msg_for_subject : H → Bytes → Op W ClientError (ℕ × Bytes)
  pub publish_msg : OrderedMsg → Op W ClientError NoValue
  pub send_msg : WireMsg → Op W ClientError NoValue
  pub request_msg : WireMsg → Op W ClientError Bytes
  pub decode_ack : Bytes → Option BatchAck

-- jetStreamOrderedSeam, with the world that its connection reaches.
pub record SeamState (W H : Type 0) : Type 0 where
  pub batch_nonce : Bytes
  pub batch_id : ℕ
  pub verified_streams : Dict Bytes H
  pub world : W

module _ {W H : Type 0} where
  -- A call whose failure is reported as an OrderedStreamOpError.
  abbrev pub calling :
      {A : Type 0} → Bytes → StreamOp → Op W ClientError A → Op (SeamState W H) OrderedError A
  calling name op f s =
      let (r, w) = f s.world in (map_err (λ e. stream_op name op) r, record s { world = w })

abbrev pub has_code : ℕ → Option ℕ → Bool
has_code code none = false
has_code code (some c) = c == code

module _ (constants : Constants) where
  abbrev pub is_ordered_wrong_last_seq_code : ℕ → Bool
  is_ordered_wrong_last_seq_code code =
      code == constants.wrong_last_sequence || code == constants.wrong_last_sequence_constant

  abbrev pub is_ordered_wrong_last_seq : ClientError → Bool
  is_ordered_wrong_last_seq e =
      has_code constants.wrong_last_sequence e.api_code
      || has_code constants.wrong_last_sequence_constant e.api_code

abbrev pub is_ordered_ambiguous : ClientError → Bool
is_ordered_ambiguous e =
    e.matches deadline_exceeded
    || (e.matches nats_timeout
        || (e.matches no_responders
            || (e.matches no_stream_response || e.matches jetstream_no_stream_response)))
