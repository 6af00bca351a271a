-- ===== src/Tests/Seams.antt =====
-- Witnesses for the ordered seam, on a server in memory that has no stream at first.
use natsstore.Base.{◌≡◌, ◌↔◌, refl, Bool, true, false, none, some, List, [], ◌∷◌, if◌then◌else◌}
use natsstore.Base.Bytes.{Bytes, bytes, bytes_eq, bytes_Eq}
use natsstore.Base.Dict.{find, put}
use natsstore.Base.Outcome.{ok, err, pure}
use natsstore.Ordered.Store.{OrderedStreamSpec, OrderedMsg}
use natsstore.Ordered.Seam.Config.{
  Constants, StreamConfig, ordered_stream_config, verify_ordered_stream_config, verify_limits,
  verify_delivery, verify_authority,
}
use natsstore.Ordered.Seam.Config.Safe.{Safe, verify_ordered_stream_config_iff}
use natsstore.Ordered.Seam.Client.{
  ClientError, Sentinel, stream_not_found, BatchAck, JetStream, SeamState,
}
use natsstore.Ordered.Seam.Streams.{
  ensure_stream, find_or_create, verify_and_cache_stream, last_msg_for_subject, read_handle,
  fresh_stream,
}
use natsstore.Ordered.Seam.Streams.Admitted.{Admitted}
use natsstore.Ordered.Seam.Calls.{
  SeamCall, reads, publishes, new_jet_stream_ordered_seam, perform_all, ensure_stream-Admitted,
}
use natsstore.Ordered.Seam.Batch.{publish_batch, send_batch, classify_ordered_batch_ack, publish}
use natsstore.Ordered.Seam.Batch.Acknowledged.{Distinct, Replied, publish_batch-ok}

abbrev constants : Constants
constants = record {
  limits_policy = 0;
  discard_old = 0;
  file_storage = 0;
  wrong_last_sequence = 10071;
  wrong_last_sequence_constant = 10164;
}

abbrev spec : OrderedStreamSpec
spec = record { stream = bytes "OI_n"; subject_filter = bytes "OI.n.>" }

abbrev own_config : StreamConfig
own_config = ordered_stream_config constants spec

verify_ordered_stream_config_iff_example :
    (verify_ordered_stream_config constants spec own_config ≡ ok tt)
    ↔ Safe constants spec own_config
verify_ordered_stream_config_iff_example =
    verify_ordered_stream_config_iff constants spec own_config

abbrev is_not_found : Sentinel → Bool
is_not_found stream_not_found = true
is_not_found _ = false

abbrev not_found : ClientError
not_found = record { matches = is_not_found; api_code = none }

abbrev both_committed : BatchAck
both_committed = record {
  stream = bytes "OI_n";
  sequence = 2;
  batch_id = bytes "ns-x-1";
  batch_size = 2;
  error = none;
}

-- The world is whether the stream exists.
abbrev js : JetStream Bool Bytes
js = record {
  stream = λ name w. (if w then ok name else err not_found, w);
  create_stream = λ cfg w. (ok (cfg.name), true);
  info = λ handle. pure own_config;
  cached_info = λ handle. some (own_config, 0);
  get_last_msg_for_subject = λ handle subject. pure (1, bytes "1");
  publish_msg = λ m. pure tt;
  send_msg = λ m. pure tt;
  request_msg = λ m. pure (bytes "ack");
  decode_ack = λ reply. some both_committed;
}

abbrev one_msg : OrderedMsg
one_msg = record { subject = bytes "OI.n.c.s"; payload = bytes "1"; expect_last_seq = 0 }

abbrev other_msg : OrderedMsg
other_msg = record { subject = bytes "OI.n.r.s.h"; payload = bytes "A"; expect_last_seq = 0 }

abbrev some_calls : List SeamCall
some_calls = reads spec (bytes "OI.n.c.s") ∷ publishes (bytes "OI_n") one_msg ∷ []

abbrev ensured : SeamState Bool Bytes
ensured = record {
  batch_nonce = bytes "x";
  batch_id = 0;
  verified_streams = (bytes "OI_n", bytes "OI_n") ∷ [];
  world = true;
}

ensured_lem :
    ensure_stream constants js spec
      (perform_all constants js some_calls (new_jet_stream_ordered_seam (bytes "x") false))
    ≡ (ok tt, ensured)
unfolding ensure_stream find_or_create verify_and_cache_stream last_msg_for_subject read_handle
    fresh_stream publish find put bytes_eq verify_ordered_stream_config verify_authority
    verify_delivery verify_limits
ensured_lem = refl

ensure_stream-Admitted_example :
    (handle : Bytes) × (find (bytes "OI_n") ensured.verified_streams ≡ some handle)
    × Admitted constants js (bytes "OI_n") handle
ensure_stream-Admitted_example =
    ensure_stream-Admitted constants js (bytes "x") false some_calls spec ensured ensured_lem

published : (publish_batch constants js (bytes "OI_n") (one_msg ∷ other_msg ∷ []) ensured).0 ≡ ok tt
unfolding publish_batch send_batch classify_ordered_batch_ack bytes_eq
published = refl

publish_batch-ok_example :
    Distinct (one_msg ∷ other_msg ∷ [])
    × Replied constants js (λ ack. (ack.error ≡ none) × (ack.batch_size ≡ 2))
publish_batch-ok_example =
    publish_batch-ok constants js (bytes "OI_n") (one_msg ∷ other_msg ∷ []) ensured published

-- The server committed, but nobody can read what it answered.
abbrev garbled : JetStream Bool Bytes
garbled = record js { decode_ack = λ text. none }
