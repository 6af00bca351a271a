-- ===== src/Ordered/Seam/Config.antt =====
-- orderedStreamConfig and verifyOrderedStreamConfig (ordered_seam.go): the configuration that a
-- namespace's stream is provisioned with, and the tests that admit a stream that exists. Of
-- jetstream.StreamConfig the fields that the tests read are kept; of a nested structure, whether it is set.
pub mod Safe
use natsstore.Base.{
  ℕ, Bool, true, false, not, ◌&&◌, List, [], ◌∷◌, ◌==◌, if◌then◌else◌, ◌≡◌, ◌↔◌, arith, refl,
}
use natsstore.Base.Int.{ℤ, pos, negsuc, eqb_ℤ, ltb_ℤ, eqb_ℤ_iff}
use natsstore.Base.Bytes.{Bytes, bytes, bytes_eq, bytes_eq_iff}
use natsstore.Base.Outcome.{Result, ok, err}
use natsstore.Ordered.Errors.{
  OrderedError, stream_config, ConfigReason, other_layout, no_atomic_publish, keeps_history,
  other_subjects, other_retention, few_consumers, other_storage, no_acknowledgements, mirrored,
  sourced, is_sealed, allows_rollup, other_first_seq, transformed, republished, allows_ttl,
  allows_counter, allows_schedules, marks_deletes, other_persistence, short_inactivity,
  small_messages, expires, limits_bytes, limits_messages, other_discard,
}
use natsstore.Ordered.Store.{OrderedStreamSpec, NoValue}

-- The constants of package jetstream that the seam names.
pub record Constants : Type 0 where
  pub limits_policy : ℕ
  pub discard_old : ℕ
  pub file_storage : ℕ
  pub wrong_last_sequence : ℕ
  pub wrong_last_sequence_constant : ℕ

pub record StreamConfig : Type 0 where
  pub name : Bytes
  pub description : Bytes
  pub subjects : List Bytes
  pub retention : ℕ
  pub max_consumers : ℤ
  pub discard : ℕ
  pub storage : ℕ
  pub max_msgs : ℤ
  pub max_bytes : ℤ
  pub max_age : ℤ
  pub max_msgs_per_subject : ℤ
  pub max_msg_size : ℤ
  pub replicas : ℕ
  pub allow_atomic_publish : Bool
  pub no_ack : Bool
  pub mirror : Bool
  pub sources : ℕ
  pub sealed : Bool
  pub allow_rollup : Bool
  pub first_seq : ℕ
  pub subject_transform : Bool
  pub republish : Bool
  pub allow_msg_ttl : Bool
  pub allow_msg_counter : Bool
  pub allow_msg_schedules : Bool
  pub subject_delete_marker_ttl : ℤ
  pub persist_mode : ℕ
  pub inactive_threshold : ℤ

abbrev pub ordered_stream_description : Bytes
ordered_stream_description = bytes "looprig ordered index layout v1"

abbrev pub ordered_max_msg_size : ℤ
ordered_max_msg_size = pos 4194304

-- Thirty seconds in nanoseconds.
abbrev pub ordered_view_inactive_threshold : ℤ
ordered_view_inactive_threshold = pos 30000000000

module _ (constants : Constants) where
  -- The fields that the literal leaves out have Go's zero values.
  abbrev pub ordered_stream_config : OrderedStreamSpec → StreamConfig
  ordered_stream_config spec = record {
    name = spec.stream;
    description = ordered_stream_description;
    subjects = spec.subject_filter ∷ [];
    retention = constants.limits_policy;
    max_consumers = negsuc 0;
    discard = constants.discard_old;
    storage = constants.file_storage;
    max_msgs = negsuc 0;
    max_bytes = negsuc 0;
    max_age = pos 0;
    max_msgs_per_subject = pos 1;
    max_msg_size = ordered_max_msg_size;
    replicas = 1;
    allow_atomic_publish = true;
    no_ack = false;
    mirror = false;
    sources = 0;
    sealed = false;
    allow_rollup = false;
    first_seq = 0;
    subject_transform = false;
    republish = false;
    allow_msg_ttl = false;
    allow_msg_counter = false;
    allow_msg_schedules = false;
    subject_delete_marker_ttl = pos 0;
    persist_mode = 0;
    inactive_threshold = pos 0;
  }

abbrev pub exactly_subject : Bytes → List Bytes → Bool
exactly_subject filter [] = false
exactly_subject filter (s ∷ []) = bytes_eq s filter
exactly_subject filter (s ∷ t ∷ rest) = false

-- One test of the chain: what it refuses, and the tests behind it.
abbrev pub refuse_if :
    OrderedStreamSpec
    → Bool
    → ConfigReason
    → Result OrderedError NoValue
    → Result OrderedError NoValue
refuse_if spec test reason rest = if test then err (stream_config spec.stream reason) else rest

module _ (constants : Constants) (spec : OrderedStreamSpec) (cfg : StreamConfig) where
  abbrev want : StreamConfig
  want = ordered_stream_config constants spec

  -- The tests from MaxMsgSize on.
  unfoldable pub verify_limits : Result OrderedError NoValue
  verify_limits =
      refuse_if spec
        (not (eqb_ℤ cfg.max_msg_size (negsuc 0)) && ltb_ℤ cfg.max_msg_size want.max_msg_size)
        small_messages
        (refuse_if spec (not (eqb_ℤ cfg.max_age want.max_age)) expires (
          refuse_if spec (not (eqb_ℤ cfg.max_bytes want.max_bytes)) limits_bytes (
            refuse_if spec (not (eqb_ℤ cfg.max_msgs want.max_msgs)) limits_messages
              (refuse_if spec (not (cfg.discard == want.discard)) other_discard (ok tt)))))

  -- The tests from SubjectTransform on.
  unfoldable pub verify_delivery : Result OrderedError NoValue
  unfolding verify_limits
  verify_delivery = refuse_if spec cfg.subject_transform transformed (
      refuse_if spec cfg.republish republished (
        refuse_if spec cfg.allow_msg_ttl allows_ttl (
          refuse_if spec cfg.allow_msg_counter allows_counter (
            refuse_if spec cfg.allow_msg_schedules allows_schedules (
              refuse_if spec (not (eqb_ℤ cfg.subject_delete_marker_ttl (pos 0))) marks_deletes (
                refuse_if spec (not (cfg.persist_mode == want.persist_mode)) other_persistence (
                  refuse_if spec
                    (ltb_ℤ (pos 0) cfg.inactive_threshold
                      && ltb_ℤ cfg.inactive_threshold ordered_view_inactive_threshold)
                    short_inactivity verify_limits)))))))

  -- The tests from Storage on.
  unfoldable pub verify_authority : Result OrderedError NoValue
  unfolding verify_delivery
  verify_authority = refuse_if spec (not (cfg.storage == want.storage)) other_storage (
      refuse_if spec cfg.no_ack no_acknowledgements (
        refuse_if spec cfg.mirror mirrored (
          refuse_if spec (not (cfg.sources == 0)) sourced (
            refuse_if spec cfg.sealed is_sealed (
              refuse_if spec cfg.allow_rollup allows_rollup (
                refuse_if spec (not (cfg.first_seq == want.first_seq)) other_first_seq
                  verify_delivery))))))

  unfoldable pub verify_ordered_stream_config : Result OrderedError NoValue
  unfolding verify_authority
  verify_ordered_stream_config =
      refuse_if spec (not (bytes_eq cfg.description ordered_stream_description)) other_layout (
        refuse_if spec (not cfg.allow_atomic_publish) no_atomic_publish (
          refuse_if spec (not (eqb_ℤ cfg.max_msgs_per_subject (pos 1))) keeps_history (
            refuse_if spec (not (exactly_subject spec.subject_filter cfg.subjects)) other_subjects (
              refuse_if spec (not (cfg.retention == want.retention)) other_retention (
                refuse_if spec (not (eqb_ℤ cfg.max_consumers want.max_consumers)) few_consumers
                  verify_authority)))))
