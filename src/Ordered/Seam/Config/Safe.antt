-- ===== src/Ordered/Seam/Config/Safe.antt =====
-- What a stream must be for the ordered index, declaratively, and that the chain of tests decides it.
use natsstore.Base.{true, false, List, [], ◌∷◌, ◌≡◌, ◌↔◌, ◌⊎◌, arith}
use natsstore.Base.Int.{pos, negsuc, ltb_ℤ, eqb_ℤ_iff}
use natsstore.Base.Bytes.{Bytes, bytes_eq_iff}
use natsstore.Base.Outcome.{ok}
use natsstore.Ordered.Store.{OrderedStreamSpec}
use natsstore.Ordered.Seam.Config.{
  Constants, StreamConfig, ordered_stream_description, ordered_max_msg_size,
  ordered_view_inactive_threshold, exactly_subject, verify_limits, verify_delivery,
  verify_authority, verify_ordered_stream_config,
}

exactly_subject_iff :
    (filter : Bytes) (subjects : List Bytes)
    → (exactly_subject filter subjects ≡ true) ↔ (subjects ≡ filter ∷ [])
exactly_subject_iff filter [] = ground arith
exactly_subject_iff filter (s ∷ []) = ground (arith, bytes_eq_iff s filter)
exactly_subject_iff filter (s ∷ t ∷ rest) = ground arith

-- Nothing but the store's own publishes changes the stream, and nothing in it is lost.
pub record Safe (constants : Constants) (spec : OrderedStreamSpec) (cfg : StreamConfig)
    : Type 0 where
  pub layout : cfg.description ≡ ordered_stream_description
  pub atomic : cfg.allow_atomic_publish ≡ true
  pub heads_only : cfg.max_msgs_per_subject ≡ pos 1
  pub own_subjects : cfg.subjects ≡ spec.subject_filter ∷ []
  pub retained : cfg.retention ≡ constants.limits_policy
  pub any_consumers : cfg.max_consumers ≡ negsuc 0
  pub durable : cfg.storage ≡ constants.file_storage
  pub acknowledged : cfg.no_ack ≡ false
  pub unmirrored : cfg.mirror ≡ false
  pub unsourced : cfg.sources ≡ 0
  pub unsealed : cfg.sealed ≡ false
  pub no_rollup : cfg.allow_rollup ≡ false
  pub from_zero : cfg.first_seq ≡ 0
  pub untransformed : cfg.subject_transform ≡ false
  pub unrepublished : cfg.republish ≡ false
  pub no_ttl : cfg.allow_msg_ttl ≡ false
  pub no_counter : cfg.allow_msg_counter ≡ false
  pub no_schedules : cfg.allow_msg_schedules ≡ false
  pub no_markers : cfg.subject_delete_marker_ttl ≡ pos 0
  pub persisted : cfg.persist_mode ≡ 0
  pub consumers_last :
      (ltb_ℤ (pos 0) cfg.inactive_threshold ≡ false)
      ⊎ (ltb_ℤ cfg.inactive_threshold ordered_view_inactive_threshold ≡ false)
  pub roomy : (cfg.max_msg_size ≡ negsuc 0) ⊎ (ltb_ℤ cfg.max_msg_size ordered_max_msg_size ≡ false)
  pub ageless : cfg.max_age ≡ pos 0
  pub any_bytes : cfg.max_bytes ≡ negsuc 0
  pub any_messages : cfg.max_msgs ≡ negsuc 0
  pub discards_old : cfg.discard ≡ constants.discard_old

module _ (constants : Constants) (spec : OrderedStreamSpec) (cfg : StreamConfig) where
  verify_limits_iff : (verify_limits constants spec cfg ≡ ok tt) ↔ (
      ((cfg.max_msg_size ≡ negsuc 0) ⊎ (ltb_ℤ cfg.max_msg_size ordered_max_msg_size ≡ false))
      × (cfg.max_age ≡ pos 0)
      × (cfg.max_bytes ≡ negsuc 0)
      × (cfg.max_msgs ≡ negsuc 0)
      × (cfg.discard ≡ constants.discard_old))
  unfolding verify_limits
  verify_limits_iff = ground (
    arith,
    eqb_ℤ_iff cfg.max_msg_size (negsuc 0),
    eqb_ℤ_iff cfg.max_age (pos 0),
    eqb_ℤ_iff cfg.max_bytes (negsuc 0),
    eqb_ℤ_iff cfg.max_msgs (negsuc 0),
  )

  verify_delivery_iff : (verify_delivery constants spec cfg ≡ ok tt) ↔ (
      (cfg.subject_transform ≡ false)
      × (cfg.republish ≡ false)
      × (cfg.allow_msg_ttl ≡ false)
      × (cfg.allow_msg_counter ≡ false)
      × (cfg.allow_msg_schedules ≡ false)
      × (cfg.subject_delete_marker_ttl ≡ pos 0)
      × (cfg.persist_mode ≡ 0)
      × ((ltb_ℤ (pos 0) cfg.inactive_threshold ≡ false)
          ⊎ (ltb_ℤ cfg.inactive_threshold ordered_view_inactive_threshold ≡ false))
      × (verify_limits constants spec cfg ≡ ok tt))
  unfolding verify_delivery
  verify_delivery_iff = ground (arith, eqb_ℤ_iff cfg.subject_delete_marker_ttl (pos 0))

  verify_authority_iff : (verify_authority constants spec cfg ≡ ok tt) ↔ (
      (cfg.storage ≡ constants.file_storage)
      × (cfg.no_ack ≡ false)
      × (cfg.mirror ≡ false)
      × (cfg.sources ≡ 0)
      × (cfg.sealed ≡ false)
      × (cfg.allow_rollup ≡ false)
      × (cfg.first_seq ≡ 0)
      × (verify_delivery constants spec cfg ≡ ok tt))
  unfolding verify_authority
  verify_authority_iff = ground arith

  verify_head_iff : (verify_ordered_stream_config constants spec cfg ≡ ok tt) ↔ (
      (cfg.description ≡ ordered_stream_description)
      × (cfg.allow_atomic_publish ≡ true)
      × (cfg.max_msgs_per_subject ≡ pos 1)
      × (cfg.subjects ≡ spec.subject_filter ∷ [])
      × (cfg.retention ≡ constants.limits_policy)
      × (cfg.max_consumers ≡ negsuc 0)
      × (verify_authority constants spec cfg ≡ ok tt))
  unfolding verify_ordered_stream_config
  verify_head_iff = ground (
    arith,
    bytes_eq_iff cfg.description ordered_stream_description,
    eqb_ℤ_iff cfg.max_msgs_per_subject (pos 1),
    exactly_subject_iff spec.subject_filter cfg.subjects,
    eqb_ℤ_iff cfg.max_consumers (negsuc 0),
  )

  -- A stream is admitted exactly when its configuration is safe for the ordered index: whatever more it
  -- allows in size, replicas and consumer inactivity does not matter.
  pub verify_ordered_stream_config_iff :
      (verify_ordered_stream_config constants spec cfg ≡ ok tt) ↔ Safe constants spec cfg
  verify_ordered_stream_config_iff =
      let (to_head, from_head) = verify_head_iff in
      let (to_authority, from_authority) = verify_authority_iff in
      let (to_delivery, from_delivery) = verify_delivery_iff in
      let (to_limits, from_limits) = verify_limits_iff in
      (
        (λ h.
            let (layout, atomic, heads, own, retained, consumers, rest) = to_head h in
            let (durable, acked, unmirrored, unsourced, unsealed, rollup, zeroth, more) =
              to_authority rest in
            let (
              untransformed, unrepublished, ttl, counted, scheduled, marked, persisted, last, end,
            ) =
              to_delivery more in
            let (roomy, ageless, any_bytes, any_messages, discards) = to_limits end in
            record {
              layout = layout;
              atomic = atomic;
              heads_only = heads;
              own_subjects = own;
              retained = retained;
              any_consumers = consumers;
              durable = durable;
              acknowledged = acked;
              unmirrored = unmirrored;
              unsourced = unsourced;
              unsealed = unsealed;
              no_rollup = rollup;
              from_zero = zeroth;
              untransformed = untransformed;
              unrepublished = unrepublished;
              no_ttl = ttl;
              no_counter = counted;
              no_schedules = scheduled;
              no_markers = marked;
              persisted = persisted;
              consumers_last = last;
              roomy = roomy;
              ageless = ageless;
              any_bytes = any_bytes;
              any_messages = any_messages;
              discards_old = discards;
            }),
        (λ s.
            let end =
              from_limits (s.roomy, s.ageless, s.any_bytes, s.any_messages, s.discards_old) in
            let more = from_delivery (
              s.untransformed, s.unrepublished, s.no_ttl, s.no_counter, s.no_schedules,
              s.no_markers, s.persisted, s.consumers_last, end,
            ) in
            let rest = from_authority (
              s.durable, s.acknowledged, s.unmirrored, s.unsourced, s.unsealed, s.no_rollup,
              s.from_zero, more,
            ) in
            from_head (
              s.layout, s.atomic, s.heads_only, s.own_subjects, s.retained, s.any_consumers, rest,
            )),
      )
