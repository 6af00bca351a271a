-- ===== src/Ordered/Seam/Streams/Admitted.antt =====
-- The cache of the ordered seam: a handle enters it only behind the tests of its stream's configuration.
use natsstore.Base.{
  Option, none, some, ◌≡◌, refl, arith, Bool-cases, Option-cases, inl, inr, if◌then◌else◌,
}
use natsstore.Base.Bytes.{Bytes, bytes_Eq, bytes_eq, bytes_eq_iff}
use natsstore.Base.Dict.{Dict, find, put, find-put}
use natsstore.Base.Outcome.{ok, err, Op, pure, lift, Result-cases}
use natsstore.Base.Runs.{Preserves, bind-Preserves}
use natsstore.Ordered.Errors.{StreamOp, ensure_op}
use natsstore.Ordered.Store.{OrderedStreamSpec}
use natsstore.Ordered.Seam.Config.{Constants, StreamConfig, verify_ordered_stream_config}
use natsstore.Ordered.Seam.Config.Safe.{Safe, verify_ordered_stream_config_iff}
use natsstore.Ordered.Seam.Client.{ClientError, JetStream, SeamState, calling}
use natsstore.Ordered.Seam.Streams.{
  verify_and_cache_stream, ensure_stream, find_or_create, fresh_stream, verify_found, read_handle,
  last_msg_of, last_msg_for_subject, tip_of, stream_tip,
}

module _ (constants : Constants) {W H : Type 0} (js : JetStream W H) where
  -- The stream of a handle had a safe configuration when the seam asked for it.
  pub record Admitted (stream : Bytes) (handle : H) : Type 0 where
    pub spec : OrderedStreamSpec
    pub of_stream : spec.stream ≡ stream
    pub config : StreamConfig
    pub asked_in : W
    pub told : (js.info handle asked_in).0 ≡ ok config
    pub safe : Safe constants spec config

  abbrev pub OnlyAdmitted : Dict Bytes H → Type 0
  OnlyAdmitted cache =
      (stream : Bytes) (handle : H) → find stream cache ≡ some handle → Admitted stream handle

  abbrev pub Kept : SeamState W H → Type 0
  Kept s = OnlyAdmitted s.verified_streams

  put-OnlyAdmitted :
      (stream : Bytes) (handle : H) (cache : Dict Bytes H)
      → OnlyAdmitted cache
      → Admitted stream handle
      → OnlyAdmitted (put stream handle cache)
  put-OnlyAdmitted stream handle cache kept new other found h =
      let e : (if bytes_eq stream other then some handle else find other cache) ≡ some found =
        rw (← find-put stream other handle cache) h in
      elim (Bool-cases (bytes_eq stream other)) [
        | inl same ↦
            let there : some handle ≡ some found = rw same at e in
            let same_handle : handle ≡ found = cc in
            let same_stream : stream ≡ other = ground (arith, same, bytes_eq_iff stream other) in
            rw (← same_handle, ← same_stream) new
        | inr differ ↦ kept other found (rw differ at e)
      ]

  calling-Preserves :
      {A : Type 0} (name : Bytes) (op : StreamOp) (f : Op W ClientError A)
      → Preserves Kept (calling name op f)
  calling-Preserves name op f s h = h

  cached-Admitted :
      (spec : OrderedStreamSpec) (handle : H) (s : SeamState W H) (cfg : StreamConfig)
      → (js.info handle s.world).0 ≡ ok cfg
      → verify_ordered_stream_config constants spec cfg ≡ ok tt
      → Admitted spec.stream handle
  cached-Admitted spec handle s cfg told verified =
      let (to_safe, _) = verify_ordered_stream_config_iff constants spec cfg in
      record {
        spec = spec;
        of_stream = refl;
        config = cfg;
        asked_in = s.world;
        told = told;
        safe = to_safe verified;
      }

  verify_and_cache_stream-Preserves :
      (spec : OrderedStreamSpec) (handle : H)
      → Preserves Kept (verify_and_cache_stream constants js spec handle)
  unfolding verify_and_cache_stream
  verify_and_cache_stream-Preserves spec handle s h =
      elim (Result-cases (js.info handle s.world).0) [
        | inl (cfg, e) ↦ elim (Result-cases (verify_ordered_stream_config constants spec cfg)) [
          | inl (u, f) ↦
              rw (e, f)
                (put-OnlyAdmitted spec.stream handle s.verified_streams h
                  (cached-Admitted spec handle s cfg e f))
          | inr (x, f) ↦ rw (e, f) h
        ]
        | inr (x, e) ↦ rw e h
      ]

  pub ensure_stream-Preserves :
      (spec : OrderedStreamSpec) → Preserves Kept (ensure_stream constants js spec)
  unfolding ensure_stream
  ensure_stream-Preserves spec s h = elim (Option-cases (find spec.stream s.verified_streams)) [
    | inr (handle, e) ↦ rw (ensure_stream, e) h
    | inl e ↦
        rw (ensure_stream, e)
          (bind-Preserves Kept (calling spec.stream ensure_op (find_or_create constants js spec))
            (verify_and_cache_stream constants js spec) (λ t k. k)
            (verify_and_cache_stream-Preserves spec) s h)
  ]

  verify_found-Preserves :
      (spec : OrderedStreamSpec) (found : Option H)
      → Preserves Kept (verify_found constants js spec found)
  verify_found-Preserves spec none = λ s h. h
  verify_found-Preserves spec (some handle) =
      bind-Preserves Kept (verify_and_cache_stream constants js spec handle)
        (λ _. pure (some handle)) (verify_and_cache_stream-Preserves spec handle) (λ u s h. h)

  fresh_stream-Preserves : (name : Bytes) → Preserves Kept (fresh_stream constants js name)
  unfolding fresh_stream
  fresh_stream-Preserves name s h = h

  read_handle-Preserves :
      (spec : OrderedStreamSpec) → Preserves Kept (read_handle constants js spec)
  unfolding read_handle
  read_handle-Preserves spec s h = elim (Option-cases (find spec.stream s.verified_streams)) [
    | inr (handle, e) ↦ rw (read_handle, e) h
    | inl e ↦
        rw (read_handle, e)
          (bind-Preserves Kept (fresh_stream constants js spec.stream)
            (verify_found constants js spec) (fresh_stream-Preserves spec.stream)
            (verify_found-Preserves spec) s h)
  ]

  last_msg_of-Preserves :
      (spec : OrderedStreamSpec) (subject : Bytes) (found : Option H)
      → Preserves Kept (last_msg_of constants js spec subject found)
  last_msg_of-Preserves spec subject none s h = h
  last_msg_of-Preserves spec subject (some handle) s h = h

  pub last_msg_for_subject-Preserves :
      (spec : OrderedStreamSpec) (subject : Bytes)
      → Preserves Kept (last_msg_for_subject constants js spec subject)
  unfolding last_msg_for_subject
  last_msg_for_subject-Preserves spec subject =
      bind-Preserves Kept (read_handle constants js spec) (last_msg_of constants js spec subject)
        (read_handle-Preserves spec) (last_msg_of-Preserves spec subject)

  pub stream_tip-Preserves : (name : Bytes) → Preserves Kept (stream_tip constants js name)
  unfolding stream_tip
  stream_tip-Preserves name =
      bind-Preserves Kept (fresh_stream constants js name)
        (λ found. lift (tip_of constants js name found)) (fresh_stream-Preserves name) (λ u s h. h)

  -- What ensures a stream leaves a verified handle of it in the cache.
  verify_and_cache_stream-cached :
      (spec : OrderedStreamSpec) (handle : H) (s : SeamState W H)
      → (verify_and_cache_stream constants js spec handle s).0 ≡ ok tt
      → find spec.stream (verify_and_cache_stream constants js spec handle s).1.verified_streams
        ≡ some handle
  unfolding verify_and_cache_stream
  verify_and_cache_stream-cached spec handle s h = elim (Result-cases (js.info handle s.world).0) [
    | inl (cfg, e) ↦ elim (Result-cases (verify_ordered_stream_config constants spec cfg)) [
      | inl (u, f) ↦
          rw (e, f)
            (ground (
              arith,
              find-put spec.stream spec.stream handle s.verified_streams,
              bytes_eq_iff spec.stream spec.stream,
            ))
      | inr (x, f) ↦ let no_ok : err x ≡ ok tt = rw (e, f) at h in cc
    ]
    | inr (x, e) ↦ cc (rw e at h)
  ]

  pub ensure_stream-cached :
      (spec : OrderedStreamSpec) (s : SeamState W H)
      → (ensure_stream constants js spec s).0 ≡ ok tt
      → (handle : H) × (find spec.stream (ensure_stream constants js spec s).1.verified_streams
          ≡ some handle)
  unfolding ensure_stream
  ensure_stream-cached spec s h = elim (Option-cases (find spec.stream s.verified_streams)) [
    | inr (handle, e) ↦ rw (ensure_stream, e) (handle, e)
    | inl e ↦ elim (Result-cases (find_or_create constants js spec s.world).0) [
      | inl (handle, f) ↦
          let s' : SeamState W H = record s {
            world = (find_or_create constants js spec s.world).1;
          } in
          rw (ensure_stream, e, f)
            (handle, verify_and_cache_stream-cached spec handle s' (rw (ensure_stream, e, f) at h))
      | inr (x, f) ↦ cc (rw (ensure_stream, e, f) at h)
    ]
  ]
