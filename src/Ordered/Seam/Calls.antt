-- ===== src/Ordered/Seam/Calls.antt =====
-- Any sequence of calls of the ordered seam (ordered_seam.go), and what its cache holds afterwards.
use natsstore.Base.{ℕ, ◌+◌, false, some, List, [], ◌∷◌, ◌≡◌, refl, Option-cases, inl, inr, length}
use natsstore.Base.Bytes.{Bytes, bytes_Eq}
use natsstore.Base.Dict.{find}
use natsstore.Base.Outcome.{ok}
use natsstore.Base.Runs.{Preserves, bind-Preserves}
use natsstore.Ordered.Errors.{member_op}
use natsstore.Ordered.Store.{OrderedStreamSpec, OrderedMsg}
use natsstore.Ordered.Seam.Config.{Constants}
use natsstore.Ordered.Seam.Client.{JetStream, SeamState, calling}
use natsstore.Ordered.Seam.Streams.{ensure_stream, last_msg_for_subject, stream_tip}
use natsstore.Ordered.Seam.Streams.Admitted.{
  Admitted, Kept, ensure_stream-Preserves, last_msg_for_subject-Preserves, stream_tip-Preserves,
  ensure_stream-cached,
}
use natsstore.Ordered.Seam.Batch.{
  repeated_subject, next_batch_id, wire_msg, send_batch, publish_batch, publish,
}

pub data SeamCall : Type 0 where
  ensures : OrderedStreamSpec → SeamCall
  reads : OrderedStreamSpec → Bytes → SeamCall
  asks_tip : Bytes → SeamCall
  publishes : Bytes → OrderedMsg → SeamCall
  batches : Bytes → List OrderedMsg → SeamCall

-- newJetStreamOrderedSeam, behind the nonce that was drawn.
abbrev pub new_jet_stream_ordered_seam : {W H : Type 0} → Bytes → W → SeamState W H
new_jet_stream_ordered_seam nonce w = record {
  batch_nonce = nonce;
  batch_id = 0;
  verified_streams = [];
  world = w;
}

module _ (constants : Constants) {W H : Type 0} (js : JetStream W H) where
  abbrev pub perform : SeamCall → SeamState W H → SeamState W H
  perform (ensures spec) s = (ensure_stream constants js spec s).1
  perform (reads spec subject) s = (last_msg_for_subject constants js spec subject s).1
  perform (asks_tip name) s = (stream_tip constants js name s).1
  perform (publishes name m) s = (publish constants js name m s).1
  perform (batches name msgs) s = (publish_batch constants js name msgs s).1

  abbrev pub perform_all : List SeamCall → SeamState W H → SeamState W H
  perform_all [] s = s
  perform_all (c ∷ calls) s = perform_all calls (perform c s)

  abbrev KeptHere : SeamState W H → Type 0
  KeptHere = Kept constants js

  send_batch-Preserves :
      (name id : Bytes) (sent position : ℕ) (msgs : List OrderedMsg)
      → Preserves KeptHere (send_batch constants js name id sent position msgs)
  unfolding send_batch
  send_batch-Preserves name id sent position [] = λ s h. h
  send_batch-Preserves name id sent position (m ∷ []) = λ s h. h
  send_batch-Preserves name id sent position (m ∷ n ∷ msgs) =
      bind-Preserves KeptHere (calling name member_op (js.send_msg (wire_msg id position false m)))
        (λ _. send_batch constants js name id sent (position + 1) (n ∷ msgs)) (λ s h. h)
        (λ _. send_batch-Preserves name id sent (position + 1) (n ∷ msgs))

  publish_batch-Preserves :
      (name : Bytes) (msgs : List OrderedMsg)
      → Preserves KeptHere (publish_batch constants js name msgs)
  unfolding publish_batch
  publish_batch-Preserves name [] s h = h
  publish_batch-Preserves name (m ∷ msgs) s h =
      elim (Option-cases (repeated_subject [] (m ∷ msgs))) [
        | inr (subject, e) ↦ rw (publish_batch, e) h
        | inl e ↦
            rw (publish_batch, e)
              (bind-Preserves KeptHere next_batch_id
                (λ id. send_batch constants js name id (length (m ∷ msgs)) 1 (m ∷ msgs)) (λ t k. k)
                (λ id. send_batch-Preserves name id (length (m ∷ msgs)) 1 (m ∷ msgs)) s h)
      ]

  publish-Preserves :
      (name : Bytes) (m : OrderedMsg) → Preserves KeptHere (publish constants js name m)
  unfolding publish
  publish-Preserves name m s h = h

  perform-Kept : (c : SeamCall) (s : SeamState W H) → KeptHere s → KeptHere (perform c s)
  perform-Kept (ensures spec) s h = ensure_stream-Preserves constants js spec s h
  perform-Kept (reads spec subject) s h =
      last_msg_for_subject-Preserves constants js spec subject s h
  perform-Kept (asks_tip name) s h = stream_tip-Preserves constants js name s h
  perform-Kept (publishes name m) s h = publish-Preserves name m s h
  perform-Kept (batches name msgs) s h = publish_batch-Preserves name msgs s h

  perform_all-Kept :
      (calls : List SeamCall) (s : SeamState W H) → KeptHere s → KeptHere (perform_all calls s)
  perform_all-Kept [] s h = h
  perform_all-Kept (c ∷ calls) s h = perform_all-Kept calls (perform c s) (perform-Kept c s h)

  new_jet_stream_ordered_seam-Kept :
      (nonce : Bytes) (w : W) → KeptHere (new_jet_stream_ordered_seam nonce w)
  unfolding find
  new_jet_stream_ordered_seam-Kept nonce w stream handle h = cc

  -- After any calls of a new seam, a stream that is ensured without an error has a cached handle, and the
  -- info of that handle has, in some state of the world, a configuration that is safe for a stream of that
  -- name.
  pub ensure_stream-Admitted :
      (nonce : Bytes) (w : W) (calls : List SeamCall) (spec : OrderedStreamSpec)
      (after : SeamState W H)
      → ensure_stream constants js spec (perform_all calls (new_jet_stream_ordered_seam nonce w))
        ≡ (ok tt, after)
      → (handle : H) × (find spec.stream after.verified_streams ≡ some handle)
        × Admitted constants js spec.stream handle
  ensure_stream-Admitted nonce w calls spec after e =
      let s : SeamState W H = perform_all calls (new_jet_stream_ordered_seam nonce w) in
      let start : KeptHere (new_jet_stream_ordered_seam nonce w) =
        new_jet_stream_ordered_seam-Kept nonce w in
      let before : KeptHere s =
        perform_all-Kept calls (new_jet_stream_ordered_seam nonce w) start in
      let kept : KeptHere after = rw e at (ensure_stream-Preserves constants js spec s before) in
      let (handle, cached) = ensure_stream-cached constants js spec s (rw e refl) in
      let there : find spec.stream after.verified_streams ≡ some handle = rw e at cached in
      (handle, there, kept spec.stream handle there)
