-- ===== src/Ordered/Seam/Streams.antt =====
-- The streams of the ordered seam: the cache of verified handles, ensureStream, lastMsgForSubject,
-- freshStream and streamTip.
pub mod Admitted
use natsstore.Base.{ℕ, Bool, true, false, Option, none, some, [], if◌then◌else◌}
use natsstore.Base.Bytes.{Bytes, bytes_Eq}
use natsstore.Base.Dict.{find, put}
use natsstore.Base.Outcome.{
  Result, ok, err, Op, pure, fail, lift, with_outcome, map_err, ◌>>=◌, ◌>>◌,
}
use natsstore.Ordered.Errors.{
  OrderedError, StreamOp, stream_op, ensure_op, info_op, lookup_op, get_last_op,
}
use natsstore.Ordered.Store.{OrderedStreamSpec, NoValue}
use natsstore.Ordered.Seam.Config.{
  Constants, StreamConfig, ordered_stream_config, verify_ordered_stream_config,
}
use natsstore.Ordered.Seam.Client.{
  ClientError, stream_not_found, stream_name_in_use, msg_not_found, JetStream, SeamState, calling,
}

module _ {W H : Type 0} where
  abbrev pub cached_verified_stream : Bytes → SeamState W H → Option H
  cached_verified_stream name s = find name s.verified_streams

  abbrev pub cache_verified_stream : Bytes → H → Op (SeamState W H) OrderedError NoValue
  cache_verified_stream name handle s =
      (ok tt, record s { verified_streams = put name handle s.verified_streams })

module _ (constants : Constants) {W H : Type 0} (js : JetStream W H) where
  unfoldable pub verify_and_cache_stream :
      OrderedStreamSpec → H → Op (SeamState W H) OrderedError NoValue
  unfolding put
  verify_and_cache_stream spec handle = calling spec.stream info_op (js.info handle) >>= λ cfg.
      lift (verify_ordered_stream_config constants spec cfg)
      >> cache_verified_stream spec.stream handle

  -- A concurrent creator won: whatever is there is looked up again.
  abbrev pub adopt_winner : OrderedStreamSpec → Result ClientError H → Op W ClientError H
  adopt_winner spec (ok handle) = pure handle
  adopt_winner spec (err e) = if e.matches stream_name_in_use then js.stream spec.stream else fail e

  abbrev pub create_missing : OrderedStreamSpec → Result ClientError H → Op W ClientError H
  create_missing spec (ok handle) = pure handle
  create_missing spec (err e) =
      if e.matches stream_not_found
      then with_outcome (js.create_stream (ordered_stream_config constants spec))
          (adopt_winner spec)
      else fail e

  unfoldable pub find_or_create : OrderedStreamSpec → Op W ClientError H
  find_or_create spec = with_outcome (js.stream spec.stream) (create_missing spec)

  unfoldable pub ensure_stream : OrderedStreamSpec → Op (SeamState W H) OrderedError NoValue
  unfolding find verify_and_cache_stream find_or_create
  ensure_stream spec s = elim (cached_verified_stream spec.stream s) [
    | some handle ↦ (ok tt, s)
    | none ↦
        (calling spec.stream ensure_op (find_or_create spec) >>= verify_and_cache_stream spec) s
  ]

  -- An absent stream is no failure.
  abbrev pub absent_as_none : Result ClientError H → Op W ClientError (Option H)
  absent_as_none (ok handle) = pure (some handle)
  absent_as_none (err e) = if e.matches stream_not_found then pure none else fail e

  unfoldable pub fresh_stream : Bytes → Op (SeamState W H) OrderedError (Option H)
  fresh_stream name = calling name lookup_op (with_outcome (js.stream name) absent_as_none)

  abbrev pub verify_found :
      OrderedStreamSpec → Option H → Op (SeamState W H) OrderedError (Option H)
  verify_found spec none = pure none
  verify_found spec (some handle) = verify_and_cache_stream spec handle >> pure (some handle)

  -- The handle that a read uses: a cached one, or one that is verified now.
  unfoldable pub read_handle : OrderedStreamSpec → Op (SeamState W H) OrderedError (Option H)
  unfolding find verify_and_cache_stream fresh_stream
  read_handle spec s = elim (cached_verified_stream spec.stream s) [
    | some handle ↦ (ok (some handle), s)
    | none ↦ (fresh_stream spec.stream >>= verify_found spec) s
  ]

  -- Sequence 0 stands for a subject that holds no message.
  abbrev pub absent_as_zero : Result ClientError (ℕ × Bytes) → Op W ClientError (ℕ × Bytes)
  absent_as_zero (ok head) = pure head
  absent_as_zero (err e) = if e.matches msg_not_found then pure (0, []) else fail e

  abbrev pub last_msg_of :
      OrderedStreamSpec → Bytes → Option H → Op (SeamState W H) OrderedError (ℕ × Bytes)
  last_msg_of spec subject none = pure (0, [])
  last_msg_of spec subject (some handle) =
      calling spec.stream get_last_op
        (with_outcome (js.get_last_msg_for_subject handle subject) absent_as_zero)

  unfoldable pub last_msg_for_subject :
      OrderedStreamSpec → Bytes → Op (SeamState W H) OrderedError (ℕ × Bytes)
  unfolding read_handle
  last_msg_for_subject spec subject = read_handle spec >>= last_msg_of spec subject

  abbrev pub tip_of : Bytes → Option H → Result OrderedError ℕ
  tip_of name none = ok 0
  tip_of name (some handle) = elim (js.cached_info handle) [
    | none ↦ err (stream_op name info_op)
    | some (cfg, last_seq) ↦ ok last_seq
  ]

  unfoldable pub stream_tip : Bytes → Op (SeamState W H) OrderedError ℕ
  unfolding fresh_stream
  stream_tip name = fresh_stream name >>= λ found. lift (tip_of name found)
