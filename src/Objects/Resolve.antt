-- ===== src/Objects/Resolve.antt =====
-- resolveObjectInfo and get (seam.go): links are followed to an object that is no link, and its chunks get a
-- reader.
pub mod Sound
use natsstore.Base.{
  ℕ, zero, suc, ◌≡◌, ◌↔◌, refl, Bool, true, false, not, ◌||◌, Option, none, some, List, [], ◌∷◌,
  ◌++◌, length, ◌==◌, if◌then◌else◌, Bool-cases, inl, inr, arith,
}
use natsstore.Base.Bytes.{Bytes, bytes, bytes_eq}
use natsstore.Base.Outcome.{Result, ok, err, Op, pure, fail, lift, ◌>>=◌}
use natsstore.Base.Runs.{Yields, bind-Yields, pure-Yields, fail-Yields, lift-Yields}
use natsstore.Faults.{NoValue}
use natsstore.Objects.{
  ObjectError, cant_get_bucket, integrity, depth_exceeded, nil_info, link_cycle, invalid_digest,
  zero_chunks, chunk_metadata, invalid_status, nil_consumer, ObjectInfo, ObjectLink,
  object_link_max_depth, valid_object_token, ChunkReader,
}
use natsstore.Objects.Reader.Ends.{new_reader}

-- Object stores `S` by their bucket, the entry of a key (nil is `none`), and the pull consumer of a subject.
pub record Objects (W S : Type 0) : Type 0 where
  pub status : Op W ObjectError (Option Bytes)
  pub get_info : S → Bytes → Op W ObjectError (Option ObjectInfo)
  pub object_store : Bytes → Op W ObjectError S
  pub decode_object_digest : Bytes → Option Bytes
  pub create_consumer : Bytes → Bytes → Op W ObjectError (Option NoValue)

pub record ResolvedObjectInfo : Type 0 where
  pub info : ObjectInfo
  pub bucket : Bytes

abbrev pub seen_before : Bytes → List Bytes → Bool
seen_before identity [] = false
seen_before identity (i ∷ seen) = bytes_eq i identity || seen_before identity seen

-- Bucket and key around a zero byte.
abbrev pub link_identity : Bytes → Bytes → Bytes
link_identity bucket key = bucket ++ (0 ∷ key)

module _ {W S : Type 0} (objects : Objects W S) where
  -- How the recursion goes on behind a link.
  abbrev pub Follow : Type 0
  Follow = S → Bytes → Bytes → List Bytes → Op W ObjectError ResolvedObjectInfo

  abbrev pub target_of : S → Bytes → Bytes → Op W ObjectError S
  target_of obj bucket other =
      if bytes_eq other bucket then pure obj else objects.object_store other

  abbrev pub is_nil : Bytes → Bool
  is_nil [] = true
  is_nil (c ∷ s) = false

  abbrev pub follow_link :
      Follow
      → S
      → Bytes
      → List Bytes
      → ObjectInfo
      → Option ObjectLink
      → Op W ObjectError ResolvedObjectInfo
  follow_link follow obj bucket seen info none = pure (record { info = info; bucket = bucket })
  follow_link follow obj bucket seen info (some link) =
      if is_nil link.link_name || not (valid_object_token link.bucket)
      then fail cant_get_bucket
      else target_of obj bucket link.bucket >>= λ target.
          follow target link.bucket link.link_name seen

  abbrev pub resolve_info :
      Follow
      → S
      → Bytes
      → Bytes
      → List Bytes
      → Option ObjectInfo
      → Op W ObjectError ResolvedObjectInfo
  resolve_info follow obj bucket key seen none = fail (integrity nil_info)
  resolve_info follow obj bucket key seen (some info) =
      if seen_before (link_identity bucket key) seen
      then fail (integrity link_cycle)
      else follow_link follow obj bucket (link_identity bucket key ∷ seen) info info.link

  -- On the links that may still be followed, `objectLinkMaxDepth` at first.
  unfoldable pub resolve_object_info :
      ℕ → S → Bytes → Bytes → List Bytes → Op W ObjectError ResolvedObjectInfo
  unfolding valid_object_token
  resolve_object_info zero obj bucket key seen = fail (integrity depth_exceeded)
  resolve_object_info (suc left) obj bucket key seen =
      objects.get_info obj key >>= resolve_info (resolve_object_info left) obj bucket key seen

  abbrev pub check_digest : Option Bytes → Result ObjectError Bytes
  check_digest none = err (integrity invalid_digest)
  check_digest (some digest) =
      if length digest == 32 then ok digest else err (integrity invalid_digest)

  -- The names of the stream and of the subject that hold the chunks.
  abbrev pub chunk_stream : Bytes → Bytes
  chunk_stream bucket = bytes "OBJ_" ++ bucket

  abbrev pub chunk_subject : Bytes → Bytes → Bytes
  chunk_subject bucket nuid = bytes "$O." ++ (bucket ++ (bytes ".C." ++ nuid))

  abbrev pub reader_at : ResolvedObjectInfo → Bytes → ChunkReader
  reader_at r digest =
      new_reader (chunk_stream r.bucket) (chunk_subject r.bucket r.info.nuid) r.info.chunks
        r.info.size digest

  abbrev pub consume : ChunkReader → Option NoValue → Op W ObjectError ChunkReader
  consume reader none = fail (integrity nil_consumer)
  consume reader (some _) = pure reader

  -- An object of no chunks needs no consumer.
  abbrev pub open_reader : ResolvedObjectInfo → Bytes → Op W ObjectError ChunkReader
  open_reader r digest =
      if r.info.chunks == 0
      then if not (r.info.size == 0)
        then fail (integrity zero_chunks)
        else pure (new_reader [] [] r.info.chunks r.info.size digest)
      else if r.info.size == 0 || not (valid_object_token r.info.nuid)
      then fail (integrity chunk_metadata)
      else objects.create_consumer (chunk_stream r.bucket) (chunk_subject r.bucket r.info.nuid)
        >>= consume (reader_at r digest)

  abbrev pub open_resolved : ResolvedObjectInfo → Op W ObjectError ChunkReader
  open_resolved r =
      lift (check_digest (objects.decode_object_digest r.info.digest)) >>= open_reader r

  abbrev pub get_from : S → Bytes → Option Bytes → Op W ObjectError ChunkReader
  get_from obj key none = fail (integrity invalid_status)
  get_from obj key (some bucket) =
      if not (valid_object_token bucket)
      then fail (integrity invalid_status)
      else resolve_object_info object_link_max_depth obj bucket key [] >>= open_resolved

  unfoldable pub get_object : S → Bytes → Op W ObjectError ChunkReader
  unfolding resolve_object_info valid_object_token
  get_object obj key = objects.status >>= get_from obj key
