-- ===== src/Objects/Resolve/Sound.antt =====
-- What get (seam.go) returns a reader for.
use natsstore.Base.{◌⊎◌, ◌≡◌, ◌↔◌, true, none, some, List, length}
use natsstore.Base.Bytes.{Bytes}
use natsstore.Base.Outcome.{ok, Op}
use natsstore.Base.Runs.{Yields}
use natsstore.Objects.{ObjectError, ObjectInfo, ObjectLink, valid_object_token, ChunkReader}
use natsstore.Objects.Resolve.{
  Objects, ResolvedObjectInfo, Follow, target_of, chunk_stream, chunk_subject,
}

module _ {W S : Type 0} (objects : Objects W S) where
  -- An entry that some store has, and that is no link; its bucket can stand in a subject.
  pub record Plain (r : ResolvedObjectInfo) : Type 0 where
    pub unlinked : r.info.link ≡ none
    pub token : valid_object_token r.bucket ≡ true

  -- How a key leads to the entry that it stands for: each entry on the way was read from its store, and a link
  -- goes on in the store of its bucket.
  pub data Resolves (r : ResolvedObjectInfo) : S → Bytes → Bytes → Type 0 where
    here :
        (obj : S) (bucket key : Bytes) (w : W) (info : ObjectInfo)
        → (objects.get_info obj key w).0 ≡ ok (some info)
        → info.link ≡ none
        → r ≡ record { info = info; bucket = bucket }
        → Resolves r obj bucket key
    behind :
        (obj target : S) (bucket key : Bytes) (w w' : W) (info : ObjectInfo) (link : ObjectLink)
        → (objects.get_info obj key w).0 ≡ ok (some info)
        → info.link ≡ some link
        → (target_of objects obj bucket link.bucket w').0 ≡ ok target
        → Resolves r target link.bucket link.link_name
        → Resolves r obj bucket key

  abbrev Sound : S → Bytes → Bytes → ResolvedObjectInfo → Type 0
  Sound obj bucket key r = Plain r × Resolves r obj bucket key

  -- An answer of a store.
  abbrev Answered : {A : Type 0} → Op W ObjectError A → A → Type 0
  Answered f a = (w : W) × ((f w).0 ≡ ok a)

  abbrev AllSound : Follow objects → Type 0
  AllSound follow =
      (obj : S) (bucket key : Bytes) (seen : List Bytes)
      → valid_object_token bucket ≡ true
      → Yields (Sound obj bucket key) (follow obj bucket key seen)

  -- The reader expects what the entry declares, and takes the chunks of that entry, if it has any.
  pub record Describes (resolved : ResolvedObjectInfo) (reader : ChunkReader) : Type 0 where
    pub size : reader.expected_size ≡ resolved.info.size
    pub chunks : reader.expected_chunks ≡ resolved.info.chunks
    pub digest : objects.decode_object_digest resolved.info.digest ≡ some reader.expected_digest
    pub sha256_length : length reader.expected_digest ≡ 32
    pub empty_iff : (reader.expected_chunks ≡ 0) ↔ (reader.expected_size ≡ 0)
    pub place :
        (reader.expected_chunks ≡ 0)
        ⊎ ((reader.stream ≡ chunk_stream objects resolved.bucket)
            × (reader.subject ≡ chunk_subject objects resolved.bucket resolved.info.nuid))

  -- The key leads, from the bucket that the store's status names, to an entry that is no link, and the reader
  -- is the one that this entry describes.
  pub record Expects (obj : S) (key : Bytes) (w : W) (reader : ChunkReader) : Type 0 where
    pub bucket : Bytes
    pub named : (objects.status w).0 ≡ ok (some bucket)
    pub resolved : ResolvedObjectInfo
    pub resolves : Resolves resolved obj bucket key
    pub plain : Plain resolved
    pub describes : Describes resolved reader
