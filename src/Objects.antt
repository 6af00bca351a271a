-- ===== src/Objects.antt =====
-- jetStreamObjectSeam.get of seam.go: the resolution of links and the reader of an object's chunks. The
-- object store and the pull consumer of nats.go are parameters.
pub mod Resolve
pub mod Reader
use natsstore.Base.{
  ℕ, zero, suc, ◌+◌, ◌-◌, ◌%◌, ◌<◌, Bool, true, false, not, ◌&&◌, ◌||◌, Option, none, some, List,
  [], ◌∷◌, ◌++◌, length, take, drop, ltb, leb, ◌==◌, if◌then◌else◌,
}
use natsstore.Base.Bytes.{Bytes, bytes_eq}
use natsstore.Base.Outcome.{Result, ok, err, Op}

-- Why an object is refused: the messages that wrap errObjectIntegrity.
pub data Integrity : Type 0 where
  depth_exceeded nil_info link_cycle chunk_order declared_size chunk_count invalid_digest
        zero_chunks chunk_metadata invalid_status nil_consumer :
      Integrity

-- The errors that reading an object ends with.
pub data ObjectError : Type 0 where
  object_not_found cant_get_bucket digest_mismatch end_of_file file_closed : ObjectError
  integrity : Integrity → ObjectError
  context_ended : ℕ → ObjectError
  object_fault : ℕ → ObjectError

pub record ObjectLink : Type 0 where
  pub bucket : Bytes
  pub link_name : Bytes

-- The fields of jetstream.ObjectInfo that the seam reads.
pub record ObjectInfo : Type 0 where
  pub digest : Bytes
  pub chunks : ℕ
  pub size : ℕ
  pub nuid : Bytes
  pub link : Option ObjectLink

abbrev pub object_link_max_depth : ℕ
object_link_max_depth = 32

-- A byte of a bucket's name or of a NUID.
abbrev pub token_byte : ℕ → Bool
token_byte c =
    leb b'a' c && leb c b'z'
    || (leb b'A' c && leb c b'Z' || (leb b'0' c && leb c b'9' || (c == b'_' || c == b'-')))

abbrev pub all_token_bytes : Bytes → Bool
all_token_bytes [] = true
all_token_bytes (c ∷ s) = token_byte c && all_token_bytes s

unfoldable pub valid_object_token : Bytes → Bool
valid_object_token [] = false
valid_object_token (c ∷ s) = all_token_bytes (c ∷ s)

-- A message of the pull consumer, with its metadata or the error of reading it.
pub record ChunkMeta : Type 0 where
  pub stream : Bytes
  pub stream_seq : ℕ
  pub num_pending : ℕ

pub record ChunkMsg : Type 0 where
  pub subject : Bytes
  pub metadata : Result ObjectError ChunkMeta
  pub payload : Bytes

-- Next on the messages of the consumer, and what the reader then finds of its own Close and of its caller.
pub record Messages (W : Type 0) : Type 0 where
  pub next : Op W ObjectError ChunkMsg
  pub closed_meanwhile : W → Bool
  pub caller_error : W → Option ObjectError

-- objectChunkReader in sequential use. `hashed` is what its hash was given.
pub record ChunkReader : Type 0 where
  pub stream : Bytes
  pub subject : Bytes
  pub expected_chunks : ℕ
  pub expected_size : ℕ
  pub expected_digest : Bytes
  pub hashed : Bytes
  pub chunk : Bytes
  pub offset : ℕ
  pub chunks : ℕ
  pub size : ℕ
  pub last_stream_seq : ℕ
  pub complete : Bool
  pub terminal : Option ObjectError
  pub closed : Bool

-- The bytes copied to the caller, and the error beside them.
abbrev pub ReadResult : Type 0
ReadResult = Bytes × Option ObjectError

-- Subtraction on unsigned integers with `limit` values.
abbrev pub wrapping_sub : ℕ → ℕ → ℕ → ℕ
wrapping_sub limit a b = (a + limit - b) % limit

abbrev pub uint32_limit : ℕ
uint32_limit = 4294967296

abbrev pub uint64_limit : ℕ
uint64_limit = 18446744073709551616

-- fail: the error is kept for every later read.
abbrev pub fail_read : ObjectError → ChunkReader → ReadResult × ChunkReader
fail_read e r = (([], some e), record r { terminal = some e })

-- copy(p, chunk[offset:]).
abbrev pub copy_out : ℕ → ChunkReader → ReadResult × ChunkReader
copy_out room r =
    let out = take room (drop r.offset r.chunk) in
    ((out, none), record r { offset = r.offset + length out })

module _ (sha256 : Bytes → Bytes) where
  unfoldable pub finish : ChunkReader → ReadResult × ChunkReader
  finish r =
      if not (r.chunks == r.expected_chunks) || not (r.size == r.expected_size)
      then fail_read (integrity chunk_count) r
      else if not (bytes_eq (sha256 r.hashed) r.expected_digest)
      then fail_read digest_mismatch r
      else fail_read end_of_file r

-- The chunk is the next one of the object: its subject, its stream, its place.
abbrev pub in_order : ChunkReader → ChunkMsg → ChunkMeta → Bool
in_order r msg meta =
    bytes_eq msg.subject r.subject
    && (bytes_eq meta.stream r.stream
        && (ltb r.last_stream_seq meta.stream_seq
            && meta.num_pending
              == wrapping_sub uint32_limit r.expected_chunks ((r.chunks + 1) % uint32_limit)))

abbrev pub admitted : ChunkReader → ChunkMsg → ChunkMeta → ChunkReader
admitted r msg meta = record r {
  hashed = r.hashed ++ msg.payload;
  chunk = msg.payload;
  offset = 0;
  chunks = (r.chunks + 1) % uint32_limit;
  size = (r.size + length msg.payload) % uint64_limit;
  last_stream_seq = meta.stream_seq;
  complete = (r.chunks + 1) % uint32_limit == r.expected_chunks;
}

unfoldable pub admit_chunk : ℕ → ChunkReader → ChunkMsg → ReadResult × ChunkReader
admit_chunk room r msg = elim msg.metadata [
  | err e ↦ fail_read e r
  | ok meta ↦
      if not (in_order r msg meta)
      then fail_read (integrity chunk_order) r
      else if ltb (wrapping_sub uint64_limit r.expected_size r.size) (length msg.payload)
      then fail_read (integrity declared_size) r
      else copy_out room (admitted r msg meta)
]

module _ {W : Type 0} (messages : Messages W) where
  -- The reader's own Close and its caller's context take the place of the error of Next.
  abbrev pub next_error : W → ObjectError → ObjectError
  next_error w e =
      if messages.closed_meanwhile w
      then file_closed
      else elim (messages.caller_error w) [ none ↦ e | some c ↦ c ]

  unfoldable pub next_chunk : ℕ → ChunkReader → W → (ReadResult × ChunkReader) × W
  unfolding admit_chunk
  next_chunk room r w =
      let (outcome, w') = messages.next w in
      elim outcome [
        | err e ↦ (fail_read (next_error w' e) r, w')
        | ok msg ↦ (admit_chunk room r msg, w')
      ]

  module _ (sha256 : Bytes → Bytes) where
    abbrev pub fetch : ℕ → ChunkReader → W → (ReadResult × ChunkReader) × W
    fetch room r w =
        if r.complete || r.expected_chunks == 0 then (finish sha256 r, w) else next_chunk room r w

    abbrev pub read_open : ℕ → ChunkReader → W → (ReadResult × ChunkReader) × W
    read_open room r w =
        if room == 0
        then ((([], none), r), w)
        else if ltb r.offset (length r.chunk)
        then (copy_out room r, w)
        else fetch room r w

    -- Read into a buffer of the given size.
    unfoldable pub read : ℕ → ChunkReader → W → (ReadResult × ChunkReader) × W
    unfolding finish next_chunk
    read room r w =
        if r.closed
        then ((([], some file_closed), r), w)
        else elim r.terminal [ some e ↦ ((([], some e), r), w) | none ↦ read_open room r w ]
