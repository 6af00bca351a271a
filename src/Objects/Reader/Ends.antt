-- ===== src/Objects/Reader/Ends.antt =====
-- Any reads of an object (seam.go), up to the one that reports its end.
use natsstore.Base.{
  ℕ, ◌<◌, ◌≡◌, ◌≢◌, refl, ◌∙◌, ap, false, ◌||◌, none, some, List, [], ◌∷◌, ◌++◌, length, ltb, ◌==◌,
  arith, Bool-cases, Option-cases, inl, inr,
}
use mathlib.Core.List.{append_assoc, append-nil}
use natsstore.Base.Bytes.{Bytes}
use natsstore.Base.Outcome.{err, Result-cases}
use natsstore.Objects.{
  ObjectError, end_of_file, file_closed, Messages, ChunkReader, uint64_limit, next_error,
  next_chunk, fetch, read_open, read,
}
use natsstore.Objects.Reader.{
  Faithful, After, Verified, NeverEof, same-After, fail_read-After, copy_out-After, finish-After,
  admit_chunk-After,
}

-- The reader that `get` returns for an object with chunks, before the first read.
abbrev pub new_reader : Bytes → Bytes → ℕ → ℕ → Bytes → ChunkReader
new_reader stream subject chunks size digest = record {
  stream = stream;
  subject = subject;
  expected_chunks = chunks;
  expected_size = size;
  expected_digest = digest;
  hashed = [];
  chunk = [];
  offset = 0;
  chunks = 0;
  size = 0;
  last_stream_seq = 0;
  complete = false;
  terminal = none;
  closed = false;
}

-- Reads into buffers of these sizes: what they delivered, and the reader after them.
unfoldable pub read_all :
    {W : Type 0}
    → Messages W
    → (Bytes → Bytes)
    → List ℕ
    → ChunkReader
    → W
    → (Bytes × ChunkReader) × W
unfolding read
read_all messages sha256 [] r w = (([], r), w)
read_all messages sha256 (room ∷ rooms) r w =
    let (((out, e), r'), w') = read messages sha256 room r w in
    let ((more, r''), w'') = read_all messages sha256 rooms r' w' in ((out ++ more, r''), w'')

module _ (sha256 : Bytes → Bytes) (size : ℕ) (digest : Bytes) where
  module _ {W : Type 0} (messages : Messages W) (never : NeverEof messages) where
    next_error-ne_eof :
        (w : W) (e : ObjectError) → e ≢ end_of_file → next_error messages w e ≢ end_of_file
    next_error-ne_eof w e no_eof h = elim (Bool-cases (messages.closed_meanwhile w)) [
      | inl c ↦ cc (rw (next_error, c) at h)
      | inr c ↦ elim (Option-cases (messages.caller_error w)) [
        | inl d ↦ no_eof (rw (next_error, c, d) at h)
        | inr (x, d) ↦ never.caller_fails w (d ∙ ap (λ y. some y) (rw (next_error, c, d) at h))
      ]
    ]

    next_chunk-After :
        (delivered : Bytes) (room : ℕ) (r : ChunkReader) (w : W)
        → Faithful sha256 size digest delivered r
        → r.terminal ≡ none
        → ltb r.offset (length r.chunk) ≡ false
        → After sha256 size digest delivered (next_chunk messages room r w).0
    unfolding next_chunk
    next_chunk-After delivered room r w f live behind = elim (Result-cases (messages.next w).0) [
      | inr (x, e) ↦
          rw (next_chunk, e)
            (fail_read-After sha256 size digest delivered
              (next_error messages (messages.next w).1 x) r f
              (λ t. absurd (
                next_error-ne_eof (messages.next w).1 x
                  (λ y. never.next_fails w (e ∙ ap (λ z. err z) y)) t)))
      | inl (msg, e) ↦
          rw (next_chunk, e)
            (admit_chunk-After sha256 size digest delivered room r msg f live behind
              (never.metadata_fails w msg e))
    ]

    read-After :
        (delivered : Bytes) (room : ℕ) (r : ChunkReader) (w : W)
        → Faithful sha256 size digest delivered r
        → After sha256 size digest delivered (read messages sha256 room r w).0
    unfolding read
    read-After delivered room r w f = elim (Bool-cases r.closed) [
      | inl c ↦
          simp (read, c)
            (same-After sha256 size digest delivered (some file_closed) r f (λ t. cc t))
      | inr c ↦ elim (Option-cases r.terminal) [
        | inr (e, t) ↦
            rw (read, c, t) (same-After sha256 size digest delivered (some e) r f (λ h. t ∙ h))
        | inl live ↦ elim (Bool-cases (room == 0)) [
          | inl z ↦
              rw (read, c, live, read_open, z)
                (same-After sha256 size digest delivered none r f (λ h. cc h))
          | inr z ↦ elim (Bool-cases (ltb r.offset (length r.chunk))) [
            | inl o ↦
                rw (read, c, live, read_open, z, o)
                  (copy_out-After sha256 size digest delivered room r f live)
            | inr o ↦ elim (Bool-cases (r.complete || r.expected_chunks == 0)) [
              | inl d ↦
                  rw (read, c, live, read_open, z, o, fetch, d)
                    (finish-After sha256 size digest delivered r f o)
              | inr d ↦
                  rw (read, c, live, read_open, z, o, fetch, d)
                    (next_chunk-After delivered room r w f live o)
            ]
          ]
        ]
      ]
    ]

    read_all-Faithful :
        (rooms : List ℕ) (delivered : Bytes) (r : ChunkReader) (w : W)
        → Faithful sha256 size digest delivered r
        → Faithful sha256 size digest
            (delivered ++ (read_all messages sha256 rooms r w).0.0)
            (read_all messages sha256 rooms r w).0.1
    unfolding read_all
    read_all-Faithful [] delivered r w f = rw (append-nil delivered) f
    read_all-Faithful (room ∷ rooms) delivered r w f =
        let one = read messages sha256 room r w in
        let (g, _) = read-After delivered room r w f in
        let all : Faithful sha256 size digest
            ((delivered ++ one.0.0.0) ++ (read_all messages sha256 rooms one.0.1 one.1).0.0)
            (read_all messages sha256 rooms one.0.1 one.1).0.1 =
          read_all-Faithful rooms (delivered ++ one.0.0.0) one.0.1 one.1 g in
        rw (append_assoc delivered one.0.0.0 (read_all messages sha256 rooms one.0.1 one.1).0.0) at
          all

    -- When a read of a new reader reports the end of the object, after any other reads into buffers of any
    -- sizes, then all the bytes that were delivered are as many as the object declares and have its digest;
    -- neither the consumer nor the caller's context may fail with io.EOF of their own.
    pub read_all-Verified :
        (stream subject : Bytes) (chunks : ℕ) (rooms : List ℕ) (room : ℕ) (w w' : W)
        (delivered out : Bytes) (r r' : ChunkReader)
        → size < uint64_limit
        → (read_all messages sha256 rooms (new_reader stream subject chunks size digest) w)
          ≡ ((delivered, r), w')
        → (read messages sha256 room r w').0 ≡ ((out, some end_of_file), r')
        → Verified sha256 size digest (delivered ++ out)
    read_all-Verified stream subject chunks rooms room w w' delivered out r r' small before last =
        let fresh : Faithful sha256 size digest [] (new_reader stream subject chunks size digest) =
          record {
            declared = refl;
            expects = refl;
            tail = refl;
            sized = refl;
            within = omega arith;
            fits = small;
            ended = λ t. cc t;
          } in
        let f : Faithful sha256 size digest delivered r =
          rw before at
            (read_all-Faithful rooms [] (new_reader stream subject chunks size digest) w fresh) in
        let (g, eof) = rw last at (read-After delivered room r w' f) in g.ended (eof refl)
