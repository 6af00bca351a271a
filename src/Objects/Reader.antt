-- ===== src/Objects/Reader.antt =====
-- The integrity of an object's bytes: objectChunkReader (seam.go) reports the end of an object only behind
-- exactly the declared bytes.
pub mod Ends
use natsstore.Base.{
  ℕ, zero, suc, ◌+◌, ◌-◌, ◌%◌, ◌<◌, ◌≤◌, ◌≡◌, ◌≢◌, refl, sym, ◌∙◌, ap, Bool, true, false, not, ◌&&◌,
  ◌||◌, Option, none, some, List, [], ◌∷◌, ◌++◌, length, take, drop, ltb, ◌==◌, if◌then◌else◌,
  arith, Bool-cases, Option-cases, inl, inr, length-append, length-drop, take-append-drop,
}
use mathlib.Core.List.{append_assoc, append-nil}
use natsstore.Base.Bytes.{Bytes, bytes_eq, bytes_eq_iff}
use natsstore.Base.Outcome.{Result, ok, err, Result-cases}
use natsstore.Objects.{
  ObjectError, end_of_file, file_closed, integrity, digest_mismatch, chunk_count, chunk_order,
  declared_size, ChunkMsg, ChunkMeta, Messages, ChunkReader, ReadResult, wrapping_sub, uint64_limit,
  fail_read, copy_out, finish, in_order, admitted, admit_chunk, next_error, next_chunk, fetch,
  read_open, read,
}

drop-nil : (n : ℕ) → ◌≡◌ {A = Bytes} (drop n []) []
drop-nil zero = refl
drop-nil (suc n) = refl

drop-length-take : (n : ℕ) (xs : Bytes) → drop (length (take n xs)) xs ≡ drop n xs
drop-length-take zero xs = refl
drop-length-take (suc n) [] = refl
drop-length-take (suc n) (x ∷ xs) = drop-length-take n xs

drop-drop : (a b : ℕ) (xs : Bytes) → drop (a + b) xs ≡ drop b (drop a xs)
drop-drop zero b xs = let e : zero + b ≡ b = omega arith in rw e refl
drop-drop (suc a) b [] = let e : suc a + b ≡ suc (a + b) = omega arith in rw e (sym (drop-nil b))
drop-drop (suc a) b (x ∷ xs) =
    let e : suc a + b ≡ suc (a + b) = omega arith in rw e (drop-drop a b xs)

-- What is copied out and what stays make up what there was.
copy-split :
    (room offset : ℕ) (chunk : Bytes)
    → take room (drop offset chunk) ++ drop (offset + length (take room (drop offset chunk))) chunk
      ≡ drop offset chunk
copy-split room offset chunk =
    rw
      (
        drop-drop offset (length (take room (drop offset chunk))) chunk,
        drop-length-take room (drop offset chunk),
      )
      (take-append-drop room (drop offset chunk))

drop-all : (n : ℕ) (xs : Bytes) → ltb n (length xs) ≡ false → drop n xs ≡ []
drop-all zero [] h = refl
drop-all zero (x ∷ xs) h = ground (arith, h)
drop-all (suc n) [] h = refl
drop-all (suc n) (x ∷ xs) h = drop-all n xs (ground (arith, h))

-- The test of the declared size leaves no chunk that would exceed it.
room_left :
    (declared size grown : ℕ)
    → size ≤ declared
    → declared < uint64_limit
    → ltb (wrapping_sub uint64_limit declared size) grown ≡ false
    → size + grown ≤ declared
room_left declared size grown within fits h = ground (arith, h)

-- The bytes of an object of this size and digest.
pub record Verified (sha256 : Bytes → Bytes) (size : ℕ) (digest content : Bytes) : Type 0 where
  pub whole : length content ≡ size
  pub genuine : sha256 content ≡ digest

-- Neither the consumer nor the caller's context fails with io.EOF.
pub record NeverEof {W : Type 0} (messages : Messages W) : Type 0 where
  pub next_fails : (w : W) → (messages.next w).0 ≢ err end_of_file
  pub metadata_fails :
      (w : W) (msg : ChunkMsg) → (messages.next w).0 ≡ ok msg → msg.metadata ≢ err end_of_file
  pub caller_fails : (w : W) → messages.caller_error w ≢ some end_of_file

module _ (sha256 : Bytes → Bytes) (size : ℕ) (digest : Bytes) where
  -- What was delivered and what is left of the chunk is what was hashed, within the declared size; and the
  -- end was reported only behind verified bytes.
  pub record Faithful (delivered : Bytes) (r : ChunkReader) : Type 0 where
    pub declared : r.expected_size ≡ size
    pub expects : r.expected_digest ≡ digest
    pub tail : r.hashed ≡ delivered ++ drop r.offset r.chunk
    pub sized : r.size ≡ length r.hashed
    pub within : r.size ≤ size
    pub fits : size < uint64_limit
    pub ended : r.terminal ≡ some end_of_file → Verified sha256 size digest delivered

  abbrev pub After : Bytes → ReadResult × ChunkReader → Type 0
  After delivered ((out, e), r) =
      Faithful (delivered ++ out) r × (e ≡ some end_of_file → r.terminal ≡ some end_of_file)

  pub same-After :
      (delivered : Bytes) (e : Option ObjectError) (r : ChunkReader)
      → Faithful delivered r
      → (e ≡ some end_of_file → r.terminal ≡ some end_of_file)
      → After delivered (([], e), r)
  same-After delivered e r f h = (rw (append-nil delivered) f, h)

  pub fail_read-After :
      (delivered : Bytes) (e : ObjectError) (r : ChunkReader)
      → Faithful delivered r
      → (e ≡ end_of_file → Verified sha256 size digest delivered)
      → After delivered (fail_read e r)
  fail_read-After delivered e r f h =
      same-After delivered (some e) (record r { terminal = some e })
        (record {
          declared = f.declared;
          expects = f.expects;
          tail = f.tail;
          sized = f.sized;
          within = f.within;
          fits = f.fits;
          ended = λ t. h (cc t);
        })
        (λ t. t)

  pub copy_out-After :
      (delivered : Bytes) (room : ℕ) (r : ChunkReader)
      → Faithful delivered r
      → r.terminal ≡ none
      → After delivered (copy_out room r)
  copy_out-After delivered room r f live =
      let out : Bytes = take room (drop r.offset r.chunk) in
      let moved : r.hashed ≡ (delivered ++ out) ++ drop (r.offset + length out) r.chunk =
        f.tail
        ∙ (ap (λ t. delivered ++ t) (sym (copy-split room r.offset r.chunk))
            ∙ sym (append_assoc delivered out (drop (r.offset + length out) r.chunk))) in
      (
        record {
          declared = f.declared;
          expects = f.expects;
          tail = moved;
          sized = f.sized;
          within = f.within;
          fits = f.fits;
          ended = λ t. cc (t, live);
        },
        λ t. cc t,
      )

  pub finish-After :
      (delivered : Bytes) (r : ChunkReader)
      → Faithful delivered r
      → ltb r.offset (length r.chunk) ≡ false
      → After delivered (finish sha256 r)
  unfolding finish
  finish-After delivered r f behind =
      let all : r.hashed ≡ delivered =
        f.tail
        ∙ (ap (λ t. delivered ++ t) (drop-all r.offset r.chunk behind) ∙ append-nil delivered) in
      elim (Bool-cases (not (r.chunks == r.expected_chunks) || not (r.size == r.expected_size))) [
        | inl e ↦ rw (finish, e) (fail_read-After delivered (integrity chunk_count) r f (λ t. cc t))
        | inr e ↦ elim (Bool-cases (not (bytes_eq (sha256 r.hashed) r.expected_digest))) [
          | inl g ↦ rw (finish, e, g) (fail_read-After delivered digest_mismatch r f (λ t. cc t))
          | inr g ↦
              let counted : r.size ≡ r.expected_size = ground (arith, e) in
              let same : sha256 r.hashed ≡ r.expected_digest =
                ground (arith, g, bytes_eq_iff (sha256 r.hashed) r.expected_digest) in
              let verified : Verified sha256 size digest delivered = record {
                whole = ap length (sym all) ∙ (sym (f.sized) ∙ (counted ∙ f.declared));
                genuine = ap sha256 (sym all) ∙ (same ∙ f.expects);
              } in
              rw (finish, e, g) (fail_read-After delivered end_of_file r f (λ _. verified))
        ]
      ]

  pub admit_chunk-After :
      (delivered : Bytes) (room : ℕ) (r : ChunkReader) (msg : ChunkMsg)
      → Faithful delivered r
      → r.terminal ≡ none
      → ltb r.offset (length r.chunk) ≡ false
      → msg.metadata ≢ err end_of_file
      → After delivered (admit_chunk room r msg)
  unfolding admit_chunk
  admit_chunk-After delivered room r msg f live behind no_eof = elim (Result-cases (msg.metadata)) [
    | inr (x, e) ↦
        rw (admit_chunk, e)
          (fail_read-After delivered x r f (λ t. absurd (no_eof (e ∙ ap (λ y. err y) t))))
    | inl (meta, e) ↦ elim (Bool-cases (not (in_order r msg meta))) [
      | inl g ↦
          rw (admit_chunk, e, g) (fail_read-After delivered (integrity chunk_order) r f (λ t. cc t))
      | inr g ↦
          elim (Bool-cases
            (ltb (wrapping_sub uint64_limit r.expected_size r.size) (length msg.payload))) [
              | inl k ↦
                  rw (admit_chunk, e, g, k)
                    (fail_read-After delivered (integrity declared_size) r f (λ t. cc t))
              | inr k ↦
                  rw (admit_chunk, e, g, k)
                    (copy_out-After delivered room (admitted r msg meta) (grown meta k) live)
            ]
    ]
  ]
    where
      all : r.hashed ≡ delivered
      all =
          f.tail
          ∙ (ap (λ t. delivered ++ t) (drop-all r.offset r.chunk behind) ∙ append-nil delivered)

      fitting :
          (meta : ChunkMeta)
          → ltb (wrapping_sub uint64_limit r.expected_size r.size) (length msg.payload) ≡ false
          → r.size + length msg.payload ≤ size
      fitting meta k =
          room_left size r.size (length msg.payload) (f.within) (f.fits) (rw (f.declared) at k)

      grown :
          (meta : ChunkMeta)
          → ltb (wrapping_sub uint64_limit r.expected_size r.size) (length msg.payload) ≡ false
          → Faithful delivered (admitted r msg meta)
      grown meta k = record {
        declared = f.declared;
        expects = f.expects;
        tail = ap (λ t. t ++ msg.payload) all;
        sized = omega (arith, fitting meta k, f.fits, f.sized, length-append r.hashed msg.payload);
        within = omega (arith, fitting meta k, f.fits);
        fits = f.fits;
        ended = λ t. cc (t, live);
      }
