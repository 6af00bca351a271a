-- ===== src/Tests/Readers.antt =====
-- Witnesses for reading objects: one chunk of three bytes, behind a link. The digest of a text is the text.
use natsstore.Base.{ℕ, ◌≡◌, refl, true, false, none, some, [], ◌∷◌, if◌then◌else◌, arith}
use natsstore.Base.Bytes.{Bytes, bytes, bytes_eq}
use natsstore.Base.Outcome.{ok, pure}
use natsstore.Objects.{
  ObjectInfo, ChunkMsg, Messages, ChunkReader, end_of_file, read, finish, next_chunk, admit_chunk,
}
use natsstore.Objects.Resolve.{Objects}
use natsstore.Objects.Reader.{Verified, NeverEof}
use natsstore.Objects.Reader.Ends.{new_reader, read_all, read_all-Verified}

abbrev only_chunk : ChunkMsg
only_chunk = record {
  subject = bytes "$O.B.C.N";
  metadata = ok (record { stream = bytes "OBJ_B"; stream_seq = 1; num_pending = 0 });
  payload = bytes "abc";
}

abbrev one_chunk : Messages ℕ
one_chunk = record {
  next = λ w. (ok only_chunk, w);
  closed_meanwhile = λ w. false;
  caller_error = λ w. none;
}

one_chunk-NeverEof : NeverEof one_chunk
one_chunk-NeverEof = record {
  next_fails = λ w h. cc h;
  metadata_fails = λ w msg h e. let same : only_chunk ≡ msg = cc h in cc (rw (← same) at e);
  caller_fails = λ w h. cc h;
}

abbrev at_end : ChunkReader
at_end = record (new_reader (bytes "OBJ_B") (bytes "$O.B.C.N") 1 3 (bytes "abc")) {
  hashed = bytes "abc";
  chunk = bytes "abc";
  offset = 3;
  chunks = 1;
  size = 3;
  last_stream_seq = 1;
  complete = true;
}

delivered_all :
    read_all one_chunk
      (λ b. b)
      (2 ∷ 2 ∷ [])
      (new_reader (bytes "OBJ_B") (bytes "$O.B.C.N") 1 3 (bytes "abc"))
      0
    ≡ ((bytes "abc", at_end), 0)
unfolding read_all read next_chunk admit_chunk bytes_eq
delivered_all = refl

ends :
    (read one_chunk (λ b. b) 2 at_end 0).0
    ≡ (([], some end_of_file), record at_end { terminal = some end_of_file })
unfolding read finish bytes_eq
ends = refl

read_all-Verified_example : Verified (λ b. b) 3 (bytes "abc") (bytes "abc")
read_all-Verified_example =
    read_all-Verified (λ b. b) 3 (bytes "abc") one_chunk one_chunk-NeverEof (bytes "OBJ_B")
      (bytes "$O.B.C.N") 1 (2 ∷ 2 ∷ []) 2 0 0 (bytes "abc") [] at_end
      (record at_end { terminal = some end_of_file }) (omega arith) delivered_all ends

abbrev digest_text : Bytes
digest_text = bytes "00000000000000000000000000000000"

abbrev plain_info : ObjectInfo
plain_info = record { digest = digest_text; chunks = 1; size = 3; nuid = bytes "N"; link = none }

abbrev linked_info : ObjectInfo
linked_info = record plain_info {
  link = some (record { bucket = bytes "C"; link_name = bytes "b" });
}

abbrev two_buckets : Objects ℕ Bytes
two_buckets = record {
  status = pure (some (bytes "B"));
  get_info =
      λ store key. pure (some (if bytes_eq key (bytes "b") then plain_info else linked_info));
  object_store = λ bucket. pure bucket;
  decode_object_digest = λ d. some d;
  create_consumer = λ stream subject. pure (some tt);
}

abbrev linked_reader : ChunkReader
linked_reader = new_reader (bytes "OBJ_C") (bytes "$O.C.C.N") 1 3 digest_text
