-- ===== src/Tests/Writes.antt =====
-- Witnesses for the writes of the ordered store. The world is what the server answers for a subject.
use natsstore.Base.{ℕ, ◌≡◌, refl, [], some}
use natsstore.Base.Bytes.{Bytes, bytes, bytes_eq, bytes_Eq}
use natsstore.Base.Dict.{find}
use natsstore.Base.Outcome.{ok, pure}
use natsstore.Subject.{encode_stream}
use natsstore.Ordered.Record.{OrderedRecord}
use natsstore.Ordered.Codec.{
  encode_ordered_record, decode_ordered_record, ordered_record_subject, ordered_identity_token,
  ordered_namespace_prefix, ordered_stream_name, ordered_subject_filter, ordered_counter_subject,
  admit_payload,
}
use natsstore.Ordered.Store.{
  OrderedSeam, OrderedStore, create, read_record, ordered_location, update, delete, commit_revision,
  settle_publish, updated, tombstone,
}
use natsstore.Ordered.Libraries.{Encodings}
use natsstore.Ordered.Store.Latches.{WellCounted, Restored}
use natsstore.Ordered.Store.Allocated.{Allocated}
use natsstore.Ordered.Store.Outcomes.{IsUpdate, IsDelete, update-ok, delete-ok}
use natsstore.Ordered.Store.Released.{create-Restored}
use natsstore.Tests.{storage, enc, some_record, some_id}

-- A server whose subjects hold what the world says, and that accepts each write.
abbrev seam : OrderedSeam (ℕ × Bytes)
seam = record {
  ensure_stream = λ spec. pure tt;
  last_msg_for_subject = λ spec subject w. (ok w, w);
  publish = λ stream m. pure tt;
  publish_batch = λ stream ms. pure tt;
  await_token = λ key. pure tt;
  wait_before_retry = λ n. pure tt;
}

abbrev empty_store : OrderedStore (ℕ × Bytes)
empty_store = record { latches = []; world = (0, []) }

-- The store on a server that holds the record under sequence 5.
abbrev full_store : OrderedStore (ℕ × Bytes)
full_store = record { latches = []; world = (5, bytes "R") }

abbrev first : OrderedRecord
first = record some_record { revision = 1; order = 1 }

-- Encodings that write any record.
abbrev open_enc : Encodings
open_enc = record enc { marshal_record = λ p. some (bytes "W") }

nothing_counted : WellCounted []
unfolding find
nothing_counted j l h = cc h

create-Restored_example : Restored (find (bytes "x") []) (
    find
      (bytes "x")
      (create storage open_enc seam some_id
        (bytes "q")
        (bytes "v")
        first.rank
        first.due
        empty_store).1.latches)
create-Restored_example =
    create-Restored storage open_enc seam some_id (bytes "q") (bytes "v") first.rank first.due
      empty_store (bytes "x") nothing_counted

abbrev revised : OrderedRecord
revised = updated some_record (bytes "w") first.rank first.due

updated_full :
    (update storage open_enc seam some_id 3 (bytes "w") first.rank first.due full_store).0
    ≡ ok revised
unfolding update commit_revision settle_publish read_record decode_ordered_record admit_payload
    ordered_location ordered_stream_name ordered_subject_filter ordered_namespace_prefix
    ordered_counter_subject ordered_record_subject ordered_identity_token encode_ordered_record
    encode_stream bytes_eq
updated_full = refl

update-ok_example :
    IsUpdate storage open_enc seam some_id 3 (bytes "w") first.rank first.due full_store revised
update-ok_example =
    update-ok storage open_enc seam some_id 3 (bytes "w") first.rank first.due full_store revised
      updated_full

deleted_full :
    (delete storage open_enc seam some_id 3 full_store).0 ≡ ok (tombstone storage some_record)
unfolding delete commit_revision settle_publish read_record decode_ordered_record admit_payload
    ordered_location ordered_stream_name ordered_subject_filter ordered_namespace_prefix
    ordered_counter_subject ordered_record_subject ordered_identity_token encode_ordered_record
    encode_stream bytes_eq
deleted_full = refl

delete-ok_example :
    IsDelete storage open_enc seam some_id 3 full_store (tombstone storage some_record)
delete-ok_example =
    delete-ok storage open_enc seam some_id 3 full_store (tombstone storage some_record)
      deleted_full
