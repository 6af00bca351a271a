-- ===== src/Tests/Histories.antt =====
-- Witnesses for the histories of the ordered store, on the server in memory.
use natsstore.Base.{◌≡◌, refl, true, List, [], ◌∷◌, if◌then◌else◌, arith}
use natsstore.Base.Bytes.{Bytes, bytes, bytes_eq, bytes_Eq}
use natsstore.Base.Outcome.{ok}
use natsstore.Subject.{encode_stream}
use natsstore.Ordered.Record.{OrderedRecord, ordered_record_equal}
use natsstore.Ordered.Codec.{
  encode_ordered_record, decode_ordered_record, ordered_record_subject, ordered_identity_token,
  ordered_namespace_prefix, ordered_stream_name, ordered_subject_filter, ordered_counter_subject,
  admit_payload, encode_ordered_counter,
}
use natsstore.Ordered.Store.{
  OrderedStore, create, create_loop, create_attempt, allocate, write_batch, settle_batch,
  read_record, ordered_location, acquire_scope, release_scope, update, commit_revision,
  settle_publish,
}
use natsstore.Ordered.History.{Holds}
use natsstore.Ordered.History.Revisions.{Follows, Steps-Follows}
use natsstore.Ordered.History.Unique.{WellOrdered, Steps-WellOrdered}
use natsstore.Ordered.History.Lawful.{Runs}
use natsstore.Ordered.History.Writes.Calls.{Accounted}
use natsstore.Ordered.History.Writes.Sessions.{
  Write, creating, updating, perform_all, perform_all-Runs, create-Accounted, update-Accounted,
}
use natsstore.Tests.{storage, some_id, some_record}
use natsstore.Tests.Servers.{
  Heads, memory, memory-Fenced, two_versions, two_versions_json, server, server-Lawful, fresh_heads,
  fresh_store, first_version, second_version, message_for, fences_hold, is_payload,
}

abbrev two_writes : List Write
two_writes =
    creating some_id (bytes "q") (bytes "v") some_record.rank some_record.due
    ∷ updating some_id 1 (bytes "w") some_record.rank some_record.due
    ∷ []

abbrev after_both : OrderedStore Heads
after_both =
    perform_all storage two_versions memory memory-Fenced two_versions_json server server-Lawful
      two_writes fresh_store

perform_all-Runs_example : Runs storage two_versions memory fresh_heads after_both.world
perform_all-Runs_example =
    perform_all-Runs storage two_versions memory memory-Fenced two_versions_json server
      server-Lawful two_writes fresh_store

Steps-WellOrdered_example :
    WellOrdered storage two_versions memory memory-Fenced two_versions_json after_both.world
Steps-WellOrdered_example =
    Steps-WellOrdered storage two_versions memory memory-Fenced two_versions_json {v = fresh_heads}
      {w = after_both.world} (λ subject. refl) perform_all-Runs_example

created_first :
    (create storage two_versions server some_id
      (bytes "q")
      (bytes "v")
      some_record.rank
      some_record.due
      fresh_store).0
    ≡ ok (first_version, true)
unfolding create create_loop create_attempt allocate write_batch settle_batch read_record
    ordered_location ordered_stream_name ordered_subject_filter ordered_namespace_prefix
    ordered_counter_subject ordered_record_subject encode_ordered_record acquire_scope release_scope
    ordered_record_equal is_payload message_for fences_hold bytes_eq encode_ordered_counter
    ordered_identity_token encode_stream
created_first = refl

create-Accounted_example :
    Accounted storage two_versions memory memory-Fenced two_versions_json server server-Lawful
      fresh_heads some_id first_version
      (create storage two_versions server some_id
        (bytes "q")
        (bytes "v")
        some_record.rank
        some_record.due
        fresh_store).1.world
create-Accounted_example =
    create-Accounted storage two_versions memory memory-Fenced two_versions_json server
      server-Lawful some_id (bytes "q") (bytes "v") some_record.rank some_record.due fresh_store
      (first_version, true) created_first

abbrev record_at : Bytes
record_at = bytes "OI.n.r.s.h"

-- The server behind the create.
abbrev one_record : Heads
one_record subject =
    if bytes_eq subject record_at
    then (1, bytes "A")
    else if bytes_eq subject (bytes "OI.n.c.s")
    then (1, bytes "1")
    else (0, [])

abbrev one_store : OrderedStore Heads
one_store = record { latches = []; world = one_record }

first_held : Holds storage two_versions memory one_record record_at first_version
unfolding decode_ordered_record admit_payload ordered_record_subject ordered_namespace_prefix
    ordered_identity_token encode_stream bytes_eq
first_held = record { present = omega arith; decoded = refl }

updated_second :
    (update storage two_versions server some_id 1
      (bytes "w")
      some_record.rank
      some_record.due
      one_store).0
    ≡ ok second_version
unfolding update read_record commit_revision settle_publish ordered_location ordered_stream_name
    ordered_subject_filter ordered_namespace_prefix ordered_counter_subject ordered_record_subject
    ordered_identity_token encode_stream encode_ordered_record decode_ordered_record admit_payload
    bytes_eq is_payload ordered_record_equal message_for fences_hold
updated_second = refl

update-Accounted_example :
    Accounted storage two_versions memory memory-Fenced two_versions_json server server-Lawful
      one_record some_id second_version
      (update storage two_versions server some_id 1
        (bytes "w")
        some_record.rank
        some_record.due
        one_store).1.world
update-Accounted_example =
    update-Accounted storage two_versions memory memory-Fenced two_versions_json server
      server-Lawful some_id 1 (bytes "w") some_record.rank some_record.due one_store second_version
      updated_second

abbrev one_update : List Write
one_update = updating some_id 1 (bytes "w") some_record.rank some_record.due ∷ []

abbrev after_update : OrderedStore Heads
after_update =
    perform_all storage two_versions memory memory-Fenced two_versions_json server server-Lawful
      one_update one_store

Steps-Follows_example :
    (next : OrderedRecord) × Holds storage two_versions memory after_update.world record_at next
    × Follows first_version next
Steps-Follows_example =
    Steps-Follows storage two_versions memory memory-Fenced two_versions_json {v = one_record}
      {w = after_update.world} record_at first_version
      (perform_all-Runs storage two_versions memory memory-Fenced two_versions_json server
        server-Lawful one_update one_store)
      first_held
