-- ===== src/Lib.antt =====
-- A model of natsstore, a storage provider over NATS JetStream, and what is proved of it. Paths are from
-- the repository's root.
--
-- The program is a package of stores. The ordered index (ordered.go, ordered_codec.go) keeps records under
-- subjects of a stream: the writes fence each message on the sequence that they read, and the listings run
-- on a view that folds the stream's messages into sorted indexes. The unordered stores (kv.go, blobs.go,
-- ledger.go, lease.go) translate a backend's outcomes into the errors of package storage. Names become
-- stream names and subjects by the encodings of subject.go.
--
--   Base       numbers, lists, byte strings, decimal digits, maps, Go's results and operations on a state
--   Subject    subject.go: encodeSubject, encodeStream, decodeStream and the four functions on names
--   Ordered    the ordered index
--     Record     the records and the two frozen sort keys, orderedRecordEqual
--     Errors     the errors, with the seam's two sentinels
--     Libraries  package storage's checks and constants, and json, base64, sha256, as parameters
--     Codec      ordered_codec.go: subjects, payloads, counters; Codec/Cursor its continuation tokens
--     Index      sorted slices and the binary search that the view's four searches share
--     View       orderedView: its indexes, applyMessage, applyRecord, advance and setFatal
--     View/Barrier  waitBarrier, over the views at the moments of its wait and their broadcasts
--     View/Page  ListOrdered, ListRanked and ListDue with their cursors
--     Registry   the views of an orderedStore: acquireView, readyView, evictRepairableFatal and Close
--     Store      orderedStore: Get, Create, Update, Delete, commitRevision; Store/Latches acquireScope
--     History    the writes of any number of orderedStores on one server, as a step relation
--     Seam       ordered_seam.go: the configuration of a stream and its verification, the cache of verified
--                handles, reads, publish and publishBatch; nats.go is a parameter (Seam/Client)
--   Faults     the backend's faults of the unordered stores, isWrongLastSequence and isAmbiguous
--   Listing    sortedDedupFiltered (kv.go), which the key-value and the blob store share
--   Kv         kvStore
--   Blobs      blobStore and blobLifecycleReader
--   Ledger     ledgerStore and ledgerCursor
--   Lease      leaserStore and kvLease: Acquire, renew, the heartbeat and Release
--   Objects    jetStreamObjectSeam.get of seam.go: resolveObjectInfo and objectChunkReader
--   Tests      test data, and a witness for each theorem that has hypotheses
--
-- An operation of Go with an error result is a function from a state to a result and the next state, so
-- that what it did before it failed stays done. The backend is a record of such operations on a world that
-- is a parameter; it may answer anything and change the world in any way, which covers other clients. A Go
-- map is an association list, a string a list of bytes, and an int64 an integer that is only stored and
-- compared. Go's uint64 orders and revisions are natural numbers, with the code's own tests before each
-- increment; ledger sequences and lease epochs wrap around as uint64 does. An index or slice out of range
-- is an error of its own.
--
-- Every loop is structural. The binary search runs on the length of the slice as fuel, which suffices since
-- each step halves the interval; Create runs on the 64 attempts that the code allows; the heartbeat runs on
-- the number of its ticks.
--
-- In Ordered/History the server is a log: fenced commits move the heads of subjects to later sequences. A
-- seam is lawful if a read answers with a head of its subject at some moment of the call, and a publish that
-- succeeds committed its messages between the commits of other clients.
--
-- Not modelled: watchStream of ordered_seam.go, the rest of seam.go, the embedded server, the store lock
-- and the composition root; the subscription goroutine of a view; waiting and time-outs,
-- which are outcomes of the seam; the concurrency of the lease's heartbeat with Release; and what other
-- calls do to the scope latches while a Create waits for its token.
pub mod Base
pub mod Subject
pub mod Ordered
pub mod Faults
pub mod Listing
pub mod Kv
pub mod Blobs
pub mod Ledger
pub mod Lease
pub mod Objects
pub mod Tests
