-- ===== src/Ordered/History.antt =====
-- The writes of every orderedStore (ordered.go) on one server, as a step relation on what the subjects hold.
pub mod Sequences
pub mod Records
pub mod Revisions
pub mod Orders
pub mod Unique
pub mod Lawful
pub mod Writes
use natsstore.Base.{ℕ, zero, ◌+◌, ◌<◌, ◌≡◌, ◌≢◌, List, [], ◌∷◌, All}
use natsstore.Base.Bytes.{Bytes}
use natsstore.Base.Outcome.{ok}
use natsstore.Ordered.Record.{OrderedRecord}
use natsstore.Ordered.Libraries.{Storage, Encodings}
use natsstore.Ordered.Codec.{max_uint64, encode_ordered_record, decode_ordered_record}
use natsstore.Ordered.Store.{OrderedMsg, Location, last_order_of, create_batch, ordered_location}

-- What the store relies on of the streams of a server, in a world `W`. The head of a subject is the sequence
-- and the payload of its last message, 0 for none. A commit of fenced messages happens only where each
-- subject's head has the sequence that its message expects; then the head of each is a later message with
-- that payload, and the other subjects keep theirs.
pub record Log (W : Type 0) : Type 1 where
  pub head : W → Bytes → ℕ × Bytes
  pub Commits : W → List OrderedMsg → W → Type 0

-- Its documented laws.
pub record Fenced {W : Type 0} (log : Log W) : Type 0 where
  pub expected :
      (v w : W) (msgs : List OrderedMsg)
      → log.Commits v msgs w
      → All (λ m. (log.head v m.subject).0 ≡ m.expect_last_seq) msgs
  pub stored :
      (v w : W) (msgs : List OrderedMsg)
      → log.Commits v msgs w
      → All
          (λ m.
            ((log.head w m.subject).1 ≡ m.payload)
            × ((log.head v m.subject).0 < (log.head w m.subject).0))
          msgs
  pub others_kept :
      (v w : W) (msgs : List OrderedMsg) (subject : Bytes)
      → log.Commits v msgs w
      → All (λ m. m.subject ≢ subject) msgs
      → log.head w subject ≡ log.head v subject

abbrev pub revision_batch : Bytes → ℕ → Bytes → List OrderedMsg
revision_batch subject seq payload =
    record { subject = subject; payload = payload; expect_last_seq = seq } ∷ []

module _ (storage : Storage) (enc : Encodings) {W : Type 0} (log : Log W) where
  -- The record that a subject holds.
  pub record Holds (w : W) (subject : Bytes) (rec : OrderedRecord) : Type 0 where
    pub present : (log.head w subject).0 ≢ 0
    pub decoded : decode_ordered_record storage enc subject (log.head w subject).1 ≡ ok rec

  -- One commit of some client: a Create, or the next revision of what the subject holds. The fences make
  -- what was read before the commit current at the commit.
  pub data Step (v w : W) : Type 0 where
    creates :
        (at : Location) (rec : OrderedRecord) (last : ℕ) (payload : Bytes)
        → ordered_location storage enc rec.id ≡ ok at
        → last_order_of (log.head v at.counter_subject) ≡ ok last
        → last ≢ max_uint64
        → rec.order ≡ last + 1
        → rec.revision ≡ 1
        → encode_ordered_record storage enc rec ≡ ok payload
        → log.Commits v (create_batch at (log.head v at.counter_subject).0 rec payload) w
        → Step v w
    revises :
        (subject : Bytes) (current next : OrderedRecord) (payload : Bytes)
        → Holds v subject current
        → next.id ≡ current.id
        → next.order ≡ current.order
        → next.ranking_scope ≡ current.ranking_scope
        → next.revision ≡ current.revision + 1
        → encode_ordered_record storage enc next ≡ ok payload
        → log.Commits v (revision_batch subject (log.head v subject).0 payload) w
        → Step v w

  -- Any number of commits.
  pub data Steps (v : W) : W → Type 0 where
    start : Steps v v
    later : {u w : W} → Steps v u → Step u w → Steps v w

  pub Steps-trans : (u : W) {v w : W} → Steps u v → Steps v w → Steps u w
  Steps-trans u first start = first
  Steps-trans u first (later more step) = later (Steps-trans u first more) step

  -- A server on which nothing was written.
  abbrev pub Fresh : W → Type 0
  Fresh w = (subject : Bytes) → (log.head w subject).0 ≡ 0
