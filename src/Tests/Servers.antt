-- ===== src/Tests/Servers.antt =====
-- A server in memory for the tests: it commits fenced messages or refuses them, and two records that its
-- clients can encode.
use natsstore.Base.{
  ℕ, suc, ◌<◌, ◌≡◌, ◌≢◌, refl, sym, Bool, true, false, ◌&&◌, Option, none, some, List, [], ◌∷◌, All,
  ◌==◌, if◌then◌else◌, Bool-cases, Option-cases, inl, inr, arith, ap, ◌∙◌, &&-eq-true,
}
use natsstore.Base.Bytes.{Bytes, bytes, bytes_eq, bytes_eq_iff, bytes_eq_refl}
use natsstore.Base.Outcome.{Result, ok, err, pure}
use natsstore.Ordered.Record.{OrderedRecord, ordered_record_equal}
use natsstore.Ordered.Errors.{OrderedError, precondition}
use natsstore.Ordered.Libraries.{Encodings, OrderedPayload}
use natsstore.Ordered.Codec.{payload_of, record_of}
use natsstore.Ordered.Store.{OrderedMsg, OrderedSeam, OrderedStore, NoValue, first_record, updated}
use natsstore.Ordered.Store.Allocated.{ordered_record_equal-eq}
use natsstore.Ordered.Seam.Batch.{repeated_subject}
use natsstore.Ordered.Seam.Batch.Acknowledged.{Distinct, repeated_subject-Distinct}
use natsstore.Ordered.History.{Log, Fenced, start}
use natsstore.Ordered.History.Lawful.{Lawful, Sent, committed, not_committed}
use natsstore.Tests.{storage, enc, some_id, some_record}

abbrev pub Heads : Type 0
Heads = Bytes → ℕ × Bytes

abbrev pub Fences : Heads → List OrderedMsg → Type 0
Fences v msgs = All (λ m. (v m.subject).0 ≡ m.expect_last_seq) msgs

abbrev pub Stores : Heads → List OrderedMsg → Heads → Type 0
Stores v msgs w =
    All (λ m. ((w m.subject).1 ≡ m.payload) × ((v m.subject).0 < (w m.subject).0)) msgs

abbrev pub Keeps : Heads → List OrderedMsg → Heads → Type 0
Keeps v msgs w = (subject : Bytes) → All (λ m. m.subject ≢ subject) msgs → w subject ≡ v subject

abbrev pub memory : Log Heads
memory = record {
  head = λ w subject. w subject;
  Commits = λ v msgs w. Fences v msgs × (Stores v msgs w × Keeps v msgs w);
}

pub memory-Fenced : Fenced memory
memory-Fenced = record {
  expected = λ v w msgs c. c.0;
  stored = λ v w msgs c. c.1.0;
  others_kept = λ v w msgs subject c other. c.1.1 subject other;
}

-- The message of a batch that names a subject.
unfoldable pub message_for : Bytes → List OrderedMsg → Option OrderedMsg
message_for subject [] = none
message_for subject (m ∷ msgs) =
    if bytes_eq m.subject subject then some m else message_for subject msgs

unfoldable pub fences_hold : Heads → List OrderedMsg → Bool
fences_hold w [] = true
fences_hold w (m ∷ msgs) = (w m.subject).0 == m.expect_last_seq && fences_hold w msgs

abbrev pub write : List OrderedMsg → Heads → Heads
write msgs w subject = elim (message_for subject msgs) [
  | none ↦ w subject
  | some m ↦ (suc (w subject).0, m.payload)
]

abbrev pub send : List OrderedMsg → Heads → Result OrderedError NoValue × Heads
send msgs w = elim (repeated_subject [] msgs) [
  | some subject ↦ (err precondition, w)
  | none ↦ if fences_hold w msgs then (ok tt, write msgs w) else (err precondition, w)
]

fences_hold-Fences :
    (w : Heads) (msgs : List OrderedMsg) → fences_hold w msgs ≡ true → Fences w msgs
unfolding fences_hold
fences_hold-Fences w [] h = tt
fences_hold-Fences w (m ∷ msgs) h =
    let (here, rest) = &&-eq-true ((w m.subject).0 == m.expect_last_seq) (fences_hold w msgs) h in
    (ground (arith, here), fences_hold-Fences w msgs rest)

abbrev Named : List OrderedMsg → List OrderedMsg → Type 0
Named whole msgs = All (λ m. message_for m.subject whole ≡ some m) msgs

Named-behind :
    (m : OrderedMsg) (whole msgs : List OrderedMsg)
    → All (λ n. n.subject ≢ m.subject) msgs
    → Named whole msgs
    → Named (m ∷ whole) msgs
unfolding message_for
Named-behind m whole [] differ named = tt
Named-behind m whole (n ∷ msgs) (other, differ) (here, named) = (
  ground (arith, bytes_eq_iff m.subject n.subject, other, here),
  Named-behind m whole msgs differ named,
)

Distinct-Named : (msgs : List OrderedMsg) → Distinct msgs → Named msgs msgs
unfolding message_for
Distinct-Named [] h = tt
Distinct-Named (m ∷ msgs) (differ, rest) = (
  ground (arith, bytes_eq_refl m.subject),
  Named-behind m msgs msgs differ (Distinct-Named msgs rest),
)

write-Stores :
    (whole msgs : List OrderedMsg) (w : Heads) → Named whole msgs → Stores w msgs (write whole w)
write-Stores whole [] w h = tt
write-Stores whole (m ∷ msgs) w (here, rest) =
    ((rw (write, here) refl, rw (write, here) (omega arith)), write-Stores whole msgs w rest)

unnamed :
    (subject : Bytes) (msgs : List OrderedMsg)
    → All (λ m. m.subject ≢ subject) msgs
    → message_for subject msgs ≡ none
unfolding message_for
unnamed subject [] h = refl
unnamed subject (m ∷ msgs) (other, rest) =
    ground (arith, bytes_eq_iff m.subject subject, other, unnamed subject msgs rest)

write-Keeps : (msgs : List OrderedMsg) (w : Heads) → Keeps w msgs (write msgs w)
write-Keeps msgs w subject h = rw (write, unnamed subject msgs h) refl

-- Encodings of two records, as `A` and as `B`.
unfoldable pub is_payload : OrderedRecord → OrderedPayload → Bool
is_payload rec p = p.version == 1 && ordered_record_equal (record_of p) rec

is_payload-eq :
    (rec : OrderedRecord) (p : OrderedPayload) → is_payload rec p ≡ true → p ≡ payload_of rec
unfolding is_payload
is_payload-eq rec p h =
    let version : p.version ≡ 1 = ground (arith, h) in
    let same : record_of p ≡ rec = ordered_record_equal-eq (record_of p) rec (ground (arith, h)) in
    let whole : p ≡ payload_of (record_of p) =
      ap (λ n. record (payload_of (record_of p)) { version = n }) version in
    whole ∙ ap payload_of same

abbrev pub first_version : OrderedRecord
first_version = first_record some_id (bytes "q") (bytes "v") some_record.rank some_record.due 1

abbrev pub second_version : OrderedRecord
second_version = updated first_version (bytes "w") some_record.rank some_record.due

abbrev pub two_versions : Encodings
two_versions = record enc {
  marshal_record = λ p.
      if is_payload first_version p
      then some (bytes "A")
      else if is_payload second_version p
      then some (bytes "B")
      else none;
  decode_record_json = λ b.
      if bytes_eq b (bytes "A")
      then some (payload_of first_version, false)
      else if bytes_eq b (bytes "B")
      then some (payload_of second_version, false)
      else none;
}

pub two_versions_json :
    (p : OrderedPayload) (text : Bytes)
    → two_versions.marshal_record p ≡ some text
    → two_versions.decode_record_json text ≡ some (p, false)
unfolding bytes_eq
two_versions_json p text h = elim (Bool-cases (is_payload first_version p)) [
  | inl e ↦
      let q : bytes "A" ≡ text = cc (rw e at h) in
      rw (← q) (ap (λ x. some (x, false)) (sym (is_payload-eq first_version p e)))
  | inr e ↦ elim (Bool-cases (is_payload second_version p)) [
    | inl f ↦
        let q : bytes "B" ≡ text = cc (rw (e, f) at h) in
        rw (← q) (ap (λ x. some (x, false)) (sym (is_payload-eq second_version p f)))
    | inr f ↦ cc (rw (e, f) at h)
  ]
]

send-Sent :
    (msgs : List OrderedMsg) (w : Heads)
    → Sent storage two_versions memory w msgs (send msgs w).0 (send msgs w).1
send-Sent msgs w = elim (Option-cases (repeated_subject [] msgs)) [
  | inr (subject, e) ↦ rw (send, e) (not_committed (λ h. cc h) start)
  | inl e ↦ elim (Bool-cases (fences_hold w msgs)) [
    | inr f ↦ rw (send, e, f) (not_committed (λ h. cc h) start)
    | inl f ↦
        let distinct : Distinct msgs = (repeated_subject-Distinct [] msgs e).1 in
        let written : Stores w msgs (write msgs w) =
          write-Stores msgs msgs w (Distinct-Named msgs distinct) in
        rw (send, e, f)
          (committed w (write msgs w) start
            (fences_hold-Fences w msgs f, (written, write-Keeps msgs w)) start)
  ]
]

abbrev pub server : OrderedSeam Heads
server = record {
  ensure_stream = λ spec. pure tt;
  last_msg_for_subject = λ spec subject w. (ok (w subject), w);
  publish = λ stream m. send (m ∷ []);
  publish_batch = λ stream msgs. send msgs;
  await_token = λ key. pure tt;
  wait_before_retry = λ n. pure tt;
}

pub server-Lawful : Lawful storage two_versions memory server
server-Lawful = record {
  ensures = λ spec w. start;
  awaits = λ key w. start;
  waits = λ n w. start;
  reads = λ spec subject w. start;
  reads_head = λ spec subject w head h. (w, start, start, cc h);
  publishes = λ stream m w. send-Sent (m ∷ []) w;
  publishes_batch = λ stream msgs w. send-Sent msgs w;
}

abbrev pub fresh_heads : Heads
fresh_heads subject = (0, [])

abbrev pub fresh_store : OrderedStore Heads
fresh_store = record { latches = []; world = fresh_heads }
