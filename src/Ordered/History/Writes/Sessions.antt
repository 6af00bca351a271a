-- ===== src/Ordered/History/Writes/Sessions.antt =====
-- What a client of an orderedStore (ordered.go) gets from its writes, on a server that other clients write
-- too: each write refines the step relation.
use natsstore.Base.{ℕ, List, [], ◌∷◌, ◌≡◌, some, false, Bool}
use natsstore.Base.Bytes.{Bytes}
use natsstore.Base.Outcome.{ok, Op, ◌>>=◌}
use natsstore.Ordered.Record.{OrderedRecord, OrderedId, Rank, Due}
use natsstore.Ordered.Errors.{OrderedError}
use natsstore.Ordered.Libraries.{Storage, Encodings, OrderedPayload}
use natsstore.Ordered.Store.{
  OrderedSeam, OrderedStore, Location, read_record, outside, create_found, create_at, create,
  update, update_found, delete, delete_found,
}
use natsstore.Ordered.History.{Log, Fenced, start, Steps-trans, Fresh}
use natsstore.Ordered.History.Unique.{WellOrdered, Steps-WellOrdered}
use natsstore.Ordered.History.Lawful.{Runs, Lawful, bind-Triple, FoundAt, read_record-Triple}
use natsstore.Ordered.History.Writes.{Returned, update_found-Triple, delete_found-Triple}
use natsstore.Ordered.History.Writes.Creates.{Answer}
use natsstore.Ordered.History.Writes.Calls.{Accounted, at_location, create_found-Triple}

-- The calls of one client that write.
pub data Write : Type 0 where
  creating : OrderedId → Bytes → Bytes → Rank → Due → Write
  updating : OrderedId → ℕ → Bytes → Rank → Due → Write
  deleting : OrderedId → ℕ → Write

module _ (storage : Storage) (enc : Encodings) {W : Type 0} (log : Log W) (fenced : Fenced log)
    (json : (p : OrderedPayload) (text : Bytes)
      → enc.marshal_record p ≡ some text
      → enc.decode_record_json text ≡ some (p, false))
    (seam : OrderedSeam W) (lawful : Lawful storage enc log seam) where
  abbrev Refines :
      {A : Type 0} → Op (OrderedStore W) OrderedError A → OrderedId → (A → OrderedRecord) → Type 0
  Refines {A} m id of =
      (s : OrderedStore W)
      → Runs storage enc log s.world (m s).1.world
        × ((a : A)
            → (m s).0 ≡ ok a
            → Accounted storage enc log fenced json seam lawful s.world id (of a) (m s).1.world)

  create-Refines :
      (id : OrderedId) (scope value : Bytes) (rank : Rank) (when : Due)
      → Refines (create storage enc seam id scope value rank when) id (λ a. a.0)
  unfolding create
  create-Refines id scope value rank when =
      at_location storage enc log fenced json seam lawful id (λ a. a.0)
        (create_at storage enc seam id scope value rank when)
        λ v at located.
          bind-Triple storage enc log (Runs storage enc log v) (λ _. Runs storage enc log v)
            (Answer storage enc log fenced json seam lawful v at)
            (outside (seam.ensure_stream at.spec)) (λ _. inspect at)
            (λ s p. (
              lawful.ensures at.spec s.world,
              λ a h. Steps-trans storage enc log v p (lawful.ensures at.spec s.world),
            ))
            (λ _.
              bind-Triple storage enc log (Runs storage enc log v)
                (FoundAt storage enc log v at.record_subject)
                (Answer storage enc log fenced json seam lawful v at)
                (read_record storage enc seam at.spec at.record_subject)
                (create_found storage enc seam at id scope value rank when)
                (read_record-Triple storage enc log seam lawful v at.spec at.record_subject)
                (λ found.
                  create_found-Triple storage enc log fenced json seam lawful v at id scope value
                    rank when found located))
    where
      inspect : Location → Op (OrderedStore W) OrderedError (OrderedRecord × Bool)
      inspect at =
          read_record storage enc seam at.spec at.record_subject
          >>= create_found storage enc seam at id scope value rank when

  update-Refines :
      (id : OrderedId) (expected : ℕ) (value : Bytes) (rank : Rank) (when : Due)
      → Refines (update storage enc seam id expected value rank when) id (λ r. r)
  unfolding update
  update-Refines id expected value rank when =
      at_location storage enc log fenced json seam lawful id (λ r. r)
        (λ at.
          read_record storage enc seam at.spec at.record_subject
          >>= update_found storage enc seam id expected value rank when at)
        (λ v at located.
          bind-Triple storage enc log (Runs storage enc log v)
            (FoundAt storage enc log v at.record_subject)
            (Returned storage enc log fenced json seam lawful v at.record_subject)
            (read_record storage enc seam at.spec at.record_subject)
            (update_found storage enc seam id expected value rank when at)
            (read_record-Triple storage enc log seam lawful v at.spec at.record_subject)
            (update_found-Triple storage enc log fenced json seam lawful v id expected value rank
              when at))

  delete-Refines :
      (id : OrderedId) (expected : ℕ) → Refines (delete storage enc seam id expected) id (λ r. r)
  unfolding delete
  delete-Refines id expected =
      at_location storage enc log fenced json seam lawful id (λ r. r)
        (λ at.
          read_record storage enc seam at.spec at.record_subject
          >>= delete_found storage enc seam id expected at)
        (λ v at located.
          bind-Triple storage enc log (Runs storage enc log v)
            (FoundAt storage enc log v at.record_subject)
            (Returned storage enc log fenced json seam lawful v at.record_subject)
            (read_record storage enc seam at.spec at.record_subject)
            (delete_found storage enc seam id expected at)
            (read_record-Triple storage enc log seam lawful v at.spec at.record_subject)
            (delete_found-Triple storage enc log fenced json seam lawful v id expected at))

  -- What Create returns without an error, new or existing, was the record of its subject at some moment
  -- between the call and the return.
  pub create-Accounted :
      (id : OrderedId) (scope value : Bytes) (rank : Rank) (when : Due) (s : OrderedStore W)
      (a : OrderedRecord × Bool)
      → (create storage enc seam id scope value rank when s).0 ≡ ok a
      → Accounted storage enc log fenced json seam lawful s.world id a.0
          (create storage enc seam id scope value rank when s).1.world
  create-Accounted id scope value rank when s a h =
      (create-Refines id scope value rank when s).1 a h

  -- What Update returns without an error was the record of its subject at some moment between the call and
  -- the return.
  pub update-Accounted :
      (id : OrderedId) (expected : ℕ) (value : Bytes) (rank : Rank) (when : Due)
      (s : OrderedStore W) (r : OrderedRecord)
      → (update storage enc seam id expected value rank when s).0 ≡ ok r
      → Accounted storage enc log fenced json seam lawful s.world id r
          (update storage enc seam id expected value rank when s).1.world
  update-Accounted id expected value rank when s r h =
      (update-Refines id expected value rank when s).1 r h

  -- What Delete returns without an error was the record of its subject at some moment between the call and
  -- the return.
  pub delete-Accounted :
      (id : OrderedId) (expected : ℕ) (s : OrderedStore W) (r : OrderedRecord)
      → (delete storage enc seam id expected s).0 ≡ ok r
      → Accounted storage enc log fenced json seam lawful s.world id r
          (delete storage enc seam id expected s).1.world
  delete-Accounted id expected s r h = (delete-Refines id expected s).1 r h

  abbrev pub perform : Write → OrderedStore W → OrderedStore W
  perform (creating id scope value rank when) s =
      (create storage enc seam id scope value rank when s).1
  perform (updating id expected value rank when) s =
      (update storage enc seam id expected value rank when s).1
  perform (deleting id expected) s = (delete storage enc seam id expected s).1

  abbrev pub perform_all : List Write → OrderedStore W → OrderedStore W
  perform_all [] s = s
  perform_all (c ∷ calls) s = perform_all calls (perform c s)

  perform-Runs : (c : Write) (s : OrderedStore W) → Runs storage enc log s.world (perform c s).world
  perform-Runs (creating id scope value rank when) s = (create-Refines id scope value rank when s).0
  perform-Runs (updating id expected value rank when) s =
      (update-Refines id expected value rank when s).0
  perform-Runs (deleting id expected) s = (delete-Refines id expected s).0

  -- Whatever writes a client performs and however they end, all that happened to the server meanwhile is a
  -- sequence of steps: commits of a next order of a scope with its first record, and commits of a next
  -- revision.
  pub perform_all-Runs :
      (calls : List Write) (s : OrderedStore W)
      → Runs storage enc log s.world (perform_all calls s).world
  perform_all-Runs [] s = start
  perform_all-Runs (c ∷ calls) s =
      Steps-trans storage enc log s.world (perform-Runs c s) (perform_all-Runs calls (perform c s))

  -- So the orders stay unique on a server that was fresh at first.
  pub perform_all-WellOrdered :
      (calls : List Write) (s : OrderedStore W)
      → Fresh storage enc log s.world
      → WellOrdered storage enc log fenced json (perform_all calls s).world
  perform_all-WellOrdered calls s fresh =
      Steps-WellOrdered storage enc log fenced json fresh (perform_all-Runs calls s)
