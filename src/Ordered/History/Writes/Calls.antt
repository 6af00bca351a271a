-- ===== src/Ordered/History/Writes/Calls.antt =====
-- Whole calls of Create, Update and Delete (ordered.go) beside other clients of the server.
use natsstore.Base.{
  ℕ, zero, suc, ◌+◌, ◌-◌, ◌≡◌, none, some, refl, inl, inr, Bool, Bool-cases, false, ◌==◌,
}
use natsstore.Base.Bytes.{Bytes}
use natsstore.Base.Outcome.{ok, Op, lift, ◌>>=◌, Result-cases}
use natsstore.Ordered.Record.{OrderedRecord, OrderedId, Rank, Due}
use natsstore.Ordered.Errors.{OrderedError, contention}
use natsstore.Ordered.Libraries.{Storage, Encodings, OrderedPayload}
use natsstore.Ordered.Store.{
  OrderedSeam, OrderedStore, Found, Location, create_attempt, create_loop, wait_turn, first_record,
  ordered_location, ordered_create_attempts, acquire_scope, release_scope, under_latch,
  check_candidate, create_found,
}
use natsstore.Ordered.History.{Log, Fenced, start, Steps-trans}
use natsstore.Ordered.History.Lawful.{
  Runs, Lawful, Triple, pure-Triple, fail-Triple, lift-Triple, bind-Triple, Stored, ReadAt-Stored,
  FoundAt,
}
use natsstore.Ordered.History.Writes.{Returned}
use natsstore.Ordered.History.Writes.Creates.{Answer, create_attempt-Triple}

module _ (storage : Storage) (enc : Encodings) {W : Type 0} (log : Log W) (fenced : Fenced log)
    (json : (p : OrderedPayload) (text : Bytes)
      → enc.marshal_record p ≡ some text
      → enc.decode_record_json text ≡ some (p, false))
    (seam : OrderedSeam W) (lawful : Lawful storage enc log seam) where
  -- At some moment of a run the subject of the identity held the record.
  pub record Accounted (v : W) (id : OrderedId) (rec : OrderedRecord) (w : W) : Type 0 where
    pub at : Location
    pub located : ordered_location storage enc id ≡ ok at
    pub stored : Stored storage enc log v at.record_subject rec w

  module _ (v : W) where
    abbrev Here : W → Type 0
    Here w = Runs storage enc log v w

    abbrev Of : Location → OrderedRecord × Bool → W → Type 0
    Of at a w = Answer storage enc log fenced json seam lawful v at a w

    wait_turn-Triple :
        (n : ℕ) → Triple storage enc log Here (wait_turn storage enc seam n) (λ _. Here)
    wait_turn-Triple n s p = elim (Bool-cases (n == 1)) [
      | inl e ↦ rw e (start, λ a h. p)
      | inr e ↦ rw e (
        lawful.waits (n - 1) s.world,
        λ a h. Steps-trans storage enc log v p (lawful.waits (n - 1) s.world),
      )
    ]

    create_loop-Triple :
        (at : Location) (id : OrderedId) (candidate : ℕ → OrderedRecord)
        → ((n : ℕ) → (candidate n).order ≡ n)
        → ((n : ℕ) → (candidate n).revision ≡ 1)
        → ((n : ℕ) → ordered_location storage enc (candidate n).id ≡ ok at)
        → (n left : ℕ)
        → Triple storage enc log Here (create_loop storage enc seam at candidate id n left) (Of at)
    unfolding create_loop
    create_loop-Triple at id candidate numbered first located n zero =
        fail-Triple storage enc log Here (Of at) (contention id ordered_create_attempts)
    create_loop-Triple at id candidate numbered first located n (suc left) =
        let rest = create_loop storage enc seam at candidate id (n + 1) left in
        bind-Triple storage enc log Here (λ _. Here) (Of at) (wait_turn storage enc seam n)
          (λ _. create_attempt storage enc seam at candidate id rest) (wait_turn-Triple n)
          (λ _.
            create_attempt-Triple storage enc log fenced json seam lawful v at id rest
              (create_loop-Triple at id candidate numbered first located (n + 1) left) candidate
              numbered first located)

    under_latch-Triple :
        (key : Bytes) (body : Op (OrderedStore W) OrderedError (OrderedRecord × Bool))
        (Q : OrderedRecord × Bool → W → Type 0)
        → Triple storage enc log Here body Q
        → Triple storage enc log Here (under_latch storage enc seam key body) Q
    unfolding acquire_scope release_scope
    under_latch-Triple key body Q run =
        bind-Triple storage enc log Here (λ _. Here) Q (acquire_scope storage enc seam key)
          (λ _ s. (let (r, s') = body s in (r, release_scope storage enc seam key s'))) acquire
          (λ _ s p. run s p)
      where
        acquire : Triple storage enc log Here (acquire_scope storage enc seam key) (λ _. Here)
        acquire s p = elim (Result-cases (seam.await_token key s.world).0) [
          | inl (u, e) ↦
              rw (acquire_scope, e)
                (
                  lawful.awaits key s.world,
                  λ a h. Steps-trans storage enc log v p (lawful.awaits key s.world),
                )
          | inr (x, e) ↦ rw (acquire_scope, e) (lawful.awaits key s.world, λ a h. cc h)
        ]

    pub create_found-Triple :
        (at : Location) (id : OrderedId) (scope value : Bytes) (rank : Rank) (when : Due)
        (found : Found)
        → ordered_location storage enc id ≡ ok at
        → Triple storage enc log
            (FoundAt storage enc log v at.record_subject found)
            (create_found storage enc seam at id scope value rank when found)
            (Of at)
    create_found-Triple at id scope value rank when (some (existing, seq)) located =
        pure-Triple storage enc log
          (FoundAt storage enc log v at.record_subject (some (existing, seq))) (Of at)
          (existing, false)
          (λ w (runs, read).
            (runs, ReadAt-Stored storage enc log v w at.record_subject existing seq read))
    create_found-Triple at id scope value rank when none located =
        bind-Triple storage enc log Here (λ _. Here) (Of at)
          (lift (check_candidate storage scope value when))
          (λ _. under_latch storage enc seam at.counter_subject (
            create_loop storage enc seam at (first_record id scope value rank when) id 1
              ordered_create_attempts))
          (lift-Triple storage enc log Here (λ _. Here) (check_candidate storage scope value when)
            (λ _ w _ h. h))
          (λ _.
            under_latch-Triple at.counter_subject
              (create_loop storage enc seam at (first_record id scope value rank when) id 1
                ordered_create_attempts)
              (Of at)
              (create_loop-Triple at id (first_record id scope value rank when) (λ n. refl)
                (λ n. refl) (λ n. located) 1 ordered_create_attempts))

  -- A call that locates its identity and then works at the location.
  pub at_location :
      {A : Type 0} (id : OrderedId) (of : A → OrderedRecord)
      (work : Location → Op (OrderedStore W) OrderedError A)
      → ((v : W) (at : Location)
          → ordered_location storage enc id ≡ ok at
          → Triple storage enc log
              (Runs storage enc log v)
              (work at)
              (λ a. Returned storage enc log fenced json seam lawful v at.record_subject (of a)))
      → (s : OrderedStore W)
      → Runs storage enc log s.world ((lift (ordered_location storage enc id) >>= work) s).1.world
        × ((a : A)
            → ((lift (ordered_location storage enc id) >>= work) s).0 ≡ ok a
            → Accounted s.world id
                (of a)
                ((lift (ordered_location storage enc id) >>= work) s).1.world)
  at_location id of work run s = elim (Result-cases (ordered_location storage enc id)) [
    | inl (at, e) ↦
        let (runs, post) = run s.world at e s start in
        rw (◌>>=◌, e) (runs, λ a h. record { at = at; located = e; stored = (post a h).1 })
    | inr (x, e) ↦ rw (◌>>=◌, e) (start, λ a h. cc h)
  ]
