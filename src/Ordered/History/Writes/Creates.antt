-- ===== src/Ordered/History/Writes/Creates.antt =====
-- Create (ordered.go) beside other clients.
use natsstore.Base.{
  ℕ, ◌+◌, ◌≡◌, ◌≢◌, none, some, refl, sym, ◌∙◌, ap, inl, inr, Bool, Bool-cases, true, false, ◌==◌,
  arith,
}
use natsstore.Base.Bytes.{Bytes}
use natsstore.Base.Outcome.{Result, ok, err, Op, lift}
use natsstore.Ordered.Record.{OrderedRecord, OrderedId, ordered_record_equal}
use natsstore.Ordered.Errors.{OrderedError, is_precondition, is_ambiguous, order_exhausted}
use natsstore.Ordered.Libraries.{Storage, Encodings, OrderedPayload}
use natsstore.Ordered.Codec.{encode_ordered_record, max_uint64}
use natsstore.Ordered.Store.{
  OrderedSeam, OrderedStore, NoValue, Found, Location, read_record, outside, attempt,
  settle_ambiguous, settle_lost, settle_batch, write_batch, allocate, from_counter, create_attempt,
  create_batch, last_order_of, ordered_location,
}
use natsstore.Ordered.History.{Log, Fenced, Step, creates, later, Steps-trans}
use natsstore.Ordered.History.Sequences.{Steps-current}
use natsstore.Ordered.History.Orders.{created-Holds}
use natsstore.Ordered.History.Lawful.{
  Runs, Sent, committed, not_committed, Lawful, Triple, pure-Triple, fail-Triple, lift-Triple,
  bind-Triple, HeadAt, last_msg-Triple, ReadAt-Stored, FoundAt, read_record-Triple,
}
use natsstore.Ordered.History.Writes.{Published, Published-since, Returned}

module _ (storage : Storage) (enc : Encodings) {W : Type 0} (log : Log W) (fenced : Fenced log)
    (json : (p : OrderedPayload) (text : Bytes)
      → enc.marshal_record p ≡ some text
      → enc.decode_record_json text ≡ some (p, false))
    (seam : OrderedSeam W) (lawful : Lawful storage enc log seam) where
  abbrev pub Answer : W → Location → OrderedRecord × Bool → W → Type 0
  Answer v at (rec, created) w =
      Returned storage enc log fenced json seam lawful v at.record_subject rec w

  abbrev Written : W → Location → OrderedRecord → Result OrderedError NoValue → W → Type 0
  Written v at rec outcome w =
      Published storage enc log fenced json seam lawful v at.record_subject rec outcome w

  Sent-Written :
      (u w x : W) (at : Location) (rec : OrderedRecord) (seq : ℕ) (text : Bytes) (last : ℕ)
      (payload : Bytes) (outcome : Result OrderedError NoValue)
      → Runs storage enc log u w
      → log.head u at.counter_subject ≡ (seq, text)
      → last_order_of (seq, text) ≡ ok last
      → last ≢ max_uint64
      → rec.order ≡ last + 1
      → rec.revision ≡ 1
      → ordered_location storage enc rec.id ≡ ok at
      → encode_ordered_record storage enc rec ≡ ok payload
      → Sent storage enc log w (create_batch at seq rec payload) outcome x
      → Written w at rec outcome x
  Sent-Written u w x at rec seq text last payload outcome runs read told below next first located
        encoded (not_committed failed more) =
      (more, λ e. absurd (failed e))
  Sent-Written u w x at rec seq text last payload outcome runs read told below next first located
        encoded (committed before after lead c rest) =
      let (fence, _) = fenced.expected before after (create_batch at seq rec payload) c in
      let until : Runs storage enc log u before = Steps-trans storage enc log u runs lead in
      let seen : (log.head u at.counter_subject).0 ≡ seq = ap (λ h. h.0) read in
      let same : log.head before at.counter_subject ≡ (seq, text) =
        Steps-current storage enc log fenced at.counter_subject until (seen ∙ sym fence) ∙ read in
      let told' : last_order_of (log.head before at.counter_subject) ≡ ok last = rw same told in
      let c' : log.Commits before
          (create_batch at (log.head before at.counter_subject).0 rec payload) after =
        rw fence c in
      let step : Step storage enc log before after =
        creates at rec last payload located told' below next first encoded c' in
      let moment : Runs storage enc log w after = later lead step in
      (
        Steps-trans storage enc log w moment rest,
        λ _. record {
          moment = after;
          since = moment;
          until = rest;
          held =
              created-Holds storage enc log fenced json before after at rec seq payload located
                encoded c;
        },
      )

  module _ (v : W) (at : Location) (id : OrderedId)
      (retry : Op (OrderedStore W) OrderedError (OrderedRecord × Bool))
      (again : Triple storage enc log (Runs storage enc log v) retry (Answer v at)) where
    settle_lost-Triple :
        (found : Found)
        → Triple storage enc log
            (FoundAt storage enc log v at.record_subject found)
            (settle_lost found retry)
            (Answer v at)
    settle_lost-Triple none = again
    settle_lost-Triple (some (winner, seq)) =
        pure-Triple storage enc log
          (FoundAt storage enc log v at.record_subject (some (winner, seq))) (Answer v at)
          (winner, false)
          (λ w (runs, read).
            (runs, ReadAt-Stored storage enc log v w at.record_subject winner seq read))

    settle_ambiguous-Answer :
        (w : W) (rec : OrderedRecord) (found : Found) (a : OrderedRecord × Bool)
        → FoundAt storage enc log v at.record_subject found w
        → settle_ambiguous id rec found ≡ ok a
        → Answer v at a w
    settle_ambiguous-Answer w rec none a h e = cc e
    settle_ambiguous-Answer w rec (some (winner, seq)) a (runs, read) e =
        let same : (winner, ordered_record_equal winner rec) ≡ a = cc e in
        rw (← same) (runs, ReadAt-Stored storage enc log v w at.record_subject winner seq read)

    settle_batch-Triple :
        (rec : OrderedRecord) (outcome : Result OrderedError NoValue)
        → Triple storage enc log
            (Written v at rec outcome)
            (settle_batch storage enc seam at rec id retry outcome)
            (Answer v at)
    unfolding settle_batch
    settle_batch-Triple rec (ok tt) =
        pure-Triple storage enc log (Written v at rec (ok tt)) (Answer v at) (rec, true)
          (λ w h. (h.0, h.1 refl))
    settle_batch-Triple rec (err e) = elim (Bool-cases (is_precondition e)) [
      | inl p ↦ rw p (
          bind-Triple storage enc log (Written v at rec (err e))
            (FoundAt storage enc log v at.record_subject) (Answer v at) read
            (λ found. settle_lost found retry) reread settle_lost-Triple)
      | inr p ↦ elim (Bool-cases (is_ambiguous e)) [
        | inl q ↦
            rw (p, q)
              (bind-Triple storage enc log (Written v at rec (err e))
                (FoundAt storage enc log v at.record_subject) (Answer v at) read
                (λ found. lift (settle_ambiguous id rec found)) reread
                (λ found.
                  lift-Triple storage enc log (FoundAt storage enc log v at.record_subject found)
                    (Answer v at) (settle_ambiguous id rec found)
                    (λ a w h there. settle_ambiguous-Answer w rec found a there h)))
        | inr q ↦ rw (p, q) (fail-Triple storage enc log (Written v at rec (err e)) (Answer v at) e)
      ]
    ]
      where
        read : Op (OrderedStore W) OrderedError Found
        read = read_record storage enc seam at.spec at.record_subject

        reread :
            Triple storage enc log
              (Written v at rec (err e))
              read
              (FoundAt storage enc log v at.record_subject)
        reread s p =
            read_record-Triple storage enc log seam lawful v at.spec at.record_subject s (p.0)

    module _ (candidate : ℕ → OrderedRecord) (numbered : (n : ℕ) → (candidate n).order ≡ n)
        (first : (n : ℕ) → (candidate n).revision ≡ 1)
        (located : (n : ℕ) → ordered_location storage enc (candidate n).id ≡ ok at) where
      allocate-Triple :
          (seq : ℕ) (text : Bytes) (last : ℕ)
          → last_order_of (seq, text) ≡ ok last
          → Triple storage enc log
              (HeadAt storage enc log seam lawful v at.counter_subject (seq, text))
              (allocate storage enc seam at candidate id retry seq last)
              (Answer v at)
      unfolding allocate write_batch
      allocate-Triple seq text last told = elim (Bool-cases (last == max_uint64)) [
        | inl e ↦ rw e (fail-Triple storage enc log here (Answer v at) (order_exhausted id last))
        | inr e ↦ rw e (
            bind-Triple storage enc log here Ready (Answer v at)
              (lift (encode_ordered_record storage enc rec))
              (write_batch storage enc seam at rec id retry seq)
              (lift-Triple storage enc log here Ready (encode_ordered_record storage enc rec)
                (λ payload w h there. (there, h)))
              (λ payload.
                bind-Triple storage enc log (Ready payload) (Written v at rec) (Answer v at)
                  (attempt
                    (outside (seam.publish_batch at.spec.stream (create_batch at seq rec payload))))
                  (settle_batch storage enc seam at rec id retry) (send payload e)
                  (settle_batch-Triple rec)))
      ]
        where
          rec : OrderedRecord
          rec = candidate (last + 1)

          here : W → Type 0
          here = HeadAt storage enc log seam lawful v at.counter_subject (seq, text)

          Ready : Bytes → W → Type 0
          Ready payload w = here w × (encode_ordered_record storage enc rec ≡ ok payload)

          send :
              (payload : Bytes)
              → (last == max_uint64) ≡ false
              → Triple storage enc log
                  (Ready payload)
                  (attempt
                    (outside (seam.publish_batch at.spec.stream (create_batch at seq rec payload))))
                  (Written v at rec)
          send payload below s ((before, (u, since, until, read)), encoded) =
              let sent =
                seam.publish_batch at.spec.stream (create_batch at seq rec payload) s.world in
              let p : Written s.world at rec (sent.0) (sent.1) =
                Sent-Written u s.world (sent.1) at rec seq text last payload (sent.0) until read
                  told (λ z. ground (arith, z, below)) (numbered (last + 1)) (first (last + 1))
                  (located (last + 1)) encoded
                  (lawful.publishes_batch at.spec.stream (create_batch at seq rec payload)
                    s.world) in
              (
                p.0,
                λ a h.
                    let same : sent.0 ≡ a = cc h in
                    rw (← same) (
                      Published-since storage enc log fenced json seam lawful v s.world (sent.1)
                        at.record_subject rec (sent.0) before p),
              )

      pub create_attempt-Triple :
          Triple storage enc log
            (Runs storage enc log v)
            (create_attempt storage enc seam at candidate id retry)
            (Answer v at)
      unfolding create_attempt
      create_attempt-Triple =
          bind-Triple storage enc log (Runs storage enc log v)
            (HeadAt storage enc log seam lawful v at.counter_subject) (Answer v at)
            (outside (seam.last_msg_for_subject at.spec at.counter_subject))
            (from_counter storage enc seam at candidate id retry)
            (last_msg-Triple storage enc log seam lawful v at.spec at.counter_subject) by_head
        where
          by_head :
              (head : ℕ × Bytes)
              → Triple storage enc log
                  (HeadAt storage enc log seam lawful v at.counter_subject head)
                  (from_counter storage enc seam at candidate id retry head)
                  (Answer v at)
          by_head (seq, text) =
              bind-Triple storage enc log here Known (Answer v at)
                (lift (last_order_of (seq, text)))
                (allocate storage enc seam at candidate id retry seq)
                (lift-Triple storage enc log here Known (last_order_of (seq, text))
                  (λ last w h there. (there, h)))
                (λ last s (there, told). allocate-Triple seq text last told s there)
            where
              here : W → Type 0
              here = HeadAt storage enc log seam lawful v at.counter_subject (seq, text)

              Known : ℕ → W → Type 0
              Known last w = here w × (last_order_of (seq, text) ≡ ok last)
