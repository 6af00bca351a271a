-- ===== src/Ordered/Store/Allocated.antt =====
-- One attempt of a Create (ordered.go): where the order of a record that it creates comes from.
use natsstore.Base.{
  ◌∙◌, ◌⊎◌, ℕ, ◌+◌, ◌≡◌, ◌≤◌, Bool, true, false, none, some, ◌==◌, arith, Bool-cases, inl, inr, ap,
  sym,
}
use natsstore.Base.Bytes.{Bytes, bytes_eq_iff}
use natsstore.Base.Int.{eqb_ℤ_iff}
use natsstore.Base.Decimal.{parse_uint, parse_uint-le}
use natsstore.Base.Outcome.{Result, ok, err, Op, Result-cases, lift}
use natsstore.Base.Runs.{bind-eq-ok, Yields, pure-Yields}
use natsstore.Ordered.Record.{OrderedRecord, OrderedId, ordered_record_equal}
use natsstore.Ordered.Errors.{OrderedError, is_precondition, is_ambiguous}
use natsstore.Ordered.Libraries.{Storage, Encodings}
use natsstore.Ordered.Codec.{max_uint64, encode_ordered_record, decode_ordered_counter}
use natsstore.Ordered.Store.{
  OrderedSeam, OrderedStore, Location, Found, create_attempt, settle_ambiguous, last_order_of,
  settle_batch, write_batch, allocate, from_counter, outside, create_batch, NoValue, read_record,
  settle_lost,
}

pub ordered_record_equal-eq : (a b : OrderedRecord) → ordered_record_equal a b ≡ true → a ≡ b
unfolding ordered_record_equal
ordered_record_equal-eq a b h = ground (
  arith,
  bytes_eq_iff a.id.namespace b.id.namespace,
  bytes_eq_iff a.id.ordering_scope b.id.ordering_scope,
  bytes_eq_iff a.id.stable_key b.id.stable_key,
  bytes_eq_iff a.ranking_scope b.ranking_scope,
  bytes_eq_iff a.value b.value,
  eqb_ℤ_iff a.due.unix_millis b.due.unix_millis,
  eqb_ℤ_iff a.rank.value b.rank.value,
)

pub last_order_of-le :
    (seq : ℕ) (text : Bytes) (last : ℕ) → last_order_of (seq, text) ≡ ok last → last ≤ max_uint64
unfolding decode_ordered_counter
last_order_of-le seq text last h = elim (Bool-cases (seq == 0)) [
  | inl e ↦ let q : 0 ≡ last = cc (rw e at h) in omega (arith, q)
  | inr e ↦ elim (Result-cases (parse_uint max_uint64 text)) [
    | inl (n, f) ↦ let le = parse_uint-le max_uint64 text n f in ground (arith, h, e, f, le)
    | inr (x, f) ↦ cc (rw (e, decode_ordered_counter, f) at h)
  ]
]

module _ (storage : Storage) (enc : Encodings) {W : Type 0} (seam : OrderedSeam W) where
  -- How a record was created at a location: an attempt read the counter of its scope and gave the record the
  -- next order; it published both, the counter fenced on what was read; and the batch succeeded, or, where its
  -- outcome was unknown, the read that follows found the record.
  pub record Allocated (at : Location) (r : OrderedRecord) : Type 0 where
    pub store : OrderedStore W
    pub head : ℕ × Bytes
    pub read : (seam.last_msg_for_subject at.spec at.counter_subject store.world).0 ≡ ok head
    pub last : ℕ
    pub stored : last_order_of head ≡ ok last
    pub next : r.order ≡ last + 1
    pub bounded : r.order ≤ max_uint64
    pub payload : Bytes
    pub encoded : encode_ordered_record storage enc r ≡ ok payload
    pub sent : Result OrderedError NoValue
    pub after : OrderedStore W
    pub published :
        outside
          (seam.publish_batch at.spec.stream (create_batch at head.0 r payload))
          (record store {
            world = (seam.last_msg_for_subject at.spec at.counter_subject store.world).1;
          })
        ≡ (sent, after)
    pub landed :
        (sent ≡ ok tt)
        ⊎ ((e : OrderedError) × ((sent ≡ err e)
              × ((is_ambiguous e ≡ true)
                  × ((seq : ℕ) × ((read_record storage enc seam at.spec at.record_subject after).0
                        ≡ ok (some (r, seq)))))))

  -- A creation that is reported.
  abbrev pub IsFirst : Location → (ℕ → OrderedRecord) → OrderedRecord × Bool → Type 0
  IsFirst at candidate (r, created) =
      created ≡ true
      → (r ≡ candidate r.order) × ((storage.validate_ordered_record r ≡ true) × Allocated at r)

  pub encode-valid :
      (r : OrderedRecord) (payload : Bytes)
      → encode_ordered_record storage enc r ≡ ok payload
      → storage.validate_ordered_record r ≡ true
  unfolding encode_ordered_record
  encode-valid r payload h = elim (Bool-cases (storage.validate_ordered_record r)) [
    | inl e ↦ e
    | inr e ↦ cc (rw e at h)
  ]

  module _ (candidate : ℕ → OrderedRecord) (numbered : (n : ℕ) → (candidate n).order ≡ n)
      (at : Location) where
    settle_ambiguous-ok :
        (id : OrderedId) (rec : OrderedRecord) (found : Found) (r : OrderedRecord)
        → settle_ambiguous id rec found ≡ ok (r, true)
        → (r ≡ rec) × ((seq : ℕ) × (found ≡ some (r, seq)))
    settle_ambiguous-ok id rec none r h = cc h
    settle_ambiguous-ok id rec (some (winner, seq)) r h =
        let same : winner ≡ r = cc h in
        let equal : ordered_record_equal winner rec ≡ true = cc h in
        (sym same ∙ ordered_record_equal-eq winner rec equal, (seq, ap (λ x. some (x, seq)) same))

    settle_lost-Yields :
        (retry : Op (OrderedStore W) OrderedError (OrderedRecord × Bool)) (found : Found)
        → Yields (IsFirst at candidate) retry
        → Yields (IsFirst at candidate) (settle_lost found retry)
    settle_lost-Yields retry none again = again
    settle_lost-Yields retry (some (winner, seq)) again =
        pure-Yields (IsFirst at candidate) (winner, false) (λ h. cc h)

    pub create_attempt-Yields :
        (id : OrderedId) (retry : Op (OrderedStore W) OrderedError (OrderedRecord × Bool))
        → Yields (IsFirst at candidate) retry
        → Yields (IsFirst at candidate) (create_attempt storage enc seam at candidate id retry)
    unfolding create_attempt allocate write_batch settle_batch
    create_attempt-Yields id retry again s (r, created) h reported =
        let (head, (read, from)) =
          bind-eq-ok (outside (seam.last_msg_for_subject at.spec at.counter_subject))
            (from_counter storage enc seam at candidate id retry) s (r, created) h in
        let behind : OrderedStore W = record s {
          world = (seam.last_msg_for_subject at.spec at.counter_subject s.world).1;
        } in
        let (last, (stored, allocated)) =
          bind-eq-ok (lift (last_order_of head))
            (allocate storage enc seam at candidate id retry head.0) behind (r, created) from in
        elim (Bool-cases (last == max_uint64)) [
          | inl e ↦ cc (rw (allocate, e) at allocated)
          | inr e ↦
              let (payload, (encoded, written)) =
                bind-eq-ok (lift (encode_ordered_record storage enc (candidate (last + 1))))
                  (write_batch storage enc seam at (candidate (last + 1)) id retry head.0) behind
                  (r, created) (rw (allocate, e) at allocated) in
              settled s head read last stored e payload encoded written
        ]
      where
        settled :
            (s : OrderedStore W) (head : ℕ × Bytes)
            → (seam.last_msg_for_subject at.spec at.counter_subject s.world).0 ≡ ok head
            → (last : ℕ) → last_order_of head ≡ ok last
            → last == max_uint64 ≡ false
            → (payload : Bytes)
            → encode_ordered_record storage enc (candidate (last + 1)) ≡ ok payload
            → (write_batch storage enc seam at
                (candidate (last + 1))
                id
                retry
                head.0
                payload
                (record s {
                  world = (seam.last_msg_for_subject at.spec at.counter_subject s.world).1;
                })).0
              ≡ ok (r, created)
            → (r ≡ candidate r.order)
              × ((storage.validate_ordered_record r ≡ true) × Allocated at r)
        settled s head read last stored below payload encoded written = elim (Result-cases sent.0) [
          | inl (u, o) ↦
              let same : rec ≡ r = cc (rw (write_batch, settle_batch, o) at written) in
              allocated r (sym same) (inl o)
          | inr (x, o) ↦ elim (Bool-cases (is_precondition x)) [
            | inl p ↦
                let (found, (got, lost)) =
                  bind-eq-ok reread (λ found. settle_lost found retry) sent.1 (r, created)
                    (rw (write_batch, settle_batch, o, p) at written) in
                settle_lost-Yields retry found again (reread sent.1).1 (r, created) lost reported
            | inr p ↦ elim (Bool-cases (is_ambiguous x)) [
              | inr q ↦ cc (rw (write_batch, settle_batch, o, p, q) at written)
              | inl q ↦
                  let (found, (got, known)) =
                    bind-eq-ok reread (λ found. lift (settle_ambiguous id rec found)) sent.1
                      (r, created) (rw (write_batch, settle_batch, o, p, q) at written) in
                  let (same, (seq, there)) =
                    settle_ambiguous-ok id rec found r (rw reported at known) in
                  allocated r same (inr (x, (o, (q, (seq, got ∙ ap ok there)))))
            ]
          ]
        ]
          where
            rec : OrderedRecord
            rec = candidate (last + 1)

            reread : Op (OrderedStore W) OrderedError Found
            reread = read_record storage enc seam at.spec at.record_subject

            behind : OrderedStore W
            behind = record s {
              world = (seam.last_msg_for_subject at.spec at.counter_subject s.world).1;
            }

            sent : Result OrderedError NoValue × OrderedStore W
            sent =
                outside (seam.publish_batch at.spec.stream (create_batch at head.0 rec payload))
                  behind

            Landed : OrderedRecord → Type 0
            Landed r =
                (sent.0 ≡ ok tt)
                ⊎ ((e : OrderedError) × ((sent.0 ≡ err e)
                      × ((is_ambiguous e ≡ true)
                          × ((seq : ℕ) × ((reread sent.1).0 ≡ ok (some (r, seq)))))))

            allocated :
                (r : OrderedRecord)
                → r ≡ rec
                → Landed r
                → (r ≡ candidate r.order)
                  × ((storage.validate_ordered_record r ≡ true) × Allocated at r)
            allocated r same landed =
                let n = numbered (last + 1) in
                let order : r.order ≡ last + 1 = ap (λ x. x.order) same ∙ n in
                (
                  same ∙ ap candidate (sym order),
                  (
                    rw same (encode-valid rec payload encoded),
                    record {
                      store = s;
                      head = head;
                      read = read;
                      last = last;
                      stored = stored;
                      next = order;
                      bounded =
                          ground (arith, order, below, last_order_of-le head.0 head.1 last stored);
                      payload = payload;
                      encoded = ap (encode_ordered_record storage enc) same ∙ encoded;
                      sent = sent.0;
                      after = sent.1;
                      published =
                          ap
                            (λ x.
                              outside
                                (seam.publish_batch at.spec.stream
                                  (create_batch at head.0 x payload))
                                behind)
                            same;
                      landed = landed;
                    },
                  ),
                )
