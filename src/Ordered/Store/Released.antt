-- ===== src/Ordered/Store/Released.antt =====
-- No create leaks a latch: however it ends, it returns the token of its scope's latch and gives the latch up.
use natsstore.Base.{
  ℕ, zero, suc, ◌+◌, ◌≡◌, refl, Bool, true, none, some, ◌==◌, ap, Bool-cases, inl, inr,
}
use natsstore.Base.Bytes.{Bytes, bytes_Eq}
use natsstore.Base.Dict.{Dict, find}
use mathlib.Core.Path.{subst}
use natsstore.Base.Outcome.{Result, ok, err, Op, ◌>>=◌, ◌>>◌, lift, Result-cases}
use natsstore.Base.Runs.{Preserves, bind-Preserves, Leads, bind-Leads}
use natsstore.Ordered.Record.{OrderedRecord, OrderedId, Rank, Due}
use natsstore.Ordered.Errors.{OrderedError, is_precondition, is_ambiguous}
use natsstore.Ordered.Libraries.{Storage, Encodings}
use natsstore.Ordered.Codec.{max_uint64, encode_ordered_record}
use natsstore.Ordered.Store.{
  OrderedSeam, OrderedStore, OrderedStreamSpec, Location, Found, NoValue, first_record,
  create_attempt, create_loop, create, settle_ambiguous, last_order_of, under_latch, settle_batch,
  write_batch, allocate, from_counter, outside, attempt, create_batch, read_record, settle_lost,
  wait_turn, ordered_create_attempts, check_candidate, acquire_scope, release_scope,
  ordered_location, create_at, create_found,
}
use natsstore.Ordered.Store.Latches.{
  Latch, WellCounted, Restored, enter_scope, hold_scope, drop_scope, drop-enter_scope,
  drop-hold-enter_scope,
}

module _ (storage : Storage) (enc : Encodings) {W : Type 0} (seam : OrderedSeam W) where
  -- Whatever holds of the latches holds after a read.
  module _ (R : Dict Bytes Latch → Type 0) where
    abbrev Kept : OrderedStore W → Type 0
    Kept s = R s.latches

    read_record-Preserves :
        (spec : OrderedStreamSpec) (subject : Bytes)
        → Preserves Kept (read_record storage enc seam spec subject)
    unfolding read_record
    read_record-Preserves spec subject s h =
        elim (Result-cases (seam.last_msg_for_subject spec subject s.world).0) [
          | inl ((seq, text), e) ↦ elim (Bool-cases (seq == 0)) [
            | inl f ↦ rw (e, f) h
            | inr f ↦ rw (e, f) h
          ]
          | inr (x, e) ↦ rw e h
        ]

    module _ (at : Location) (id : OrderedId) (candidate : ℕ → OrderedRecord)
        (retry : Op (OrderedStore W) OrderedError (OrderedRecord × Bool))
        (again : Preserves Kept retry) where
      settle_lost-Preserves : (found : Found) → Preserves Kept (settle_lost found retry)
      settle_lost-Preserves none s h = again s h
      settle_lost-Preserves (some (winner, seq)) s h = h

      settle_batch-Preserves :
          (rec : OrderedRecord) (outcome : Result OrderedError NoValue)
          → Preserves Kept (settle_batch storage enc seam at rec id retry outcome)
      unfolding settle_batch
      settle_batch-Preserves rec (ok _) = λ s h. h
      settle_batch-Preserves rec (err e) = elim (Bool-cases (is_precondition e)) [
        | inl p ↦ rw p (
            bind-Preserves Kept reread (λ found. settle_lost found retry)
              (read_record-Preserves at.spec at.record_subject) settle_lost-Preserves)
        | inr p ↦ elim (Bool-cases (is_ambiguous e)) [
          | inl q ↦
              rw (p, q)
                (bind-Preserves Kept reread (λ found. lift (settle_ambiguous id rec found))
                  (read_record-Preserves at.spec at.record_subject) (λ found s h. h))
          | inr q ↦ rw (p, q) (λ s h. h)
        ]
      ]
        where
          reread : Op (OrderedStore W) OrderedError Found
          reread = read_record storage enc seam at.spec at.record_subject

      allocate-Preserves :
          (seq last : ℕ) → Preserves Kept (allocate storage enc seam at candidate id retry seq last)
      unfolding allocate write_batch
      allocate-Preserves seq last = elim (Bool-cases (last == max_uint64)) [
        | inl e ↦ rw e (λ s h. h)
        | inr e ↦ rw e (
            bind-Preserves Kept (lift (encode_ordered_record storage enc rec))
              (write_batch storage enc seam at rec id retry seq) (λ s h. h)
              (λ payload.
                bind-Preserves Kept
                  (attempt
                    (outside (seam.publish_batch at.spec.stream (create_batch at seq rec payload))))
                  (settle_batch storage enc seam at rec id retry) (λ s h. h)
                  (settle_batch-Preserves rec)))
      ]
        where
          rec : OrderedRecord
          rec = candidate (last + 1)

      create_attempt-Preserves :
          Preserves Kept (create_attempt storage enc seam at candidate id retry)
      unfolding create_attempt
      create_attempt-Preserves =
          bind-Preserves Kept (outside (seam.last_msg_for_subject at.spec at.counter_subject))
            (from_counter storage enc seam at candidate id retry) (λ s h. h)
            (λ head.
              bind-Preserves Kept (lift (last_order_of head))
                (allocate storage enc seam at candidate id retry head.0) (λ s h. h)
                (allocate-Preserves head.0))

    wait_turn-Preserves : (n : ℕ) → Preserves Kept (wait_turn storage enc seam n)
    wait_turn-Preserves n s h = elim (Bool-cases (n == 1)) [ inl e ↦ rw e h | inr e ↦ rw e h ]

    create_loop-Preserves :
        (at : Location) (candidate : ℕ → OrderedRecord) (id : OrderedId) (n left : ℕ)
        → Preserves Kept (create_loop storage enc seam at candidate id n left)
    unfolding create_loop
    create_loop-Preserves at candidate id n zero = λ s h. h
    create_loop-Preserves at candidate id n (suc left) =
        let rest = create_loop storage enc seam at candidate id (n + 1) left in
        bind-Preserves Kept (wait_turn storage enc seam n)
          (λ _. create_attempt storage enc seam at candidate id rest) (wait_turn-Preserves n)
          (λ _.
            create_attempt-Preserves at id candidate rest
              (create_loop-Preserves at candidate id (n + 1) left))

  under_latch-Restored :
      (key j : Bytes) (body : Op (OrderedStore W) OrderedError (OrderedRecord × Bool))
      (s : OrderedStore W)
      → ((R : Dict Bytes Latch → Type 0) → Preserves (λ t. R t.latches) body)
      → WellCounted s.latches
      → Restored (find j s.latches) (find j (under_latch storage enc seam key body s).1.latches)
  unfolding acquire_scope release_scope
  under_latch-Restored key j body s kept counted =
      elim (Result-cases (seam.await_token key s.world).0) [
        | inl (u, e) ↦
            rw (under_latch, ◌>>◌, ◌>>=◌, acquire_scope, e)
              (kept (λ l. Restored (find j s.latches) (find j (drop_scope true key l)))
                (record {
                  latches = hold_scope key (enter_scope key s.latches);
                  world = (seam.await_token key s.world).1;
                })
                (drop-hold-enter_scope key j s.latches counted))
        | inr (x, e) ↦
            rw (under_latch, ◌>>◌, ◌>>=◌, acquire_scope, e)
              (inl (drop-enter_scope key j s.latches counted))
      ]

  -- However a Create ends, the latch of each key is afterwards as before, or counted as before with its token
  -- free; so a token that was free before the call is free again, and a latch that was not in the map is
  -- not in it. Before the call each latch of the map must count someone.
  pub create-Restored :
      (id : OrderedId) (scope value : Bytes) (rank : Rank) (when : Due) (s : OrderedStore W)
      (j : Bytes)
      → WellCounted s.latches
      → Restored
          (find j s.latches)
          (find j (create storage enc seam id scope value rank when s).1.latches)
  unfolding create
  create-Restored id scope value rank when s j counted =
      bind-Leads Same Balanced (lift (ordered_location storage enc id))
        (create_at storage enc seam id scope value rank when) weaken (λ t h. h)
        (λ at.
          bind-Leads Same Balanced (outside (seam.ensure_stream at.spec)) (λ _. inspect at) weaken
            (λ t h. h)
            (λ _.
              bind-Leads Same Balanced (read_record storage enc seam at.spec at.record_subject)
                (create_found storage enc seam at id scope value rank when) weaken
                (read_record-Preserves (λ l. l ≡ s.latches) at.spec at.record_subject)
                (by_found at)))
        s refl
    where
      Same : OrderedStore W → Type 0
      Same t = t.latches ≡ s.latches

      Balanced : OrderedStore W → Type 0
      Balanced t = Restored (find j s.latches) (find j t.latches)

      weaken : (t : OrderedStore W) → Same t → Balanced t
      weaken t h = inl (ap (find j) h)

      inspect : Location → Op (OrderedStore W) OrderedError (OrderedRecord × Bool)
      inspect at =
          read_record storage enc seam at.spec at.record_subject
          >>= create_found storage enc seam at id scope value rank when

      by_found :
          (at : Location) (found : Found)
          → Leads Same Balanced (create_found storage enc seam at id scope value rank when found)
      by_found at (some (existing, seq)) = weaken
      by_found at none =
          bind-Leads Same Balanced (lift (check_candidate storage scope value when))
            (λ _. under_latch storage enc seam at.counter_subject (loop at)) weaken (λ t h. h)
            (λ _ t h.
              subst (λ l. Restored (find j l) (find j (ended at t))) h
                (under_latch-Restored at.counter_subject j (loop at) t
                  (λ R.
                    create_loop-Preserves R at (first_record id scope value rank when) id 1
                      ordered_create_attempts)
                  (rw h counted)))
        where
          loop : Location → Op (OrderedStore W) OrderedError (OrderedRecord × Bool)
          loop at =
              create_loop storage enc seam at (first_record id scope value rank when) id 1
                ordered_create_attempts

          ended : Location → OrderedStore W → Dict Bytes Latch
          ended at t = (under_latch storage enc seam at.counter_subject (loop at) t).1.latches
