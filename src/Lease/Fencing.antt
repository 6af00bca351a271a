-- ===== src/Lease/Fencing.antt =====
-- A lease is granted only over an absent or expired entry, and it is what was stored.
use natsstore.Base.{
  ℕ, ◌+◌, ◌%◌, ◌^◌, ◌≡◌, ◌≤◌, refl, true, false, some, leb, ◌||◌, arith, if◌then◌else◌, Bool-cases,
  Option-cases, inl, inr, sym, ◌-◌, ◌∙◌, ap,
}
use natsstore.Base.Bytes.{Bytes}
use natsstore.Base.Outcome.{
  Result, ok, err, Op, pure, lift, translate, with_outcome, ◌>>=◌, Result-cases,
}
use natsstore.Base.Runs.{bind-eq-ok}
use natsstore.Faults.{Fault, is_key_not_found, is_key_exists, is_cas_conflict}
use natsstore.Lease.{
  LeaseError, LeaseRecord, LeaseSeam, KvLease, lease_held, lease_op, holder_id_op, create_op,
  update_op, decode_lease_record, encode, expired, start, create_lease, update_lease, by_entry,
  acquire,
}

module _ (lease_key_for_name : Bytes → Result LeaseError Bytes) (ttl : ℕ) {W : Type 0}
    (seam : LeaseSeam W) where
  -- A lease that was just written: the clock was read in this world, the record that expires a TTL later
  -- was stored by this write, and the lease has the write's revision and the record's end.
  abbrev pub IsWritten : ℕ → Bytes → (Bytes → W → Result Fault ℕ × W) → W → KvLease → Type 0
  IsWritten epoch holder write w l =
      (text : Bytes) × ((seam.marshal
            (record { epoch = epoch; holder = holder; expires_at = (seam.now w).0 + ttl })
          ≡ some text)
        × ((((write text (seam.now w).1).0) ≡ ok l.rev)
            × ((l.valid_until ≡ (seam.now w).0 + ttl)
                × ((l.epoch ≡ epoch) × ((l.released ≡ false) × (l.lost ≡ false))))))

  -- What an acquisition rests on, from the world behind the reading of its key's entry: an absent entry, over
  -- which it created its own, or an entry that had expired, over whose revision it wrote.
  abbrev pub Granted : Bytes → Bytes → Result Fault (Bytes × ℕ) → W → KvLease → Type 0
  Granted key holder (err e) w l =
      (is_key_not_found e ≡ true) × IsWritten 1 holder (seam.create key) w l
  Granted key holder (ok (text, rev)) w l =
      (rec : LeaseRecord) × ((decode_lease_record lease_key_for_name ttl seam text ≡ some rec)
        × ((rec.expires_at ≤ (seam.now w).0)
            × IsWritten ((rec.epoch + 1) % 2 ^ 64) holder (λ next. seam.update key next rev)
                (seam.now w).1 l))

  encode-ok :
      (name : Bytes) (epoch : ℕ) (holder : Bytes) (w : W) (a : Bytes × ℕ)
      → (encode lease_key_for_name ttl seam name epoch holder w).0 ≡ ok a
      → (text : Bytes) × ((seam.marshal
              (record { epoch = epoch; holder = holder; expires_at = (seam.now w).0 + ttl })
            ≡ some text)
          × ((a ≡ (text, (seam.now w).0 + ttl))
              × ((encode lease_key_for_name ttl seam name epoch holder w).1 ≡ (seam.now w).1)))
  unfolding encode
  encode-ok name epoch holder w a h =
      elim (Option-cases (
        seam.marshal
          (record { epoch = epoch; holder = holder; expires_at = (seam.now w).0 + ttl }))) [
            | inl e ↦ cc (rw (encode, e) at h)
            | inr (x, e) ↦
                let same : (x, (seam.now w).0 + ttl) ≡ a = cc (rw (encode, e) at h) in
                (x, (e, (sym same, rw (encode, e) refl)))
          ]

  -- A write of an encoded record, with its errors translated, starts the lease.
  abbrev write_lease :
      Bytes
      → Bytes
      → ℕ
      → Bytes
      → (Fault → LeaseError)
      → (Bytes → W → Result Fault ℕ × W)
      → Op W LeaseError KvLease
  write_lease name key epoch holder to_error write =
      encode lease_key_for_name ttl seam name epoch holder >>= λ text.
      translate to_error (write text.0) >>= λ rev.
      pure (start lease_key_for_name ttl seam name key holder epoch rev text.1)

  write_lease-IsWritten :
      (name key : Bytes) (epoch : ℕ) (holder : Bytes) (to_error : Fault → LeaseError)
      (write : Bytes → W → Result Fault ℕ × W) (w : W) (l : KvLease)
      → (write_lease name key epoch holder to_error write w).0 ≡ ok l
      → IsWritten epoch holder write w l
  write_lease-IsWritten name key epoch holder to_error write w l h =
      let (a, (encoded, rest)) =
        bind-eq-ok (encode lease_key_for_name ttl seam name epoch holder)
          (λ text. translate to_error (write text.0) >>= λ rev.
            pure (start lease_key_for_name ttl seam name key holder epoch rev text.1))
          w l h in
      let (text, (marshalled, (same, after))) = encode-ok name epoch holder w a encoded in
      elim (Result-cases (write text (seam.now w).1).0) [
        | inr (x, e) ↦ cc (rw (after, same, e) at rest)
        | inl (rev, e) ↦
            let p : start lease_key_for_name ttl seam name key holder epoch rev
                  ((seam.now w).0 + ttl)
                ≡ l =
              cc (rw (after, same, e) at rest) in
            (
              text,
              (
                marshalled,
                (
                  e ∙ ap (λ x. ok x.rev) p,
                  (
                    ap (λ x. x.valid_until) (sym p),
                    (
                      ap (λ x. x.epoch) (sym p),
                      (ap (λ x. x.released) (sym p), ap (λ x. x.lost) (sym p)),
                    ),
                  ),
                ),
              ),
            )
      ]

  by_entry-Granted :
      (name key holder : Bytes) (found : Result Fault (Bytes × ℕ)) (w : W) (l : KvLease)
      → (by_entry lease_key_for_name ttl seam name key holder found w).0 ≡ ok l
      → Granted key holder found w l
  unfolding create_lease update_lease expired
  by_entry-Granted name key holder (err e) w l h = elim (Bool-cases (is_key_not_found e)) [
    | inr f ↦ cc (rw f at h)
    | inl f ↦ (
      f,
      write_lease-IsWritten name key 1 holder
          (λ e. if is_key_exists e then lease_held name 1 else lease_op name create_op (some e))
          (seam.create key) w l (rw f at h),
    )
  ]
  by_entry-Granted name key holder (ok (text, rev)) w l h =
      elim (Option-cases (decode_lease_record lease_key_for_name ttl seam text)) [
        | inl e ↦ cc (rw e at h)
        | inr (rec, e) ↦ elim (Bool-cases (leb rec.expires_at (seam.now w).0)) [
          | inr f ↦ cc (rw (e, expired, f) at h)
          | inl f ↦
              let epoch = (rec.epoch + 1) % 2 ^ 64 in
              (
                rec,
                (
                  e,
                  (
                    ground (arith, f),
                    write_lease-IsWritten name key epoch holder
                        (λ x.
                          if is_cas_conflict x || is_key_not_found x
                          then lease_held name ((epoch + (2 ^ 64 - 1)) % 2 ^ 64)
                          else lease_op name update_op (some x))
                        (λ next. seam.update key next rev) (seam.now w).1 l
                        (rw (e, expired, f) at h),
                  ),
                ),
              )
        ]
      ]

  -- An acquisition that succeeds read the entry of the name's key behind the making of its holder id. It was
  -- absent, and the lease created the entry, with epoch 1; or it decoded and had expired when the clock was
  -- read next, and the lease wrote over the revision that was read, with the entry's epoch plus one as a
  -- uint64. The lease has the write's revision, and the instant a TTL behind the clock reading before the write
  -- is the end of both the stored record and the lease.
  pub acquire-Granted :
      (name : Bytes) (w : W) (l : KvLease)
      → (acquire lease_key_for_name ttl seam name w).0 ≡ ok l
      → (key holder : Bytes) × ((lease_key_for_name name ≡ ok key)
          × (((seam.new_holder_id w).0 ≡ ok holder)
              × (let (found, behind) = seam.get key (seam.new_holder_id w).1 in
                  Granted key holder found behind l)))
  unfolding acquire
  acquire-Granted name w l h =
      let (key, (keyed, rest)) =
        bind-eq-ok (lift (lease_key_for_name name))
          (λ key.
            translate (λ e. lease_op name holder_id_op (some e)) seam.new_holder_id >>= λ holder.
            with_outcome (seam.get key) (by_entry lease_key_for_name ttl seam name key holder))
          w l h in
      elim (Result-cases (seam.new_holder_id w).0) [
        | inr (x, e) ↦ cc (rw e at rest)
        | inl (holder, e) ↦
            let (found, behind) = seam.get key (seam.new_holder_id w).1 in
            (
              key,
              holder,
              (keyed, (e, by_entry-Granted name key holder found behind l (rw e at rest))),
            )
      ]
