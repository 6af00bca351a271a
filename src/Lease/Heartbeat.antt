-- ===== src/Lease/Heartbeat.antt =====
-- A heartbeat keeps a lease only while its holder can prove it, and never extends it without a write.
use natsstore.Base.{
  ℕ, zero, suc, ◌+◌, ◌≡◌, ◌<◌, refl, true, false, some, ltb, ◌||◌, arith, Bool-cases, inl, inr, ◌⊎◌,
  ◌∙◌, ap,
}
use natsstore.Base.Bytes.{Bytes}
use natsstore.Base.Outcome.{Result, ok, err}
use natsstore.Faults.{Fault, is_key_not_found, is_cas_conflict}
use natsstore.Lease.{LeaseError, LeaseRecord, LeaseSeam, KvLease, settle_renew, renew, heartbeat}

module _ (lease_key_for_name : Bytes → Result LeaseError Bytes) (ttl : ℕ) {W : Type 0}
    (seam : LeaseSeam W) where
  -- The lease's end is what its own last write stored: the entry of its key was written at its revision,
  -- with a record of its epoch and holder that expires at that end.
  abbrev pub Backed : KvLease → Type 0
  Backed l =
      (w : W) × ((last : ℕ) × ((text : Bytes) × ((seam.marshal
                (record { epoch = l.epoch; holder = l.holder; expires_at = l.valid_until })
              ≡ some text)
            × ((seam.update l.key text last w).0 ≡ ok l.rev))))

  -- How the last beat proved the lease: by a renewal with the clock reading before it, or, where the renewal
  -- failed, by the clock reading behind it, which is before the lease's end.
  abbrev pub Proved : KvLease × W → Type 0
  Proved (l, w) =
      ((w0 : W) × ((last : ℕ) × ((text : Bytes) × ((seam.marshal (record {
        epoch = l.epoch;
        holder = l.holder;
        expires_at = (seam.now w0).0 + ttl;
      })
                ≡ some text)
              × ((seam.update l.key text last (seam.now w0).1 ≡ (ok l.rev, w))
                  × (l.valid_until ≡ (seam.now w0).0 + ttl))))))
      ⊎ ((w1 : W) × (((seam.now w1).1 ≡ w) × ((seam.now w1).0 < l.valid_until)))

  module _ (encodable : (rec : LeaseRecord) → (text : Bytes) × (seam.marshal rec ≡ some text)) where
    -- What a beat that keeps the lease does: it is proved, and either it was written or it is as before.
    abbrev Kept : KvLease → KvLease × W → Type 0
    Kept l s = Proved s × (Backed (s.0) ⊎ (s.0 ≡ l))

    settle_renew-Kept :
        (l : KvLease) (w0 : W) (text : Bytes)
        → seam.marshal
            (record { epoch = l.epoch; holder = l.holder; expires_at = (seam.now w0).0 + ttl })
          ≡ some text
        → (r : Result Fault ℕ) (w : W) → seam.update l.key text l.rev (seam.now w0).1 ≡ (r, w)
        → (settle_renew lease_key_for_name ttl seam l ((seam.now w0).0 + ttl) r w).0 ≡ true
        → Kept l (settle_renew lease_key_for_name ttl seam l ((seam.now w0).0 + ttl) r w).1
    settle_renew-Kept l w0 text marshalled (ok rev) w wrote h = (
      inl (w0, (l.rev, (text, (marshalled, (wrote, refl))))),
      inl ((seam.now w0).1, (l.rev, (text, (marshalled, ap (λ x. x.0) wrote)))),
    )
    settle_renew-Kept l w0 text marshalled (err e) w wrote h =
        elim (Bool-cases (is_cas_conflict e || is_key_not_found e)) [
          | inl f ↦ cc (rw f at h)
          | inr f ↦
              let below : ltb (seam.now w).0 l.valid_until ≡ true = rw f at h in
              rw f (inr (w, (refl, ground (arith, below))), inr refl)
        ]

    renew-Kept :
        (s : KvLease × W)
        → (renew lease_key_for_name ttl seam s).0 ≡ true
        → Kept s.0 (renew lease_key_for_name ttl seam s).1
    unfolding renew
    renew-Kept (l, w) h =
        let (text, e) =
          encodable
            (record { epoch = l.epoch; holder = l.holder; expires_at = (seam.now w).0 + ttl }) in
        let (r, w2) = seam.update l.key text l.rev (seam.now w).1 in
        rw (renew, e) (settle_renew-Kept l w text e r w2 refl (rw (renew, e) at h))

    beats-Kept :
        (beats : ℕ) (first : KvLease) (s : KvLease × W)
        → Kept first s
        → (heartbeat lease_key_for_name ttl seam beats s).0.lost ≡ false
        → Kept first (heartbeat lease_key_for_name ttl seam beats s)
    unfolding heartbeat
    beats-Kept zero first s kept h = kept
    beats-Kept (suc beats) first s kept h =
        elim (Bool-cases (renew lease_key_for_name ttl seam s).0) [
          | inr e ↦ cc (rw (heartbeat, e) at h)
          | inl e ↦
              let next = renew lease_key_for_name ttl seam s in
              let now_kept = renew-Kept s e in
              rw (heartbeat, e)
                (beats-Kept beats first (next.1) (now_kept.0, still kept.1 now_kept.1)
                  (rw (heartbeat, e) at h))
        ]
      where
        still :
            {l l' : KvLease}
            → Backed l ⊎ (l ≡ first)
            → Backed l' ⊎ (l' ≡ l)
            → Backed l' ⊎ (l' ≡ first)
        still before (inl written) = inl written
        still (inl written) (inr same) = inl (rw same written)
        still (inr old) (inr same) = inr (same ∙ old)

    -- After any positive number of beats, given that records can be encoded, a lease that is not lost was
    -- proved by its last beat: by a renewal, with its end a TTL behind the clock reading before the write, or,
    -- where the write failed, by the clock reading right behind it, which is before the lease's end. And its
    -- revision and end are those that its last successful write stored, or it is the lease that it was before
    -- the beats: a failed renewal never extends it.
    pub heartbeat-Proved :
        (beats : ℕ) (s : KvLease × W)
        → (heartbeat lease_key_for_name ttl seam (suc beats) s).0.lost ≡ false
        → Proved (heartbeat lease_key_for_name ttl seam (suc beats) s)
          × (Backed (heartbeat lease_key_for_name ttl seam (suc beats) s).0
              ⊎ ((heartbeat lease_key_for_name ttl seam (suc beats) s).0 ≡ s.0))
    unfolding heartbeat
    heartbeat-Proved beats s h = elim (Bool-cases (renew lease_key_for_name ttl seam s).0) [
      | inr e ↦ cc (rw (heartbeat, e) at h)
      | inl e ↦
          rw (heartbeat, e)
            (beats-Kept beats s.0 (renew lease_key_for_name ttl seam s).1 (renew-Kept s e)
              (rw (heartbeat, e) at h))
    ]
