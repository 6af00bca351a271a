-- ===== src/Lease.antt =====
-- lease.go: acquiring, renewing and releasing a lease on a bucket of lease records. The bucket, the JSON
-- of a record, the holder ids and the clock are parameters; instants are counted in nanoseconds.
pub mod Fencing
pub mod Heartbeat
use natsstore.Base.{
  ℕ, zero, suc, ◌+◌, ◌-◌, ◌*◌, ◌%◌, ◌^◌, Bool, true, false, not, ◌||◌, Option, none, some, ltb, leb,
  if◌then◌else◌,
}
use natsstore.Base.Bytes.{Bytes}
use natsstore.Base.Outcome.{
  Result, ok, err, Op, pure, fail, lift, map_err, translate, with_outcome, ◌>>=◌, ◌>>◌,
}
use natsstore.Faults.{Fault, NoValue, is_key_not_found, is_key_exists, is_cas_conflict}

pub data LeaseOp : Type 0 where
  holder_id_op get_op decode_op encode_op create_op update_op release_op : LeaseOp

pub data LeaseError : Type 0 where
  invalid_name : Bytes → LeaseError
  lease_held : Bytes → ℕ → LeaseError
  lease_op : Bytes → LeaseOp → Option Fault → LeaseError

pub record LeaseRecord : Type 0 where
  pub epoch : ℕ
  pub holder : Bytes
  pub expires_at : ℕ

-- The bucket, and what of the standard library the leases call: time.Now, crypto/rand and encoding/json.
-- The decoder tells whether bytes follow the record.
pub record LeaseSeam (W : Type 0) : Type 0 where
  pub create : Bytes → Bytes → Op W Fault ℕ
  pub get : Bytes → Op W Fault (Bytes × ℕ)
  pub update : Bytes → Bytes → ℕ → Op W Fault ℕ
  pub now : W → ℕ × W
  pub new_holder_id : Op W Fault Bytes
  pub marshal : LeaseRecord → Option Bytes
  pub decode_json : Bytes → Option (LeaseRecord × Bool)

-- kvLease: the fields that the heartbeat and the holder change, and those that stay.
pub record KvLease : Type 0 where
  pub name : Bytes
  pub key : Bytes
  pub holder : Bytes
  pub epoch : ℕ
  pub rev : ℕ
  pub valid_until : ℕ
  pub released : Bool
  pub lost : Bool

module _ (lease_key_for_name : Bytes → Result LeaseError Bytes) (ttl : ℕ) {W : Type 0}
    (seam : LeaseSeam W) where
  unfoldable pub decode_lease_record : Bytes → Option LeaseRecord
  decode_lease_record text = elim (seam.decode_json text) [
    | none ↦ none
    | some (rec, more) ↦ if more then none else some rec
  ]

  -- encode: the record with the instant that it expires at.
  unfoldable pub encode : Bytes → ℕ → Bytes → Op W LeaseError (Bytes × ℕ)
  encode name epoch holder w =
      let (t, w') = seam.now w in
      elim (seam.marshal (record { epoch = epoch; holder = holder; expires_at = t + ttl })) [
        | none ↦ (err (lease_op name encode_op none), w')
        | some text ↦ (ok (text, t + ttl), w')
      ]

  -- expired: an equal instant counts as expired.
  unfoldable pub expired : LeaseRecord → Op W LeaseError Bool
  expired rec w = let (t, w') = seam.now w in (ok (leb rec.expires_at t), w')

  abbrev pub start : Bytes → Bytes → Bytes → ℕ → ℕ → ℕ → KvLease
  start name key holder epoch rev valid_until = record {
    name = name;
    key = key;
    holder = holder;
    epoch = epoch;
    rev = rev;
    valid_until = valid_until;
    released = false;
    lost = false;
  }

  unfoldable pub create_lease : Bytes → Bytes → Bytes → ℕ → Op W LeaseError KvLease
  unfolding encode
  create_lease name key holder epoch = encode name epoch holder >>= λ text.
      translate
        (λ e. if is_key_exists e then lease_held name epoch else lease_op name create_op (some e))
        (seam.create key text.0)
      >>= λ rev. pure (start name key holder epoch rev text.1)

  -- `epoch - 1` wraps around.
  unfoldable pub update_lease : Bytes → Bytes → Bytes → ℕ → ℕ → Op W LeaseError KvLease
  unfolding encode
  update_lease name key holder epoch last_rev = encode name epoch holder >>= λ text.
      translate
        (λ e.
          if is_cas_conflict e || is_key_not_found e
          then lease_held name ((epoch + (2 ^ 64 - 1)) % 2 ^ 64)
          else lease_op name update_op (some e))
        (seam.update key text.0 last_rev)
      >>= λ rev. pure (start name key holder epoch rev text.1)

  -- The entry that a get found: taken over only if it decodes and has expired.
  abbrev pub take_over : Bytes → Bytes → Bytes → ℕ → Option LeaseRecord → Op W LeaseError KvLease
  take_over name key holder rev none = fail (lease_op name decode_op none)
  take_over name key holder rev (some rec) = expired rec >>= λ over.
      if over
      then update_lease name key holder ((rec.epoch + 1) % 2 ^ 64) rev
      else fail (lease_held name rec.epoch)

  abbrev pub by_entry : Bytes → Bytes → Bytes → Result Fault (Bytes × ℕ) → Op W LeaseError KvLease
  by_entry name key holder (ok (text, rev)) =
      take_over name key holder rev (decode_lease_record text)
  by_entry name key holder (err e) =
      if is_key_not_found e
      then create_lease name key holder 1
      else fail (lease_op name get_op (some e))

  unfoldable pub acquire : Bytes → Op W LeaseError KvLease
  unfolding decode_lease_record expired create_lease update_lease
  acquire name = lift (lease_key_for_name name) >>= λ key.
      translate (λ e. lease_op name holder_id_op (some e)) seam.new_holder_id >>= λ holder.
      with_outcome (seam.get key) (by_entry name key holder)

  -- renew's answer to the outcome of its update: whether the lease is still ours.
  abbrev pub settle_renew : KvLease → ℕ → Result Fault ℕ → W → Bool × (KvLease × W)
  settle_renew l expires_at (ok new_rev) w =
      (true, (record l { rev = new_rev; valid_until = expires_at }, w))
  settle_renew l expires_at (err e) w =
      if is_cas_conflict e || is_key_not_found e
      then (false, (l, w))
      else let (t, w') = seam.now w in (ltb t l.valid_until, (l, w'))

  unfoldable pub renew : KvLease × W → Bool × (KvLease × W)
  renew (l, w) =
      let (t, w1) = seam.now w in
      elim (seam.marshal (record { epoch = l.epoch; holder = l.holder; expires_at = t + ttl })) [
        | none ↦ (true, (l, w1))
        | some text ↦ let (r, w2) = seam.update l.key text l.rev w1 in settle_renew l (t + ttl) r w2
      ]

  -- The heartbeat over `beats` ticks: it ends with the first renewal that surrenders the lease.
  unfoldable pub heartbeat : ℕ → KvLease × W → KvLease × W
  unfolding renew
  heartbeat zero s = s
  heartbeat (suc beats) s =
      let (ours, s') = renew s in
      elim ours [ true ↦ heartbeat beats s' | false ↦ (record (s'.0) { lost = true }, s'.1) ]

  abbrev pub release_outcome : Bytes → Result Fault ℕ → Result LeaseError NoValue
  release_outcome name (ok rev) = ok tt
  release_outcome name (err e) =
      if is_cas_conflict e || is_key_not_found e
      then ok tt
      else err (lease_op name release_op (some e))

  unfoldable pub release : Op (KvLease × W) LeaseError NoValue
  release (l, w) =
      if l.released
      then (ok tt, (l, w))
      else let gone : KvLease = record l { released = true; lost = true } in
        let (t, w1) = seam.now w in
        elim (seam.marshal (record { epoch = l.epoch; holder = l.holder; expires_at = t })) [
          | none ↦ (err (lease_op l.name encode_op none), (gone, w1))
          | some text ↦
              let (r, w2) = seam.update l.key text l.rev w1 in
              (release_outcome l.name r, (gone, w2))
        ]
