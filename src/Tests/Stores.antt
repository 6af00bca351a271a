-- ===== src/Tests/Stores.antt =====
-- Witnesses for the ledgers, the leases, the listings and the blob readers.
use natsstore.Base.{
  some, ◌⊎◌, ℕ, ◌+◌, ◌≡◌, ◌≤◌, ◌-◌, refl, false, ◌&&◌, List, [], ◌∷◌, map, none, some, arith,
}
use natsstore.Base.Bytes.{Bytes, bytes, bytes_lt, bytes_Eq, has_prefix}
use natsstore.Base.Outcome.{Result, ok, err, pure, fail}
use natsstore.Ordered.Index.{contains}
use natsstore.Ordered.Index.Sorted.{Sorted}
use natsstore.Faults.{kv_key_not_found, backend_fault}
use natsstore.Listing.{sorted_dedup_filtered}
use natsstore.Listing.Sorted.{sorted_dedup_filtered-listing}
use natsstore.Blobs.{ReadResult, BlobLifecycleReader, read, close}
use natsstore.Blobs.Lifecycle.{close-final}
use natsstore.Ledger.{JsSeam, LedgerCursor, LedgerRecord, next_record}
use natsstore.Ledger.Cursor.{from, drain, drain-consecutive}
use natsstore.Lease.{
  LeaseSeam, LeaseRecord, KvLease, LeaseError, acquire, create_lease, encode, heartbeat, renew,
}
use natsstore.Lease.Fencing.{Granted, acquire-Granted}
use natsstore.Lease.Heartbeat.{Proved, Backed, heartbeat-Proved}

-- A stream whose message at a sequence is one byte.
abbrev js : JsSeam ℕ
js = record {
  ensure_stream = λ s j n. pure tt;
  publish = λ j p e. pure 0;
  last_seq = λ s. pure 5;
  get_msg = λ s n. pure (n ∷ []);
  delete_stream = λ s. pure tt;
}

abbrev two_left : LedgerCursor
two_left = record { name = bytes "a"; stream = bytes "a"; next = 4; tip = 5 }

abbrev two_records : List LedgerRecord
two_records = record { seq = 4; payload = 4 ∷ [] } ∷ record { seq = 5; payload = 5 ∷ [] } ∷ []

drained : (drain js 2 (two_left, 0)).0 ≡ ok two_records
unfolding drain next_record
drained = refl

drain-consecutive_example :
    (map (λ r. r.seq) two_records ≡ from 2 4)
    × (((drain js 2 (two_left, 0)).1.0.next ≡ 6) × (2 ≤ 5 + 1 - 4))
drain-consecutive_example = drain-consecutive js 2 two_left 0 two_records (omega arith) drained

abbrev keys : List Bytes
keys = bytes "b" ∷ bytes "a" ∷ bytes "b" ∷ []

sorted_dedup_filtered-listing_example :
    Sorted bytes_lt (sorted_dedup_filtered keys [])
    × ((j : Bytes)
        → contains j (sorted_dedup_filtered keys []) ≡ (has_prefix j [] && contains j keys))
sorted_dedup_filtered-listing_example = sorted_dedup_filtered-listing keys []

abbrev reader : BlobLifecycleReader ℕ
reader = record { underlying = 0; closed = false; close_err = none }

-- A reader that is at its end.
abbrev no_bytes : ℕ → ℕ → ReadResult × ℕ
no_bytes n u = (([], none), u)

close-final_example :
    (close no_bytes
        (pure tt)
        (backend_fault 1)
        (close no_bytes (pure tt) (backend_fault 1) reader).1
      ≡ close no_bytes (pure tt) (backend_fault 1) reader)
    × (read no_bytes
          (pure tt)
          (backend_fault 1)
          3
          (close no_bytes (pure tt) (backend_fault 1) reader).1
        ≡ (([], some (backend_fault 1)), (close no_bytes (pure tt) (backend_fault 1) reader).1))
close-final_example = close-final no_bytes (pure tt) (backend_fault 1) 3 reader

-- An empty bucket, and a clock that is the world and ticks once per reading.
abbrev bucket : LeaseSeam ℕ
bucket = record {
  create = λ k v. pure 1;
  get = λ k. fail kv_key_not_found;
  update = λ k v r. pure (r + 1);
  now = λ w. (w, w + 1);
  new_holder_id = pure (bytes "h");
  marshal = λ r. some (bytes "L");
  decode_json = λ b. none;
}

abbrev any_key : Bytes → Result LeaseError Bytes
any_key name = ok name

abbrev granted : KvLease
granted = record {
  name = bytes "a";
  key = bytes "a";
  holder = bytes "h";
  epoch = 1;
  rev = 1;
  valid_until = 130;
  released = false;
  lost = false;
}

acquired : (acquire any_key 30 bucket (bytes "a") 100).0 ≡ ok granted
unfolding acquire create_lease encode
acquired = refl

acquire-Granted_example :
    (key holder : Bytes) × ((any_key (bytes "a") ≡ ok key)
      × (((bucket.new_holder_id 100).0 ≡ ok holder)
          × Granted any_key 30 bucket key holder (err kv_key_not_found) 100 granted))
acquire-Granted_example = acquire-Granted any_key 30 bucket (bytes "a") 100 granted acquired

kept : (heartbeat any_key 30 bucket 2 (granted, 101)).0.lost ≡ false
unfolding heartbeat renew
kept = refl

marshalled : (rec : LeaseRecord) → (text : Bytes) × (bucket.marshal rec ≡ some text)
marshalled rec = (bytes "L", refl)

heartbeat-Proved_example :
    Proved any_key 30 bucket (heartbeat any_key 30 bucket 2 (granted, 101))
    × (Backed any_key 30 bucket (heartbeat any_key 30 bucket 2 (granted, 101)).0
        ⊎ ((heartbeat any_key 30 bucket 2 (granted, 101)).0 ≡ granted))
heartbeat-Proved_example = heartbeat-Proved any_key 30 bucket marshalled 1 (granted, 101) kept
