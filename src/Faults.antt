-- ===== src/Faults.antt =====
-- What the seams of the unordered stores fail with: the sentinels of seam.go, the lost acknowledgements of
-- ledger.go, and any other fault of the backend.
use natsstore.Base.{ℕ, Bool, true, false}

pub data Fault : Type 0 where
  kv_key_not_found kv_key_exists kv_cas_conflict obj_not_found wrong_last_sequence deadline_exceeded
        nats_timeout no_stream_response nil_object_reader :
      Fault
  backend_fault : ℕ → Fault

-- What an operation returns that only fails or succeeds.
abbrev pub NoValue : Type 0
NoValue = Unit

abbrev pub is_key_not_found : Fault → Bool
is_key_not_found kv_key_not_found = true
is_key_not_found _ = false

abbrev pub is_key_exists : Fault → Bool
is_key_exists kv_key_exists = true
is_key_exists _ = false

abbrev pub is_cas_conflict : Fault → Bool
is_cas_conflict kv_cas_conflict = true
is_cas_conflict _ = false

abbrev pub is_obj_not_found : Fault → Bool
is_obj_not_found obj_not_found = true
is_obj_not_found _ = false

unfoldable pub is_wrong_last_sequence : Fault → Bool
is_wrong_last_sequence wrong_last_sequence = true
is_wrong_last_sequence _ = false

unfoldable pub is_ambiguous : Fault → Bool
is_ambiguous deadline_exceeded = true
is_ambiguous nats_timeout = true
is_ambiguous no_stream_response = true
is_ambiguous _ = false
