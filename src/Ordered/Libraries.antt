-- ===== src/Ordered/Libraries.antt =====
-- What the ordered store takes from code outside the repository: the contract of package storage, and
-- the encodings of Go's standard library (crypto/sha256, encoding/base64, encoding/json).
use natsstore.Base.{ℕ, Bool, Option}
use natsstore.Base.Int.{ℤ}
use natsstore.Base.Bytes.{Bytes}
use natsstore.Ordered.Record.{OrderedId, OrderedRecord, Due}

pub record Storage : Type 0 where
  pub validate_name : Bytes → Bool
  pub validate_ordered_id : OrderedId → Bool
  pub validate_ordered_value : Bytes → Bool
  pub validate_due : Due → Bool
  pub validate_ordered_record : OrderedRecord → Bool
  pub validate_ordered_limit : ℕ → Bool
  pub not_due : ℕ
  pub due_at : ℕ
  pub ranked_cursor_kind : Bytes
  pub due_cursor_kind : Bytes

-- The wire form of a record: orderedPayload of ordered_codec.go.
pub record OrderedPayload : Type 0 where
  pub version : ℕ
  pub namespace : Bytes
  pub ordering_scope : Bytes
  pub stable_key : Bytes
  pub ranking_scope : Bytes
  pub revision : ℕ
  pub order : ℕ
  pub due_state : ℕ
  pub due_unix_millis : ℤ
  pub ranked : Bool
  pub rank_value : ℤ
  pub deleted : Bool
  pub value : Bytes

-- The position that a continuation token carries: orderedCursorPayload.
pub record CursorPayload : Type 0 where
  pub kind : Bytes
  pub namespace : Bytes
  pub ranking_scope : Bytes
  pub rank : ℤ
  pub due_bound : ℤ
  pub due_at : ℤ
  pub stable_key : Bytes
  pub ordering_scope : Bytes

-- A decoder of JSON returns the value with `dec.More()`, or nothing where Decode fails.
pub record Encodings : Type 0 where
  pub sha256 : Bytes → Bytes
  pub base64_encode : Bytes → Bytes
  pub base64_decode : Bytes → Option Bytes
  pub marshal_record : OrderedPayload → Option Bytes
  pub decode_record_json : Bytes → Option (OrderedPayload × Bool)
  pub marshal_cursor : CursorPayload → Option Bytes
  pub decode_cursor_json : Bytes → Option (CursorPayload × Bool)
