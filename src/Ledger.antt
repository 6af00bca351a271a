-- ===== src/Ledger.antt =====
-- ledger.go: the store over one stream for each ledger, and the cursor that Read returns. The seam's
-- operations are parameters.
pub mod Cursor
use natsstore.Base.{ℕ, ◌+◌, ◌%◌, ◌^◌, Bool, true, false, ltb, if◌then◌else◌}
use natsstore.Base.Bytes.{Bytes}
use natsstore.Base.Outcome.{Result, ok, err, Op, pure, fail, lift, translate, ◌>>=◌, ◌>>◌}
use natsstore.Faults.{Fault, NoValue, is_wrong_last_sequence, is_ambiguous}

pub data LedgerError : Type 0 where
  invalid_name : Bytes → LedgerError
  conflict : Bytes → ℕ → LedgerError
  ambiguous : Bytes → ℕ → Fault → LedgerError
  record_read : Bytes → ℕ → Fault → LedgerError
  raw : Fault → LedgerError
  eof : LedgerError

pub record JsSeam (W : Type 0) : Type 0 where
  pub ensure_stream : Bytes → Bytes → ℕ → Op W Fault NoValue
  pub publish : Bytes → Bytes → ℕ → Op W Fault ℕ
  pub last_seq : Bytes → Op W Fault ℕ
  pub get_msg : Bytes → ℕ → Op W Fault Bytes
  pub delete_stream : Bytes → Op W Fault NoValue

pub record LedgerRecord : Type 0 where
  pub seq : ℕ
  pub payload : Bytes

pub record LedgerCursor : Type 0 where
  pub name : Bytes
  pub stream : Bytes
  pub next : ℕ
  pub tip : ℕ

-- The outcome of a publish whose fence was `expected`.
abbrev pub append_fault : Bytes → ℕ → Fault → LedgerError
append_fault name expected e =
    if is_wrong_last_sequence e
    then conflict name expected
    else if is_ambiguous e
    then ambiguous name expected e
    else raw e

module _ (stream_for_name subject_for_name : Bytes → Result LedgerError Bytes)
    (ledger_max_msg_size : ℕ) {W : Type 0} (seam : JsSeam W) where
  unfoldable pub append : Bytes → ℕ → Bytes → Op W LedgerError NoValue
  append name expected payload = do
    subject ← lift (subject_for_name name)
    stream ← lift (stream_for_name name)
    _ ← translate raw (seam.ensure_stream stream subject ledger_max_msg_size)
    _ ← translate (append_fault name expected) (seam.publish subject payload expected)
    pure tt

  unfoldable pub read : Bytes → ℕ → Op W LedgerError LedgerCursor
  read name from = do
    stream ← lift (stream_for_name name)
    tip ← translate raw (seam.last_seq stream)
    pure (record { name = name; stream = stream; next = if ltb from 1 then 1 else from; tip = tip })

  unfoldable pub tip : Bytes → Op W LedgerError ℕ
  tip name = do stream ← lift (stream_for_name name); translate raw (seam.last_seq stream)

  unfoldable pub delete : Bytes → Op W LedgerError NoValue
  delete name = do stream ← lift (stream_for_name name); translate raw (seam.delete_stream stream)

module _ {W : Type 0} (seam : JsSeam W) where
  -- `c.next++` wraps around.
  abbrev pub advance :
      LedgerCursor → Result Fault Bytes → W → Result LedgerError LedgerRecord × (LedgerCursor × W)
  advance c (err e) w = (err (record_read c.name c.next e), (c, w))
  advance c (ok payload) w = (
    ok (record { seq = c.next; payload = payload }),
    (record c { next = (c.next + 1) % 2 ^ 64 }, w),
  )

  -- ledgerCursor.Next, on the cursor and the world.
  unfoldable pub next_record : Op (LedgerCursor × W) LedgerError LedgerRecord
  next_record (c, w) =
      if ltb c.tip c.next
      then (err eof, (c, w))
      else let (r, w') = seam.get_msg c.stream c.next w in advance c r w'
