-- ===== src/Ordered/Codec/Counter.antt =====
-- The order counter's payload: the decoder accepts exactly the canonical decimals of nonzero uint64s.
use natsstore.Base.{ℕ, ◌≡◌, ◌≤◌, ◌<◌, arith}
use natsstore.Base.Bytes.{Bytes, bytes_eq_iff, bytes_eq_refl}
use natsstore.Base.Decimal.{format_uint, parse_uint-format_uint, parse_uint-le}
use natsstore.Base.Outcome.{ok}
use natsstore.Ordered.Codec.{max_uint64, encode_ordered_counter, decode_ordered_counter}

-- An order from 1 to the largest uint64 that was encoded is decoded to itself.
pub decode-encode_ordered_counter :
    (order : ℕ)
    → 0 < order
    → order ≤ max_uint64
    → decode_ordered_counter (encode_ordered_counter order) ≡ ok order
unfolding decode_ordered_counter
decode-encode_ordered_counter order h k =
    ground (arith, parse_uint-format_uint max_uint64 order, bytes_eq_refl (format_uint order))

-- What the decoder accepts is the canonical decimal of a nonzero order that fits a uint64.
pub decode_ordered_counter_canonical :
    (text : Bytes) (order : ℕ)
    → decode_ordered_counter text ≡ ok order
    → (encode_ordered_counter order ≡ text) × (0 < order) × (order ≤ max_uint64)
unfolding decode_ordered_counter
decode_ordered_counter_canonical text order h =
    ground (arith, parse_uint-le max_uint64 text order, bytes_eq_iff (format_uint order) text)
