-- ===== src/Ordered/Store/Created.antt =====
-- What Create returns: the record of the identity that was there, or the one that this call wrote.
use natsstore.Base.Bytes.{Bytes}
use natsstore.Ordered.Store.Allocated.{Allocated}
