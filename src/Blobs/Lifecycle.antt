-- ===== src/Blobs/Lifecycle.antt =====
-- Closing a blob reader is final and stable.
use natsstore.Base.{[], ℕ, ◌≡◌, refl, Option, none, some}
use natsstore.Base.Outcome.{Result, Op}
use natsstore.Faults.{Fault, NoValue}
use natsstore.Blobs.{ReadResult, BlobLifecycleReader, read, close}

module _ {U : Type 0} (read_underlying : ℕ → U → ReadResult × U)
    (close_underlying : Op U Fault NoValue) (err_closed : Fault) where
  -- After a Close another one returns the same outcome and changes nothing, and a Read copies nothing, fails as closed and
  -- changes nothing.
  pub close-final :
      (n : ℕ) (r : BlobLifecycleReader U)
      → (close read_underlying close_underlying err_closed
            (close read_underlying close_underlying err_closed r).1
          ≡ close read_underlying close_underlying err_closed r)
        × (read read_underlying close_underlying err_closed n
              (close read_underlying close_underlying err_closed r).1
            ≡ ((([], some err_closed)), (close read_underlying close_underlying err_closed r).1))
  unfolding read close
  close-final n r = by_outcome r.close_err
    where
      of_outcome : Option (Result Fault NoValue) → BlobLifecycleReader U
      of_outcome outcome = record r { close_err = outcome }

      by_outcome :
          (outcome : Option (Result Fault NoValue))
          → (close read_underlying close_underlying err_closed
                (close read_underlying close_underlying err_closed (of_outcome outcome)).1
              ≡ close read_underlying close_underlying err_closed (of_outcome outcome))
            × (read read_underlying close_underlying err_closed n
                  (close read_underlying close_underlying err_closed (of_outcome outcome)).1
                ≡ (
                  ([], some err_closed),
                  (close read_underlying close_underlying err_closed (of_outcome outcome)).1,
                ))
      by_outcome none = (refl, refl)
      by_outcome (some o) = (refl, refl)
