-- ===== src/Blobs.antt =====
-- blobs.go: the store over one object bucket, whose operations are parameters. The content that a
-- caller's reader yields is a value, or the fault that the reader ended with.
pub mod Lifecycle
use natsstore.Base.{[], ℕ, Bool, true, List, if◌then◌else◌, Option, none, some}
use natsstore.Base.Bytes.{Bytes, bytes_eq}
use natsstore.Base.Outcome.{Result, ok, err, Op, pure, fail, lift, translate, with_outcome, ◌>>=◌}
use natsstore.Faults.{Fault, NoValue, is_obj_not_found, nil_object_reader}
use natsstore.Listing.{sorted_dedup_filtered}

pub data BlobOp : Type 0 where
  read_op get_info_op put_op get_op delete_op list_op : BlobOp

pub data BlobError : Type 0 where
  invalid_name : Bytes → BlobError
  blob_not_found : Bytes → BlobError
  blob_conflict : Bytes → BlobError
  blob_op : Bytes → BlobOp → Fault → BlobError

-- `R` is what the seam returns for reading an object; a nil reader is `none`.
pub record ObjSeam (W R : Type 0) : Type 0 where
  pub get_info : Bytes → Op W Fault Bytes
  pub put : Bytes → Bytes → Op W Fault NoValue
  pub get : Bytes → Op W Fault (Option R)
  pub delete : Bytes → Op W Fault NoValue
  pub list : Op W Fault (List Bytes)

module _ (validate_name : Bytes → Bool) (sha256 : Bytes → Bytes) {W R : Type 0}
    (seam : ObjSeam W R) where
  unfoldable pub blob_key_for_name : Bytes → Result BlobError Bytes
  blob_key_for_name key = if validate_name key then ok key else err (invalid_name key)

  -- The digest that the store holds decides, or its absence.
  abbrev pub put_content : Bytes → Bytes → Bytes → Result Fault Bytes → Op W BlobError NoValue
  put_content key k content (ok existing) =
      if bytes_eq existing (sha256 content) then pure tt else fail (blob_conflict key)
  put_content key k content (err e) =
      if is_obj_not_found e
      then translate (blob_op key put_op) (seam.put k content)
      else fail (blob_op key get_info_op e)

  abbrev pub put_read : Bytes → Bytes → Result Fault Bytes → Op W BlobError NoValue
  put_read key k (err e) = fail (blob_op key read_op e)
  put_read key k (ok content) = with_outcome (seam.get_info k) (put_content key k content)

  unfoldable pub put : Bytes → Result Fault Bytes → Op W BlobError NoValue
  unfolding blob_key_for_name
  put key source = do k ← lift (blob_key_for_name key); put_read key k source

  abbrev pub reader_of : Bytes → Result Fault (Option R) → Result BlobError R
  reader_of key (ok none) = err (blob_op key get_op nil_object_reader)
  reader_of key (ok (some r)) = ok r
  reader_of key (err e) =
      if is_obj_not_found e then err (blob_not_found key) else err (blob_op key get_op e)

  unfoldable pub get : Bytes → Op W BlobError R
  get key = do
    k ← lift (blob_key_for_name key)
    with_outcome (seam.get k) (λ r. lift (reader_of key r))

  unfoldable pub delete : Bytes → Op W BlobError NoValue
  delete key = do
    k ← lift (blob_key_for_name key)
    translate (blob_op key delete_op) (seam.delete k)

  unfoldable pub list : Bytes → Op W BlobError (List Bytes)
  list prefix = do
    all ← translate (blob_op prefix list_op) seam.list
    pure (sorted_dedup_filtered all prefix)

-- What Read returns: the bytes that it put into the buffer, and the error beside them.
abbrev pub ReadResult : Type 0
ReadResult = Bytes × Option Fault

-- blobLifecycleReader: reads go on until the first Close, whose outcome later ones repeat.
pub record BlobLifecycleReader (U : Type 0) : Type 0 where
  pub underlying : U
  pub closed : Bool
  pub close_err : Option (Result Fault NoValue)

module _ {U : Type 0} (read_underlying : ℕ → U → ReadResult × U)
    (close_underlying : Op U Fault NoValue) (err_closed : Fault) where
  unfoldable pub read : ℕ → BlobLifecycleReader U → ReadResult × BlobLifecycleReader U
  read n r =
      if r.closed
      then (([], some err_closed), r)
      else let (result, u) = read_underlying n r.underlying in (result, record r { underlying = u })

  unfoldable pub close : Op (BlobLifecycleReader U) Fault NoValue
  close r = elim r.close_err [
    | some outcome ↦ (outcome, record r { closed = true })
    | none ↦
        let (outcome, u) = close_underlying r.underlying in
        (outcome, record { underlying = u; closed = true; close_err = some outcome })
  ]
