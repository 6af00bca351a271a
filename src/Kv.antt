-- ===== src/Kv.antt =====
-- kv.go: the store over one key-value bucket, whose operations are parameters.
use natsstore.Base.{ℕ, Bool, ◌||◌, List, ◌==◌, if◌then◌else◌}
use natsstore.Base.Bytes.{Bytes}
use natsstore.Base.Outcome.{Result, ok, err, Op, pure, lift, translate, ◌>>=◌}
use natsstore.Faults.{Fault, NoValue, is_key_not_found, is_key_exists, is_cas_conflict}
use natsstore.Listing.{sorted_dedup_filtered}

pub data KvOp : Type 0 where
  get_op create_op update_op keys_op delete_op : KvOp

pub data KvError : Type 0 where
  invalid_name : Bytes → KvError
  key_not_found : Bytes → KvError
  conflict : Bytes → ℕ → KvError
  kv_op : Bytes → KvOp → Fault → KvError

pub record KvSeam (W : Type 0) : Type 0 where
  pub create : Bytes → Bytes → Op W Fault ℕ
  pub get : Bytes → Op W Fault (Bytes × ℕ)
  pub update : Bytes → Bytes → ℕ → Op W Fault ℕ
  pub del : Bytes → Op W Fault NoValue
  pub keys : Op W Fault (List Bytes)

module _ (validate_name : Bytes → Bool) {W : Type 0} (seam : KvSeam W) where
  unfoldable pub kv_key_for_name : Bytes → Result KvError Bytes
  kv_key_for_name key = if validate_name key then ok key else err (invalid_name key)

  unfoldable pub get : Bytes → Op W KvError (Bytes × ℕ)
  get key = do
    k ← lift (kv_key_for_name key)
    translate (λ e. if is_key_not_found e then key_not_found key else kv_op key get_op e)
        (seam.get k)

  unfoldable pub create : Bytes → Bytes → Bytes → Op W KvError ℕ
  create key k val =
      translate (λ e. if is_key_exists e then conflict key 0 else kv_op key create_op e)
        (seam.create k val)

  unfoldable pub update : Bytes → Bytes → ℕ → Bytes → Op W KvError ℕ
  update key k expected val =
      translate
        (λ e.
          if is_cas_conflict e || is_key_not_found e
          then conflict key expected
          else kv_op key update_op e)
        (seam.update k val expected)

  unfoldable pub put : Bytes → ℕ → Bytes → Op W KvError ℕ
  unfolding create update kv_key_for_name
  put key expected val = do
    k ← lift (kv_key_for_name key)
    if expected == 0 then create key k val else update key k expected val

  unfoldable pub keys : Bytes → Op W KvError (List Bytes)
  keys prefix = do
    all ← translate (kv_op prefix keys_op) seam.keys
    pure (sorted_dedup_filtered all prefix)

  unfoldable pub delete : Bytes → Op W KvError NoValue
  delete key = do k ← lift (kv_key_for_name key); translate (kv_op key delete_op) (seam.del k)
