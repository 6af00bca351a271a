-- ===== src/Ordered/View/Invariant/Acceptance.antt =====
-- The acceptance-order index under storage and insertion of one record.
use natsstore.Base.{ℕ, ◌≡◌, ◌≢◌, refl, true, false, some, arith, Bool-cases, inl, inr}
use natsstore.Base.Bytes.{Bytes, bytes_eq, bytes_eq_iff, bytes_eq_refl}
use natsstore.Base.Dict.{find, put, find-put}
use natsstore.Ordered.Record.{
  OrderedRecord, OrderedIdentity, identity, identity_Eq, identity_eq_iff,
}
use natsstore.Ordered.Index.Sorted.{Sorted-ext}
use natsstore.Ordered.View.{
  View, entries_of, record_at, order_lower_bound_locked, lower_bound_locked, insert_order_locked,
  insert_current_locked, insert_ranked, remove_current_locked, remove_ranked,
}
use natsstore.Ordered.View.Indexed.{
  Indexed, IndexedBut, by_records, inserted-Indexed, absent-Indexed,
}
use natsstore.Ordered.View.Keys.{order_before, order_before-IsStrict, entries_of-put}
use natsstore.Ordered.View.Invariant.{accepted_in, Allocates, IsIndexed}
use natsstore.Ordered.View.Invariant.Current.{
  remove_ranked_frame, remove_due_frame, insert_ranked_frame, insert_due_frame,
}

module _ (due_at : ℕ) (key : OrderedIdentity) (rec : OrderedRecord) (v : View) where
  pub insert_current_locked_frame :
      ((insert_current_locked due_at key rec v).records ≡ v.records)
      × ((insert_current_locked due_at key rec v).order ≡ v.order)
  unfolding insert_current_locked
  insert_current_locked_frame = ground (
    arith,
    insert_ranked_frame due_at key rec v,
    insert_due_frame due_at key rec (insert_ranked due_at key rec v),
  )

  pub remove_current_locked_frame :
      ((remove_current_locked due_at key rec v).records ≡ v.records)
      × ((remove_current_locked due_at key rec v).order ≡ v.order)
  unfolding remove_current_locked
  remove_current_locked_frame = ground (
    arith,
    remove_ranked_frame due_at key rec v,
    remove_due_frame due_at key rec (remove_ranked due_at key rec v),
  )

  pub insert_order_locked_frame :
      ((insert_order_locked due_at key rec v).records ≡ v.records)
      × ((insert_order_locked due_at key rec v).ranked ≡ v.ranked)
      × ((insert_order_locked due_at key rec v).due ≡ v.due)
  unfolding insert_order_locked
  insert_order_locked_frame = (refl, refl, refl)

module _ (due_at : ℕ) (assigned : OrderedIdentity → ℕ) (allocates : Allocates assigned) where
  module _ (v : View) (rec : OrderedRecord) (stored : find (identity rec) v.records ≡ some rec)
      (keyed : (k : OrderedIdentity) (r : OrderedRecord)
        → find k v.records ≡ some r
        → identity r ≡ k)
      (allocated : (k : OrderedIdentity) (r : OrderedRecord)
        → find k v.records ≡ some r
        → r.order ≡ assigned k) where
    -- Two records of one scope have different orders.
    orders_differ :
        (s : Bytes) (k : OrderedIdentity) (r : OrderedRecord)
        → accepted_in s rec ≡ true
        → k ≢ identity rec
        → find k v.records ≡ some r
        → accepted_in s r ≡ true
        → order_before r rec ≡ false
        → order_before rec r ≡ true
    orders_differ s k r a differ here b h = ground (
      arith,
      keyed k r here,
      allocated k r here,
      allocated (identity rec) rec stored,
      bytes_eq_iff rec.id.ordering_scope s,
      bytes_eq_iff r.id.ordering_scope s,
      allocates k (identity rec),
      differ,
    )

    pub insert_order_locked-Indexed :
        (s : Bytes)
        → ((s : Bytes)
            → IndexedBut
                (identity rec)
                order_before
                (accepted_in s)
                v.records
                (entries_of s v.order))
        → Indexed order_before
            (accepted_in s)
            v.records
            (entries_of s (insert_order_locked due_at (identity rec) rec v).order)
    unfolding insert_order_locked order_lower_bound_locked
    insert_order_locked-Indexed s x =
        rw entries_of-put (elim (Bool-cases (bytes_eq rec.id.ordering_scope s)) [
          | inr f ↦ rw f (absent-Indexed order_before-IsStrict (identity rec) (x s) (rw stored f))
          | inl f ↦
              let same = (bytes_eq_iff rec.id.ordering_scope s).0 f in
              rw f (
                rw (← same) (
                  unfold lower_bound_locked in
                  inserted-Indexed order_before-IsStrict (identity rec) rec
                    (x rec.id.ordering_scope) stored (bytes_eq_refl rec.id.ordering_scope)
                    (λ k r h q b.
                      orders_differ rec.id.ordering_scope k r (bytes_eq_refl rec.id.ordering_scope)
                        h q b)))
        ])

  -- A newer version of a record keeps its order, so the acceptance order stands.
  pub put-order_index :
      (v : View) (rec previous : OrderedRecord) (s : Bytes)
      → IsIndexed due_at assigned v
      → find (identity rec) v.records ≡ some previous
      → rec.order ≡ assigned (identity rec)
      → Indexed order_before
          (accepted_in s)
          (put (identity rec) rec v.records)
          (entries_of s v.order)
  put-order_index v rec previous s x here own = record {
    sorted =
        Sorted-ext (by_records order_before v.records)
          (by_records order_before (put (identity rec) rec v.records)) (entries_of s v.order)
          (λ a b p q. cc (kept a, kept b)) (x.order_index s).sorted;
    exact = λ k. ground (
      arith,
      (x.order_index s).exact k,
      find-put (identity rec) k rec v.records,
      identity_eq_iff (identity rec) k,
      here,
      x.keyed (identity rec) previous here,
    );
  }
    where
      kept :
          (k : OrderedIdentity)
          → (record_at v.records k).order ≡ (record_at (put (identity rec) rec v.records) k).order
      kept k = ground (
        arith,
        find-put (identity rec) k rec v.records,
        identity_eq_iff (identity rec) k,
        here,
        own,
        x.allocated (identity rec) previous here,
      )
