-- ===== src/Ordered/View/Invariant/Upsert.antt =====
-- applyRecord as a whole: it keeps the invariant of the view, and the newest version of each record wins.
use natsstore.Base.{ℕ, ◌≡◌, refl, none, some, arith, leb, Bool-cases, Option-cases, inl, inr}
use natsstore.Base.Dict.{find, put, find-put}
use natsstore.Ordered.Record.{
  OrderedRecord, OrderedIdentity, identity, identity_Eq, identity_eq_iff,
}
use natsstore.Ordered.View.{
  View, insert_order_locked, remove_current_locked, store_record, upsert, apply_record,
}
use natsstore.Ordered.View.Indexed.{absent-IndexedBut, put-IndexedBut}
use natsstore.Ordered.View.Keys.{order_before-IsStrict, ranked_before-IsStrict, due_before-IsStrict}
use natsstore.Ordered.View.Invariant.{Allocates, IsIndexed, CurrentBut}
use natsstore.Ordered.View.Invariant.Current.{
  remove_current_locked-CurrentBut, store_record-CurrentBut, insert_current_locked-ranked,
  insert_current_locked-due,
}
use natsstore.Ordered.View.Invariant.Acceptance.{
  insert_current_locked_frame, remove_current_locked_frame, insert_order_locked_frame,
  insert_order_locked-Indexed, put-order_index,
}

module _ (due_at : ℕ) (assigned : OrderedIdentity → ℕ) (allocates : Allocates assigned) where
  module _ (v : View) (rec : OrderedRecord) (x : IsIndexed due_at assigned v)
      (own : rec.order ≡ assigned (identity rec)) where
    put_keyed :
        (k : OrderedIdentity) (r : OrderedRecord)
        → find k (put (identity rec) rec v.records) ≡ some r
        → identity r ≡ k
    put_keyed k r h = ground (
      arith,
      find-put (identity rec) k rec v.records,
      identity_eq_iff (identity rec) k,
      x.keyed k r,
    )

    put_allocated :
        (k : OrderedIdentity) (r : OrderedRecord)
        → find k (put (identity rec) rec v.records) ≡ some r
        → r.order ≡ assigned k
    put_allocated k r h = ground (
      arith,
      find-put (identity rec) k rec v.records,
      identity_eq_iff (identity rec) k,
      x.allocated k r,
      own,
    )

    put_stored : find (identity rec) (put (identity rec) rec v.records) ≡ some rec
    put_stored = rw find-put (rw ((identity_eq_iff (identity rec) (identity rec)).1 refl))

    -- A record of an identity that the view has not seen.
    upsert_new-IsIndexed :
        find (identity rec) v.records ≡ none → IsIndexed due_at assigned (upsert due_at rec none v)
    unfolding upsert
    upsert_new-IsIndexed absent =
        let key = identity rec in
        let w = store_record due_at key rec v in
        let u = insert_order_locked due_at key rec w in
        let last = insert_current_locked_frame due_at key rec u in
        let mid = insert_order_locked_frame due_at key rec w in
        let but : CurrentBut due_at key w = store_record-CurrentBut due_at v key rec (record {
          ranked_index =
              λ s. absent-IndexedBut ranked_before-IsStrict key (x.ranked_index s) (rw absent);
          due_index = absent-IndexedBut due_before-IsStrict key x.due_index (rw absent);
        }) in
        let but' : CurrentBut due_at key u = record {
          ranked_index = λ s. rw (mid.0, mid.1) (but.ranked_index s);
          due_index = rw (mid.0, mid.2) but.due_index;
        } in
        record {
          keyed = rw (last.0, mid.0) put_keyed;
          allocated = rw (last.0, mid.0) put_allocated;
          ranked_index =
              insert_current_locked-ranked due_at u key rec (rw mid.0 put_stored)
                (rw mid.0 put_keyed) but';
          due_index =
              insert_current_locked-due due_at u key rec (rw mid.0 put_stored) (rw mid.0 put_keyed)
                but';
          order_index = λ s.
              rw (last.0, last.1, mid.0)
                (insert_order_locked-Indexed due_at assigned allocates w rec put_stored put_keyed
                  put_allocated s
                  (λ t.
                    put-IndexedBut order_before-IsStrict key rec
                      (absent-IndexedBut order_before-IsStrict key (x.order_index t) (rw absent))));
        }

    -- A newer version of a record that the view holds.
    upsert_newer-IsIndexed :
        (previous : OrderedRecord)
        → find (identity rec) v.records ≡ some previous
        → IsIndexed due_at assigned (upsert due_at rec (some previous) v)
    unfolding upsert
    upsert_newer-IsIndexed previous here = elim (Bool-cases (leb rec.revision previous.revision)) [
      | inl old ↦ rw old x
      | inr newer ↦
          let key = identity rec in
          let u = remove_current_locked due_at key previous v in
          let w = store_record due_at key rec u in
          let first = remove_current_locked_frame due_at key previous v in
          let last = insert_current_locked_frame due_at key rec w in
          let but : CurrentBut due_at key w = store_record-CurrentBut due_at u key rec (
            remove_current_locked-CurrentBut due_at v key previous here x.ranked_index
              x.due_index) in
          rw newer (record {
            keyed = rw (last.0, first.0) put_keyed;
            allocated = rw (last.0, first.0) put_allocated;
            ranked_index =
                insert_current_locked-ranked due_at w key rec (rw first.0 put_stored)
                  (rw first.0 put_keyed) but;
            due_index =
                insert_current_locked-due due_at w key rec (rw first.0 put_stored)
                  (rw first.0 put_keyed) but;
            order_index = λ s.
                rw (last.0, last.1, first.0, first.1)
                  (put-order_index due_at assigned allocates v rec previous s x here own);
          })
    ]

    -- applyRecord keeps the three families of indexes sorted and exact.
    pub apply_record-IsIndexed : IsIndexed due_at assigned (apply_record due_at rec v)
    unfolding apply_record
    apply_record-IsIndexed = elim (Option-cases (find (identity rec) v.records)) [
      | inl absent ↦ rw absent (upsert_new-IsIndexed absent)
      | inr (previous, here) ↦ rw here (upsert_newer-IsIndexed previous here)
    ]
