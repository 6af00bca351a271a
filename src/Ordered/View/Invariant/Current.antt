-- ===== src/Ordered/View/Invariant/Current.antt =====
-- The ranked and the due indexes under removal, storage and insertion of one record.
use natsstore.Base.{ℕ, ◌≡◌, ◌≢◌, some, arith, Bool-cases, inl, inr, sym, ◌∙◌}
use natsstore.Base.Bytes.{Bytes, bytes_eq, bytes_eq_iff, bytes_eq_refl}
use natsstore.Base.Dict.{find}
use natsstore.Ordered.Record.{
  OrderedRecord, OrderedIdentity, identity, identity_Eq, ordered_ranked_before, ordered_due_before,
}
use natsstore.Ordered.View.{
  View, entries_of, is_ranked, is_due, remove_ranked, remove_due, remove_current_locked,
  insert_ranked, insert_due, insert_current_locked, store_record,
}
use natsstore.Ordered.View.Indexed.{
  Indexed, IndexedBut, removed-IndexedBut, absent-IndexedBut, put-IndexedBut, inserted-Indexed,
  absent-Indexed,
}
use natsstore.Ordered.View.Keys.{
  ranked_before-IsStrict, due_before-IsStrict, ranked_before_connected, due_before_connected,
  entries_of-put,
}
use natsstore.Ordered.View.Invariant.{ranked_in, due_in, CurrentBut}

module _ (due_at : ℕ) (v : View) (key : OrderedIdentity) where
  -- removeCurrentLocked, on the ranked index of any scope.
  remove_ranked-IndexedBut :
      (previous : OrderedRecord) (s : Bytes)
      → ((s : Bytes)
          → Indexed ordered_ranked_before (ranked_in s) v.records (entries_of s v.ranked))
      → find key v.records ≡ some previous
      → IndexedBut key ordered_ranked_before
          (ranked_in s)
          v.records
          (entries_of s (remove_ranked due_at key previous v).ranked)
  unfolding remove_ranked
  remove_ranked-IndexedBut previous s x here = elim (Bool-cases (is_ranked due_at previous)) [
    | inr e ↦
        rw e (absent-IndexedBut ranked_before-IsStrict key (x s) (rw here (ground (arith, e))))
    | inl e ↦
        rw (e, entries_of-put)
          (elim (Bool-cases (bytes_eq previous.ranking_scope s)) [
            | inr f ↦
                rw f
                  (absent-IndexedBut ranked_before-IsStrict key (x s) (rw here (ground (arith, f))))
            | inl f ↦
                let same = (bytes_eq_iff previous.ranking_scope s).0 f in
                rw f (
                  rw (← same) (
                    removed-IndexedBut ranked_before-IsStrict key previous
                      (x previous.ranking_scope) here
                      (ground (arith, e, bytes_eq_refl previous.ranking_scope))))
          ])
  ]

  remove_due-IndexedBut :
      (previous : OrderedRecord)
      → Indexed ordered_due_before (due_in due_at) v.records v.due
      → find key v.records ≡ some previous
      → IndexedBut key ordered_due_before
          (due_in due_at)
          v.records
          (remove_due due_at key previous v).due
  unfolding remove_due
  remove_due-IndexedBut previous x here = elim (Bool-cases (is_due due_at previous)) [
    | inr e ↦ rw e (absent-IndexedBut due_before-IsStrict key x (rw here e))
    | inl e ↦ rw e (removed-IndexedBut due_before-IsStrict key previous x here e)
  ]

  -- A record may be stored that neither index holds.
  pub store_record-CurrentBut :
      (rec : OrderedRecord)
      → CurrentBut due_at key v
      → CurrentBut due_at key (store_record due_at key rec v)
  store_record-CurrentBut rec x = record {
    ranked_index = λ s. put-IndexedBut ranked_before-IsStrict key rec (x.ranked_index s);
    due_index = put-IndexedBut due_before-IsStrict key rec x.due_index;
  }

  module _ (rec : OrderedRecord)
      (keyed : (k : OrderedIdentity) (r : OrderedRecord)
        → find k v.records ≡ some r
        → identity r ≡ k)
      (here : find key v.records ≡ some rec) where
    differ :
        (k : OrderedIdentity) (r : OrderedRecord)
        → k ≢ key
        → find k v.records ≡ some r
        → identity r ≢ identity rec
    differ k r h e same = h (sym (keyed k r e) ∙ same ∙ keyed key rec here)

    insert_ranked-Indexed :
        (s : Bytes)
        → ((s : Bytes)
            → IndexedBut key ordered_ranked_before (ranked_in s) v.records (entries_of s v.ranked))
        → Indexed ordered_ranked_before
            (ranked_in s)
            v.records
            (entries_of s (insert_ranked due_at key rec v).ranked)
    unfolding insert_ranked
    insert_ranked-Indexed s x = elim (Bool-cases (is_ranked due_at rec)) [
      | inr e ↦ rw e (absent-Indexed ranked_before-IsStrict key (x s) (rw here (ground (arith, e))))
      | inl e ↦
          rw (e, entries_of-put)
            (elim (Bool-cases (bytes_eq rec.ranking_scope s)) [
              | inr f ↦
                  rw f
                    (absent-Indexed ranked_before-IsStrict key (x s) (rw here (ground (arith, f))))
              | inl f ↦
                  let same = (bytes_eq_iff rec.ranking_scope s).0 f in
                  rw f (
                    rw (← same) (
                      inserted-Indexed ranked_before-IsStrict key rec (x rec.ranking_scope) here
                        (ground (arith, e, bytes_eq_refl rec.ranking_scope))
                        (λ k r h q b. ranked_before_connected r rec (differ k r h q))))
            ])
    ]

    insert_due-Indexed :
        IndexedBut key ordered_due_before (due_in due_at) v.records v.due
        → Indexed ordered_due_before (due_in due_at) v.records (insert_due due_at key rec v).due
    unfolding insert_due
    insert_due-Indexed x = elim (Bool-cases (is_due due_at rec)) [
      | inr e ↦ rw e (absent-Indexed due_before-IsStrict key x (rw here e))
      | inl e ↦ rw e (
          inserted-Indexed due_before-IsStrict key rec x here e
            (λ k r h q b. due_before_connected r rec (differ k r h q)))
    ]

-- What the parts of an update leave alone.
module _ (due_at : ℕ) (key : OrderedIdentity) (rec : OrderedRecord) (v : View) where
  pub remove_ranked_frame :
      ((remove_ranked due_at key rec v).records ≡ v.records)
      × ((remove_ranked due_at key rec v).due ≡ v.due)
      × ((remove_ranked due_at key rec v).order ≡ v.order)
  unfolding remove_ranked
  remove_ranked_frame = ground arith

  pub remove_due_frame :
      ((remove_due due_at key rec v).records ≡ v.records)
      × ((remove_due due_at key rec v).ranked ≡ v.ranked)
      × ((remove_due due_at key rec v).order ≡ v.order)
  unfolding remove_due
  remove_due_frame = ground arith

  pub insert_ranked_frame :
      ((insert_ranked due_at key rec v).records ≡ v.records)
      × ((insert_ranked due_at key rec v).due ≡ v.due)
      × ((insert_ranked due_at key rec v).order ≡ v.order)
  unfolding insert_ranked
  insert_ranked_frame = ground arith

  pub insert_due_frame :
      ((insert_due due_at key rec v).records ≡ v.records)
      × ((insert_due due_at key rec v).ranked ≡ v.ranked)
      × ((insert_due due_at key rec v).order ≡ v.order)
  unfolding insert_due
  insert_due_frame = ground arith

module _ (due_at : ℕ) (v : View) (key : OrderedIdentity) (rec : OrderedRecord)
    (here : find key v.records ≡ some rec) where
  -- removeCurrentLocked takes a stored record out of both current-state indexes.
  pub remove_current_locked-CurrentBut :
      ((s : Bytes) → Indexed ordered_ranked_before (ranked_in s) v.records (entries_of s v.ranked))
      → Indexed ordered_due_before (due_in due_at) v.records v.due
      → CurrentBut due_at key (remove_current_locked due_at key rec v)
  unfolding remove_current_locked
  remove_current_locked-CurrentBut x y =
      let w = remove_ranked due_at key rec v in
      let kept = remove_ranked_frame due_at key rec v in
      let after = remove_due_frame due_at key rec w in
      record {
        ranked_index =
            λ s. rw (after.0, after.1, kept.0) (remove_ranked-IndexedBut due_at v key rec s x here);
        due_index =
            rw after.0
              (remove_due-IndexedBut due_at w key rec (rw (kept.0, kept.1) y) (rw kept.0 here));
      }

  module _
      (keyed : (k : OrderedIdentity) (r : OrderedRecord)
        → find k v.records ≡ some r
        → identity r ≡ k)
      (x : CurrentBut due_at key v) where
    -- insertCurrentLocked puts the stored record into the indexes that it belongs in.
    pub insert_current_locked-ranked :
        (s : Bytes)
        → Indexed ordered_ranked_before
            (ranked_in s)
            (insert_current_locked due_at key rec v).records
            (entries_of s (insert_current_locked due_at key rec v).ranked)
    unfolding insert_current_locked
    insert_current_locked-ranked s =
        let w = insert_ranked due_at key rec v in
        let kept = insert_ranked_frame due_at key rec v in
        let after = insert_due_frame due_at key rec w in
        rw (after.0, after.1, kept.0)
          (insert_ranked-Indexed due_at v key rec keyed here s x.ranked_index)

    pub insert_current_locked-due :
        Indexed ordered_due_before
          (due_in due_at)
          (insert_current_locked due_at key rec v).records
          (insert_current_locked due_at key rec v).due
    unfolding insert_current_locked
    insert_current_locked-due =
        let w = insert_ranked due_at key rec v in
        let kept = insert_ranked_frame due_at key rec v in
        let after = insert_due_frame due_at key rec w in
        rw after.0 (
          insert_due-Indexed due_at w key rec (rw kept.0 keyed) (rw kept.0 here)
            (rw (kept.0, kept.1) x.due_index))
