-- ===== src/Ordered/View/Invariant/Messages.antt =====
-- Streams of messages: what a view holds after any sequence of them.
use natsstore.Base.{
  ℕ, ◌+◌, ◌≡◌, ◌≤◌, refl, Option, none, some, List, [], ◌∷◌, arith, if◌then◌else◌, leb, inl, inr,
}
use natsstore.Base.Bytes.{Bytes}
use natsstore.Base.Dict.{find, find-put}
use natsstore.Base.Outcome.{ok, Result-cases}
use natsstore.Ordered.Record.{
  OrderedRecord, OrderedIdentity, identity, identity_Eq, identity_eq_iff,
}
use natsstore.Ordered.Index.{contains}
use natsstore.Ordered.Libraries.{Storage, Encodings}
use natsstore.Ordered.Errors.{OrderedError}
use natsstore.Ordered.Codec.{
  classify_ordered_subject, decode_ordered_record, SubjectFamily, foreign_subject, counter_family,
  record_family,
}
use natsstore.Ordered.View.{
  View, Stats, new_ordered_view, apply_record, upsert, advance, set_fatal, fold_message,
  apply_message, store_record, insert_order_locked, remove_current_locked,
}
use natsstore.Ordered.View.Invariant.{Allocates, IsIndexed}
use natsstore.Ordered.View.Invariant.Acceptance.{
  insert_current_locked_frame, remove_current_locked_frame, insert_order_locked_frame,
}
use natsstore.Ordered.View.Invariant.Upsert.{apply_record-IsIndexed}

-- One delivery of the subscription.
pub record Message : Type 0 where
  pub subject : Bytes
  pub seq : ℕ
  pub payload : Bytes

-- The version that survives when a record arrives: the stored one, unless the new one is newer.
abbrev pub newest : OrderedRecord → Option OrderedRecord → OrderedRecord
newest rec none = rec
newest rec (some previous) = if leb rec.revision previous.revision then previous else rec

module _ (due_at : ℕ) where
  upsert-records :
      (rec : OrderedRecord) (v : View) (o : Option OrderedRecord) (k : OrderedIdentity)
      → find (identity rec) v.records ≡ o
      → find k (upsert due_at rec o v).records
        ≡ (if identity_Eq.beq (identity rec) k then some (newest rec o) else find k v.records)
  unfolding upsert
  upsert-records rec v none k e =
      let key = identity rec in
      let w = store_record due_at key rec v in
      ground (
        arith,
        insert_current_locked_frame due_at key rec (insert_order_locked due_at key rec w),
        insert_order_locked_frame due_at key rec w,
        find-put key k rec v.records,
      )
  upsert-records rec v (some previous) k e =
      let key = identity rec in
      let u = remove_current_locked due_at key previous v in
      ground (
        arith,
        insert_current_locked_frame due_at key rec (store_record due_at key rec u),
        remove_current_locked_frame due_at key previous v,
        find-put key k rec v.records,
        identity_eq_iff key k,
        e,
      )

  -- After a record has arrived the view holds, under its identity, the newest version, and every other
  -- record as before.
  pub apply_record-records :
      (rec : OrderedRecord) (v : View) (k : OrderedIdentity)
      → find k (apply_record due_at rec v).records ≡ (
          if identity_Eq.beq (identity rec) k
          then some (newest rec (find (identity rec) v.records))
          else find k v.records)
  unfolding apply_record
  apply_record-records rec v k = upsert-records rec v (find (identity rec) v.records) k refl

  apply_record_idle :
      (rec held : OrderedRecord) (v : View)
      → find (identity rec) v.records ≡ some held
      → rec.revision ≤ held.revision
      → apply_record due_at rec v ≡ v
  unfolding apply_record upsert
  apply_record_idle rec held v here old = rw here (ground arith)

  newest-revision :
      (rec : OrderedRecord) (o : Option OrderedRecord) → rec.revision ≤ (newest rec o).revision
  newest-revision rec none = omega arith
  newest-revision rec (some previous) = ground arith

  -- After a record has arrived, a record of the same identity whose revision is no newer changes nothing.
  pub apply_record_redelivery :
      (rec late : OrderedRecord) (v : View)
      → identity late ≡ identity rec
      → late.revision ≤ rec.revision
      → apply_record due_at late (apply_record due_at rec v) ≡ apply_record due_at rec v
  apply_record_redelivery rec late v same old =
      let held = newest rec (find (identity rec) v.records) in
      let here : find (identity late) (apply_record due_at rec v).records ≡ some held = ground (
        arith,
        apply_record-records rec v (identity late),
        identity_eq_iff (identity rec) (identity late),
        same,
      ) in
      apply_record_idle late held (apply_record due_at rec v) here
        (omega (arith, newest-revision rec (find (identity rec) v.records)))

-- Two views with the same records and indexes.
record SameContent (v w : View) : Type 0 where
  records : w.records ≡ v.records
  order : w.order ≡ v.order
  ranked : w.ranked ≡ v.ranked
  due : w.due ≡ v.due

IsIndexed-SameContent :
    {due_at : ℕ} {assigned : OrderedIdentity → ℕ} {v w : View}
    → SameContent v w
    → IsIndexed due_at assigned v
    → IsIndexed due_at assigned w
IsIndexed-SameContent same x = record {
  keyed = rw same.records x.keyed;
  allocated = rw same.records x.allocated;
  ranked_index = rw (same.records, same.ranked) x.ranked_index;
  due_index = rw (same.records, same.due) x.due_index;
  order_index = rw (same.records, same.order) x.order_index;
}

advance-SameContent : (seq : ℕ) (v : View) → SameContent v (advance seq v)
unfolding advance
advance-SameContent seq v = ground arith

set_fatal-SameContent : (fault : OrderedError) (v : View) → SameContent v (set_fatal fault v)
unfolding set_fatal
set_fatal-SameContent fault v = ground arith

module _ (storage : Storage) (enc : Encodings) (assigned : OrderedIdentity → ℕ) where
  -- Every record message carries the order that its scope's counter allocated to its identity.
  abbrev pub Carries : Message → Type 0
  Carries m =
      (rec : OrderedRecord)
      → decode_ordered_record storage enc m.subject m.payload ≡ ok rec
      → rec.order ≡ assigned (identity rec)

  unfoldable pub apply_all : List Message → View → View
  apply_all [] v = v
  apply_all (m ∷ ms) v = apply_all ms (apply_message storage enc m.subject m.seq m.payload v)

  abbrev pub AllCarry : List Message → Type 0
  AllCarry [] = Unit
  AllCarry (m ∷ ms) = Carries m × AllCarry ms

  new_ordered_view-IsIndexed :
      (ns : Bytes) (stats : Stats) → IsIndexed storage.due_at assigned (new_ordered_view ns stats)
  unfolding find contains
  new_ordered_view-IsIndexed ns stats = record {
    keyed = λ k r h. cc;
    allocated = λ k r h. cc;
    ranked_index = λ s. record { sorted = tt; exact = λ k. refl };
    due_index = record { sorted = tt; exact = λ k. refl };
    order_index = λ s. record { sorted = tt; exact = λ k. refl };
  }

  module _ (allocates : Allocates assigned) where
    fold_message-IsIndexed :
        (family : SubjectFamily) (m : Message) (v : View)
        → Carries m
        → IsIndexed storage.due_at assigned v
        → IsIndexed storage.due_at assigned
            (fold_message storage enc family m.subject m.seq m.payload v)
    unfolding fold_message
    fold_message-IsIndexed foreign_subject m v c x =
        IsIndexed-SameContent (advance-SameContent m.seq v) x
    fold_message-IsIndexed counter_family m v c x =
        IsIndexed-SameContent (advance-SameContent m.seq v) x
    fold_message-IsIndexed record_family m v c x =
        elim (Result-cases (decode_ordered_record storage enc m.subject m.payload)) [
          | inr (fault, e) ↦
              rw (e, fold_message) (IsIndexed-SameContent (set_fatal-SameContent fault v) x)
          | inl (rec, e) ↦
              rw (e, fold_message)
                (IsIndexed-SameContent
                  (advance-SameContent m.seq (apply_record storage.due_at rec v))
                  (apply_record-IsIndexed storage.due_at assigned allocates v rec x (c rec e)))
        ]

    apply_message-IsIndexed :
        (m : Message) (v : View)
        → Carries m
        → IsIndexed storage.due_at assigned v
        → IsIndexed storage.due_at assigned (apply_message storage enc m.subject m.seq m.payload v)
    unfolding apply_message
    apply_message-IsIndexed m v c x =
        let w = record v {
          stats = record (v.stats) { messages_applied = v.stats.messages_applied + 1 };
        } in
        let counted : IsIndexed storage.due_at assigned w = record {
          keyed = x.keyed;
          allocated = x.allocated;
          ranked_index = x.ranked_index;
          due_index = x.due_index;
          order_index = x.order_index;
        } in
        elim (Result-cases (classify_ordered_subject storage v.namespace m.subject)) [
          | inr (fault, e) ↦
              rw (e, apply_message) (IsIndexed-SameContent (set_fatal-SameContent fault w) counted)
          | inl (family, e) ↦ rw (e, apply_message) (fold_message-IsIndexed family m w c counted)
        ]

    apply_all-IsIndexed :
        (ms : List Message) (v : View)
        → AllCarry ms
        → IsIndexed storage.due_at assigned v
        → IsIndexed storage.due_at assigned (apply_all ms v)
    unfolding apply_all
    apply_all-IsIndexed [] v c x = x
    apply_all-IsIndexed (m ∷ ms) v c x =
        apply_all-IsIndexed ms (apply_message storage enc m.subject m.seq m.payload v) c.1
          (apply_message-IsIndexed m v c.0 x)

    -- From an empty view, after any messages whose records carry the orders allocated to their identities,
    -- one to each identity in a scope, the indexes are sorted and hold exactly the records that belong in
    -- them; the messages may come in any order and more than once.
    pub view-IsIndexed :
        (ns : Bytes) (stats : Stats) (ms : List Message)
        → AllCarry ms
        → IsIndexed storage.due_at assigned (apply_all ms (new_ordered_view ns stats))
    view-IsIndexed ns stats ms c =
        apply_all-IsIndexed ms (new_ordered_view ns stats) c (new_ordered_view-IsIndexed ns stats)
