-- ===== src/Ordered/View/Barrier/Passes.antt =====
-- What one message does to the barrier of a view (applyMessage of ordered.go): an error is kept, otherwise the
-- watermark reaches the message, and the waiting queries are woken where either changes.
use natsstore.Base.{
  true, ℕ, ◌+◌, ◌≤◌, ◌≡◌, refl, sym, ◌∙◌, Option, none, some, leb, arith, Bool-cases, Option-cases,
  inl, inr,
}
use mathlib.Core.Path.{subst}
use natsstore.Base.Bytes.{bytes_Eq}
use natsstore.Base.Dict.{find}
use natsstore.Base.Outcome.{Result-cases}
use natsstore.Ordered.Record.{OrderedRecord, OrderedIdentity, identity, identity_Eq}
use natsstore.Ordered.Libraries.{Storage, Encodings}
use natsstore.Ordered.Codec.{
  classify_ordered_subject, decode_ordered_record, SubjectFamily, record_family, counter_family,
  foreign_subject,
}
use natsstore.Ordered.Errors.{OrderedError}
use natsstore.Ordered.View.{
  View, remove_ranked, remove_due, remove_current_locked, insert_ranked, insert_due,
  insert_current_locked, insert_order_locked, store_record, upsert, apply_record, advance,
  set_fatal, fold_message, apply_message,
}
use natsstore.Ordered.View.Invariant.Messages.{Message}

-- The indexes have no part in the barrier.
record SameBarrier (v w : View) : Type 0 where
  generation : w.generation ≡ v.generation
  watermark : w.watermark ≡ v.watermark
  fatal : w.fatal ≡ v.fatal

SameBarrier-trans : (u v w : View) → SameBarrier u v → SameBarrier v w → SameBarrier u w
SameBarrier-trans u v w a b = record {
  generation = b.generation ∙ a.generation;
  watermark = b.watermark ∙ a.watermark;
  fatal = b.fatal ∙ a.fatal;
}

module _ (due_at : ℕ) (key : OrderedIdentity) (rec : OrderedRecord) where
  remove_ranked-SameBarrier : (v : View) → SameBarrier v (remove_ranked due_at key rec v)
  unfolding remove_ranked
  remove_ranked-SameBarrier v = ground arith

  remove_due-SameBarrier : (v : View) → SameBarrier v (remove_due due_at key rec v)
  unfolding remove_due
  remove_due-SameBarrier v = ground arith

  insert_ranked-SameBarrier : (v : View) → SameBarrier v (insert_ranked due_at key rec v)
  unfolding insert_ranked
  insert_ranked-SameBarrier v = ground arith

  insert_due-SameBarrier : (v : View) → SameBarrier v (insert_due due_at key rec v)
  unfolding insert_due
  insert_due-SameBarrier v = ground arith

  remove_current_locked-SameBarrier :
      (v : View) → SameBarrier v (remove_current_locked due_at key rec v)
  unfolding remove_current_locked
  remove_current_locked-SameBarrier v =
      let w : View = remove_ranked due_at key rec v in
      SameBarrier-trans v w (remove_due due_at key rec w) (remove_ranked-SameBarrier v)
        (remove_due-SameBarrier w)

  insert_current_locked-SameBarrier :
      (v : View) → SameBarrier v (insert_current_locked due_at key rec v)
  unfolding insert_current_locked
  insert_current_locked-SameBarrier v =
      let w : View = insert_ranked due_at key rec v in
      SameBarrier-trans v w (insert_due due_at key rec w) (insert_ranked-SameBarrier v)
        (insert_due-SameBarrier w)

  insert_order_locked-SameBarrier :
      (v : View) → SameBarrier v (insert_order_locked due_at key rec v)
  unfolding insert_order_locked
  insert_order_locked-SameBarrier v = record { generation = refl; watermark = refl; fatal = refl }

upsert-SameBarrier :
    (due_at : ℕ) (rec : OrderedRecord) (o : Option OrderedRecord) (v : View)
    → SameBarrier v (upsert due_at rec o v)
unfolding upsert
upsert-SameBarrier due_at rec none v =
    let key = identity rec in
    let w : View = insert_order_locked due_at key rec (store_record due_at key rec v) in
    let a = insert_order_locked-SameBarrier due_at key rec (store_record due_at key rec v) in
    let b = insert_current_locked-SameBarrier due_at key rec w in
    record {
      generation = b.generation ∙ a.generation;
      watermark = b.watermark ∙ a.watermark;
      fatal = b.fatal ∙ a.fatal;
    }
upsert-SameBarrier due_at rec (some previous) v =
    let key = identity rec in
    let w : View = remove_current_locked due_at key previous v in
    let a = remove_current_locked-SameBarrier due_at key previous v in
    let b = insert_current_locked-SameBarrier due_at key rec (store_record due_at key rec w) in
    elim (Bool-cases (leb rec.revision previous.revision)) [
      | inl e ↦ rw (upsert, e) (record { generation = refl; watermark = refl; fatal = refl })
      | inr e ↦
          rw (upsert, e)
            (record {
              generation = b.generation ∙ a.generation;
              watermark = b.watermark ∙ a.watermark;
              fatal = b.fatal ∙ a.fatal;
            })
    ]

-- What one message does to the barrier: an error is kept, otherwise the watermark reaches the message; and the
-- channel is replaced where either changes.
pub record Passes (seq : ℕ) (v w : View) : Type 0 where
  pub turns : v.generation ≤ w.generation
  pub silent : w.generation ≡ v.generation → (w.watermark ≡ v.watermark) × (w.fatal ≡ v.fatal)
  pub rises : v.watermark ≤ w.watermark
  pub keeps : (e : OrderedError) → v.fatal ≡ some e → w.fatal ≡ some e
  pub reaches : w.fatal ≡ none → seq ≤ w.watermark

advance-Passes : (seq : ℕ) (v : View) → Passes seq v (advance seq v)
unfolding advance
advance-Passes seq v = elim (Bool-cases (leb seq v.watermark)) [
  | inl e ↦
      rw (advance, e)
        (record {
          turns = omega arith;
          silent = λ _. (refl, refl);
          rises = omega arith;
          keeps = λ x h. h;
          reaches = λ _. ground (arith, e);
        })
  | inr e ↦
      rw (advance, e)
        (record {
          turns = omega arith;
          silent = λ h. absurd (omega (arith, h));
          rises = ground (arith, e);
          keeps = λ x h. h;
          reaches = λ _. omega arith;
        })
]

set_fatal-first :
    (fault : OrderedError) (v : View)
    → v.fatal ≡ none
    → set_fatal fault v
      ≡ record v { fatal = some fault; generation = v.generation + 1; cancelled = true }
unfolding set_fatal
set_fatal-first fault v e = simp (set_fatal, e) refl

set_fatal-later :
    (fault x : OrderedError) (v : View)
    → v.fatal ≡ some x
    → set_fatal fault v ≡ record v { cancelled = true }
unfolding set_fatal
set_fatal-later fault x v e = simp (set_fatal, e) refl

set_fatal-Passes : (fault : OrderedError) (seq : ℕ) (v : View) → Passes seq v (set_fatal fault v)
set_fatal-Passes fault seq v = elim (Option-cases v.fatal) [
  | inl e ↦ subst (Passes seq v) (sym (set_fatal-first fault v e)) (record {
    turns = omega arith;
    silent = λ h. absurd (omega (arith, h));
    rises = omega arith;
    keeps = λ x h. cc (h, e);
    reaches = λ h. cc h;
  })
  | inr (x, e) ↦ subst (Passes seq v) (sym (set_fatal-later fault x v e)) (record {
    turns = omega arith;
    silent = λ _. (refl, refl);
    rises = omega arith;
    keeps = λ y h. h;
    reaches = λ h. cc (h, e);
  })
]

Passes-behind : (seq : ℕ) (u v w : View) → SameBarrier u v → Passes seq v w → Passes seq u w
Passes-behind seq u v w same p = record {
  turns = omega (arith, same.generation, p.turns);
  silent = λ h.
      let (a, b) = p.silent (h ∙ sym (same.generation)) in (a ∙ same.watermark, b ∙ same.fatal);
  rises = omega (arith, same.watermark, p.rises);
  keeps = λ e h. p.keeps e (same.fatal ∙ h);
  reaches = p.reaches;
}

apply_record-SameBarrier :
    (due_at : ℕ) (rec : OrderedRecord) (v : View) → SameBarrier v (apply_record due_at rec v)
unfolding apply_record
apply_record-SameBarrier due_at rec v =
    upsert-SameBarrier due_at rec (find (identity rec) v.records) v

module _ (storage : Storage) (enc : Encodings) where
  fold_message-Passes :
      (family : SubjectFamily) (m : Message) (v : View)
      → Passes m.seq v (fold_message storage enc family m.subject m.seq m.payload v)
  unfolding fold_message
  fold_message-Passes foreign_subject m v = advance-Passes m.seq v
  fold_message-Passes counter_family m v = advance-Passes m.seq v
  fold_message-Passes record_family m v =
      elim (Result-cases (decode_ordered_record storage enc m.subject m.payload)) [
        | inr (fault, e) ↦ rw (fold_message, e) (set_fatal-Passes fault m.seq v)
        | inl (rec, e) ↦
            let w : View = apply_record storage.due_at rec v in
            rw (fold_message, e)
              (Passes-behind m.seq v w (advance m.seq w)
                (apply_record-SameBarrier storage.due_at rec v) (advance-Passes m.seq w))
      ]

  pub apply_message-Passes :
      (m : Message) (v : View)
      → Passes m.seq v (apply_message storage enc m.subject m.seq m.payload v)
  unfolding apply_message
  apply_message-Passes m v =
      elim (Result-cases (classify_ordered_subject storage v.namespace m.subject)) [
        | inr (fault, e) ↦
            simp (apply_message, e)
              (Passes-behind m.seq v counted (set_fatal fault counted) same
                (set_fatal-Passes fault m.seq counted))
        | inl (family, e) ↦
            simp (apply_message, e)
              (Passes-behind m.seq v counted
                (fold_message storage enc family m.subject m.seq m.payload counted) same
                (fold_message-Passes family m counted))
      ]
    where
      counted : View
      counted = record v {
        stats = record (v.stats) { messages_applied = v.stats.messages_applied + 1 };
      }

      same : SameBarrier v counted
      same = record { generation = refl; watermark = refl; fatal = refl }
