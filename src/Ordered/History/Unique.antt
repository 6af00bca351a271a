-- ===== src/Ordered/History/Unique.antt =====
-- On a server that only orderedStores write, an order of a scope belongs to one record.
use natsstore.Base.{ℕ, ◌≤◌, ◌≡◌, ◌≢◌, inl, inr, arith, false, some, ◌∙◌, sym, ap}
use natsstore.Base.Bytes.{Bytes}
use natsstore.Base.Outcome.{ok}
use natsstore.Ordered.Record.{OrderedRecord}
use natsstore.Ordered.Libraries.{Storage, Encodings, OrderedPayload}
use natsstore.Ordered.Codec.{ordered_counter_subject, decode_ordered_counter}
use natsstore.Ordered.Store.{Location, ordered_location, last_order_of}
use natsstore.Ordered.History.{
  Log, Fenced, Holds, Step, creates, revises, Steps, start, later, Fresh,
}
use natsstore.Ordered.History.Records.{location-subjects}
use natsstore.Ordered.History.Orders.{
  Reached, Step-Reached, created-Reached, created-origin, revised-origin, last_order_of-present,
}

module _ (storage : Storage) (enc : Encodings) {W : Type 0} (log : Log W) (fenced : Fenced log)
    (json : (p : OrderedPayload) (text : Bytes)
      → enc.marshal_record p ≡ some text
      → enc.decode_record_json text ≡ some (p, false)) where
  -- The counter of the record's scope has reached its order.
  pub record Counted (w : W) (rec : OrderedRecord) : Type 0 where
    pub at : Location
    pub located : ordered_location storage enc rec.id ≡ ok at
    pub reached : Reached storage enc log fenced json w at.counter_subject rec.order

  abbrev pub SameScope : OrderedRecord → OrderedRecord → Type 0
  SameScope a b = (a.id.namespace ≡ b.id.namespace) × (a.id.ordering_scope ≡ b.id.ordering_scope)

  pub record WellOrdered (w : W) : Type 0 where
    pub counted :
        (subject : Bytes) (rec : OrderedRecord)
        → Holds storage enc log w subject rec
        → Counted w rec
    pub unique :
        (s t : Bytes) (a b : OrderedRecord)
        → Holds storage enc log w s a
        → Holds storage enc log w t b
        → SameScope a b
        → a.order ≡ b.order
        → s ≡ t

  Fresh-WellOrdered : (w : W) → Fresh storage enc log w → WellOrdered w
  Fresh-WellOrdered w fresh = record {
    counted = λ subject rec h. absurd (h.present (fresh subject));
    unique = λ s t a b h k scope order. absurd (h.present (fresh s));
  }

  Step-Counted :
      {v w : W} (rec : OrderedRecord) → Step storage enc log v w → Counted v rec → Counted w rec
  Step-Counted rec step c = record {
    at = c.at;
    located = c.located;
    reached =
        Step-Reached storage enc log fenced json rec.id (c.at) rec.order (c.located) step
          (c.reached);
  }

  -- What the counter told bounds the orders of its scope.
  Counted-below :
      (v : W) (old new : OrderedRecord) (at : Location) (last : ℕ)
      → Counted v old
      → ordered_location storage enc new.id ≡ ok at
      → SameScope old new
      → last_order_of (log.head v at.counter_subject) ≡ ok last
      → old.order ≤ last
  Counted-below v old new at last c located (ns, scope) read =
      let theirs : ordered_counter_subject storage new.id.namespace new.id.ordering_scope
          ≡ ok (c.at.counter_subject) =
        rw (ns, scope) at (location-subjects storage enc old.id (c.at) (c.located)).0 in
      let ours = (location-subjects storage enc new.id at located).0 in
      let same : c.at.counter_subject ≡ at.counter_subject = cc (theirs, ours) in
      let reached : Reached storage enc log fenced json v at.counter_subject old.order =
        rw same at (c.reached) in
      let told : decode_ordered_counter (log.head v at.counter_subject).1 ≡ ok last =
        last_order_of-present (log.head v at.counter_subject).0 (log.head v at.counter_subject).1
          last (reached.present) read in
      let known = reached.decoded in
      let e : reached.last ≡ last = cc (told, known) in omega (arith, e, reached.bound)

  Step-WellOrdered : {v w : W} → Step storage enc log v w → WellOrdered v → WellOrdered w
  Step-WellOrdered {v} {w} (creates at new last payload located read below next first encoded c) i =
      let seq : ℕ = (log.head v at.counter_subject).0 in
      let step : Step storage enc log v w =
        creates at new last payload located read below next first encoded c in
      record {
        counted = λ subject rec h.
            elim (created-origin storage enc log fenced json v w at new seq payload subject rec
              located encoded c h) [
                | inl old ↦ Step-Counted rec step (i.counted subject rec old)
                | inr (same, e) ↦
                    let made : Counted w new = record {
                      at = at;
                      located = located;
                      reached =
                          created-Reached storage enc log fenced json v w at new last seq payload
                            read below next c;
                    } in
                    rw e at made
              ];
        unique = λ s t a b h k scope order.
            let over : (old : OrderedRecord) (subject : Bytes)
                → Holds storage enc log v subject old
                → SameScope old new
                → old.order ≢ new.order =
              λ old subject held shared e. omega (
                arith,
                e,
                next,
                Counted-below v old new at last (i.counted subject old held) located shared read,
              ) in
            elim (created-origin storage enc log fenced json v w at new seq payload s a located
              encoded c h) [
                | inl p ↦
                    elim (created-origin storage enc log fenced json v w at new seq payload t b
                      located encoded c k) [
                        | inl q ↦ i.unique s t a b p q scope order
                        | inr (there, e) ↦
                            absurd (over a s p (rw (sym e) at scope) (rw (sym e) at order))
                      ]
                | inr (here, f) ↦
                    elim (created-origin storage enc log fenced json v w at new seq payload t b
                      located encoded c k) [
                        | inl q ↦ absurd (
                            over b t q
                              (
                                sym scope.0 ∙ ap (λ r. r.id.namespace) (sym f),
                                sym scope.1 ∙ ap (λ r. r.id.ordering_scope) (sym f),
                              )
                              (sym order ∙ ap (λ r. r.order) (sym f)))
                        | inr (there, e) ↦ sym here ∙ there
                      ]
              ];
      }
  Step-WellOrdered {v} {w}
        (revises at current next payload before id order scope revision encoded c) i =
      let step : Step storage enc log v w =
        revises at current next payload before id order scope revision encoded c in
      record {
        counted = λ subject rec h.
            let (old, held, same_id, same_order) =
              revised-origin storage enc log fenced json v w at current next payload subject rec
                before id order encoded c h in
            let known : Counted w old = Step-Counted old step (i.counted subject old held) in
            record {
              at = known.at;
              located = ap (ordered_location storage enc) same_id ∙ known.located;
              reached = rw (sym same_order) at (known.reached);
            };
        unique = λ s t a b h k shared same.
            let (old, held, old_id, old_order) =
              revised-origin storage enc log fenced json v w at current next payload s a before id
                order encoded c h in
            let (prior, kept, prior_id, prior_order) =
              revised-origin storage enc log fenced json v w at current next payload t b before id
                order encoded c k in
            i.unique s t old prior held kept
              (
                ap (λ x. x.namespace) (sym old_id) ∙ (shared.0 ∙ ap (λ x. x.namespace) prior_id),
                ap (λ x. x.ordering_scope) (sym old_id)
                    ∙ (shared.1 ∙ ap (λ x. x.ordering_scope) prior_id),
              )
              (sym old_order ∙ (same ∙ prior_order));
      }

  -- Whatever Creates, Updates and Deletes are committed on a fresh server, in whatever interleaving: each
  -- held record's order is at most what the counter of its scope stores, and two held records of one
  -- ordering scope with one order are under one subject.
  pub Steps-WellOrdered :
      {v w : W} → Fresh storage enc log v → Steps storage enc log v w → WellOrdered w
  Steps-WellOrdered {v} fresh start = Fresh-WellOrdered v fresh
  Steps-WellOrdered fresh (later before step) =
      Step-WellOrdered step (Steps-WellOrdered fresh before)
