-- ===== src/Ordered/History/Sequences.antt =====
-- Each subject's head only moves to later sequences, so that a sequence names what was read.
use natsstore.Base.{◌<◌, ◌≡◌, ◌≢◌, ◌⊎◌, inl, inr, List, [], ◌∷◌, All, arith, Bool-cases, refl, ◌∙◌}
use natsstore.Base.Bytes.{Bytes, bytes_eq, bytes_eq_iff}
use natsstore.Ordered.Libraries.{Storage, Encodings}
use natsstore.Ordered.Store.{OrderedMsg, create_batch}
use natsstore.Ordered.History.{
  Log, Fenced, Step, creates, revises, Steps, start, later, revision_batch,
}

module _ (storage : Storage) (enc : Encodings) {W : Type 0} (log : Log W)
    (fenced : Fenced log) where
  -- A commit writes a subject with a later message, or keeps its head.
  abbrev Moved : W → W → Bytes → Type 0
  Moved v w subject =
      (log.head w subject ≡ log.head v subject) ⊎ ((log.head v subject).0 < (log.head w subject).0)

  written-or-other :
      (v w : W) (msgs : List OrderedMsg) (subject : Bytes)
      → All
          (λ m.
            ((log.head w m.subject).1 ≡ m.payload)
            × ((log.head v m.subject).0 < (log.head w m.subject).0))
          msgs
      → All (λ m. m.subject ≢ subject) msgs ⊎ ((log.head v subject).0 < (log.head w subject).0)
  written-or-other v w [] subject stored = inl tt
  written-or-other v w (m ∷ msgs) subject ((_, rises), stored) =
      elim (Bool-cases (bytes_eq m.subject subject)) [
        | inl e ↦
            let same : m.subject ≡ subject = ground (arith, e, bytes_eq_iff m.subject subject) in
            inr (rw same at rises)
        | inr e ↦
            let other : m.subject ≢ subject = ground (arith, e, bytes_eq_iff m.subject subject) in
            elim (written-or-other v w msgs subject stored) [
              | inl rest ↦ inl (other, rest)
              | inr rise ↦ inr rise
            ]
      ]

  commit-Moved :
      (v w : W) (msgs : List OrderedMsg) (subject : Bytes)
      → log.Commits v msgs w
      → Moved v w subject
  commit-Moved v w msgs subject c =
      elim (written-or-other v w msgs subject (fenced.stored v w msgs c)) [
        | inl other ↦ inl (fenced.others_kept v w msgs subject c other)
        | inr rise ↦ inr rise
      ]

  Step-Moved : {v w : W} (subject : Bytes) → Step storage enc log v w → Moved v w subject
  Step-Moved {v} {w} subject (creates at rec last payload _ _ _ _ _ _ c) =
      commit-Moved v w (create_batch at (log.head v at.counter_subject).0 rec payload) subject c
  Step-Moved {v} {w} subject (revises at current next payload _ _ _ _ _ _ c) =
      commit-Moved v w (revision_batch at (log.head v at).0 payload) subject c

  Steps-Moved : {v w : W} (subject : Bytes) → Steps storage enc log v w → Moved v w subject
  Steps-Moved subject start = inl refl
  Steps-Moved subject (later before step) = elim (Steps-Moved subject before) [
    | inl e ↦ elim (Step-Moved subject step) [ inl f ↦ inl (f ∙ e) | inr f ↦ inr (rw e at f) ]
    | inr e ↦ elim (Step-Moved subject step) [
      | inl f ↦ inr (rw f e)
      | inr f ↦ inr (omega (arith, e, f))
    ]
  ]

  -- If a subject has the sequence that was read, then it still has the message that was read.
  pub Steps-current :
      {v w : W} (subject : Bytes)
      → Steps storage enc log v w
      → (log.head v subject).0 ≡ (log.head w subject).0
      → log.head w subject ≡ log.head v subject
  Steps-current subject steps same = elim (Steps-Moved subject steps) [
    | inl e ↦ e
    | inr rise ↦ absurd (omega (arith, rise, same))
  ]
