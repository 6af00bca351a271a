-- ===== src/Ordered/Store/Latches.antt =====
-- The latches of orderedStore: one for each counter subject that a create is busy with, counted by
-- those that hold or await its token.
use natsstore.Base.{
  ◌⊎◌, ℕ, ◌+◌, ◌-◌, ◌≡◌, ◌≤◌, refl, Bool, true, false, Option, none, some, ◌==◌, if◌then◌else◌,
  arith, Option-cases, Bool-cases, inl, inr, ◌∙◌,
}
use natsstore.Base.Bytes.{Bytes, bytes_eq, bytes_eq_iff, bytes_Eq}
use natsstore.Base.Dict.{Dict, find, put, remove, find-put, find-remove}

-- orderedScopeLatch: `held` tells that the channel of capacity one is full.
pub record Latch : Type 0 where
  pub held : Bool
  pub refs : ℕ

abbrev pub latch_at : Bytes → Dict Bytes Latch → Latch
latch_at key latches = elim (find key latches) [
  | none ↦ record { held = false; refs = 0 }
  | some latch ↦ latch
]

-- The first critical section of acquireScope.
unfoldable pub enter_scope : Bytes → Dict Bytes Latch → Dict Bytes Latch
enter_scope key latches =
    let latch = latch_at key latches in put key (record latch { refs = latch.refs + 1 }) latches

-- `latch.token <- struct{}{}`.
unfoldable pub hold_scope : Bytes → Dict Bytes Latch → Dict Bytes Latch
hold_scope key latches = put key (record (latch_at key latches) { held = true }) latches

-- drop(held).
unfoldable pub drop_scope : Bool → Bytes → Dict Bytes Latch → Dict Bytes Latch
drop_scope held key latches =
    let latch = latch_at key latches in
    let left : Latch = record {
      held = if held then false else latch.held;
      refs = latch.refs - 1;
    } in
    if left.refs == 0 then remove key latches else put key left latches

-- The latch with its token given back.
abbrev pub freed : Option Latch → Option Latch
freed none = none
freed (some latch) = some (record { held = false; refs = latch.refs })

-- A latch after a call is as before, or its token is free and it is counted as before.
abbrev pub Restored : Option Latch → Option Latch → Type 0
Restored before after = (after ≡ before) ⊎ (after ≡ freed before)

-- An entry is in the map only while it is counted.
abbrev pub WellCounted : Dict Bytes Latch → Type 0
WellCounted latches = (j : Bytes) (l : Latch) → find j latches ≡ some l → 1 ≤ l.refs

latch_at-put : (key : Bytes) (l : Latch) (d : Dict Bytes Latch) → latch_at key (put key l d) ≡ l
latch_at-put key l d = rw (latch_at, find-put key key l d, (bytes_eq_iff key key).1 refl) refl

-- What a drop makes of a latch.
abbrev after_drop : Bool → Latch → Option Latch
after_drop held l =
    if l.refs - 1 == 0
    then none
    else some (record { held = if held then false else l.held; refs = l.refs - 1 })

drop_scope-put :
    (held : Bool) (key j : Bytes) (l : Latch) (d : Dict Bytes Latch)
    → find j (drop_scope held key (put key l d))
      ≡ (if bytes_eq key j then after_drop held l else find j d)
unfolding drop_scope
drop_scope-put held key j l d =
    let left : Latch = record { held = if held then false else l.held; refs = l.refs - 1 } in
    rw (latch_at-put key l d) (elim (Bool-cases (l.refs - 1 == 0)) [
      | inl e ↦ elim (Bool-cases (bytes_eq key j)) [
        | inl f ↦ rw (e, find-remove key j (put key l d), f) refl
        | inr f ↦ rw (e, find-remove key j (put key l d), f, find-put key j l d, f) refl
      ]
      | inr e ↦ elim (Bool-cases (bytes_eq key j)) [
        | inl f ↦ rw (e, find-put key j left (put key l d), f) refl
        | inr f ↦ rw (e, find-put key j left (put key l d), f, find-put key j l d, f) refl
      ]
    ])

counted_again : (n : ℕ) → n + 1 - 1 ≡ n
counted_again n = omega arith

-- A counted latch, with one more that entered and is given up, is as before.
after_drop-unheld :
    (l : Latch) → 1 ≤ l.refs → after_drop false (record l { refs = l.refs + 1 }) ≡ some l
after_drop-unheld l le = elim (Bool-cases (l.refs == 0)) [
  | inl e ↦ absurd (ground (arith, e, le))
  | inr e ↦ rw (after_drop, counted_again l.refs, e) refl
]

after_drop-held :
    (l : Latch)
    → 1 ≤ l.refs
    → after_drop true (record { held = true; refs = l.refs + 1 }) ≡ freed (some l)
after_drop-held l le = elim (Bool-cases (l.refs == 0)) [
  | inl e ↦ absurd (ground (arith, e, le))
  | inr e ↦ rw (after_drop, counted_again l.refs, e) refl
]

-- Entered and given up.
pub drop-enter_scope :
    (key j : Bytes) (latches : Dict Bytes Latch)
    → WellCounted latches
    → find j (drop_scope false key (enter_scope key latches)) ≡ find j latches
unfolding enter_scope
drop-enter_scope key j latches counted =
    let l = latch_at key latches in
    drop_scope-put false key j (record l { refs = l.refs + 1 }) latches
    ∙ elim (Bool-cases (bytes_eq key j)) [
      | inr e ↦ rw e refl
      | inl e ↦
          let same : key ≡ j = (bytes_eq_iff key j).0 e in
          rw (e, same)
            (elim (Option-cases (find j latches)) [
              | inl f ↦ rw (latch_at, f) refl
              | inr (m, f) ↦ rw (latch_at, f) (after_drop-unheld m (counted j m f))
            ])
    ]

-- Entered, held and released: the token is free.
pub drop-hold-enter_scope :
    (key j : Bytes) (latches : Dict Bytes Latch)
    → WellCounted latches
    → Restored
        (find j latches)
        (find j (drop_scope true key (hold_scope key (enter_scope key latches))))
unfolding hold_scope enter_scope
drop-hold-enter_scope key j latches counted =
    let l = latch_at key latches in
    let entered = put key (record l { refs = l.refs + 1 }) latches in
    let dropped = drop_scope-put true key j (record { held = true; refs = l.refs + 1 }) entered in
    rw (latch_at-put key (record l { refs = l.refs + 1 }) latches)
      (elim (Bool-cases (bytes_eq key j)) [
        | inr e ↦
            inl (dropped ∙ rw (e, find-put key j (record l { refs = l.refs + 1 }) latches, e) refl)
        | inl e ↦
            let same : key ≡ j = (bytes_eq_iff key j).0 e in
            inr (
              dropped
              ∙ rw (e, same)
                  (elim (Option-cases (find j latches)) [
                    | inl f ↦ rw (latch_at, f) refl
                    | inr (m, f) ↦ rw (latch_at, f) (after_drop-held m (counted j m f))
                  ]))
      ])
