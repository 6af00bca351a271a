-- ===== src/Ordered/View/Page/Total.antt =====
-- A ranked page never panics: its bounds do not cross and stay inside the index, and a page that others follow has a last record.
use natsstore.Base.{
  ◌||◌, ℕ, suc, ◌+◌, ◌-◌, ◌≡◌, ◌≤◌, ◌<◌, refl, Bool, true, false, Option, none, some, List, [], ◌∷◌,
  take, drop, map, length, length-take, length-drop, min, ltb, arith, Bool-cases, inl, inr, ◌⊎◌, ap,
  sym,
}
use mathlib.Core.Path.{subst}
use natsstore.Base.Bytes.{Bytes}
use natsstore.Base.Outcome.{Result, ok, err, then_try, Result-cases}
use natsstore.Ordered.Record.{OrderedRecord, OrderedIdentity, ordered_ranked_before}
use natsstore.Ordered.Errors.{OrderedError}
use natsstore.Ordered.Libraries.{Storage, Encodings, CursorPayload}
use natsstore.Ordered.Codec.Cursor.{encode_ordered_cursor}
use natsstore.Ordered.View.{Comparator, View, record_at, entries_of, visit}
use natsstore.Ordered.View.Indexed.{IsStrict, by_records}
use natsstore.Ordered.View.Keys.{ranked_before-IsStrict}
use natsstore.Ordered.View.Invariant.{IsIndexed}
use natsstore.Ordered.Index.Sorted.{Sorted}
use natsstore.Ordered.View.Page.{
  CursorPage, slice, cursor_page, ranked_page, ranked_position, start_after, last?, collect_locked,
}
use natsstore.Ordered.View.Page.Cut.{upper_bound-le}

last?-some : (rs : List OrderedRecord) → 1 ≤ length rs → (r : OrderedRecord) × (last? rs ≡ some r)
last?-some [] h = absurd (omega (arith, h))
last?-some (r ∷ []) h = (r, refl)
last?-some (r ∷ s ∷ rs) h = last?-some (s ∷ rs) (omega arith)

length-map :
    (f : OrderedIdentity → OrderedRecord) (xs : List OrderedIdentity)
    → length (map f xs) ≡ length xs
length-map f [] = refl
length-map f (x ∷ xs) = ap suc (length-map f xs)

start_after-le :
    (before : Comparator) (strict : IsStrict before) (v : View) (entries : List OrderedIdentity)
    (probe : Option OrderedRecord)
    → Sorted (by_records before v.records) entries
    → (start_after v entries before probe).0 ≤ length entries
start_after-le before strict v entries none s = omega arith
start_after-le before strict v entries (some probe) s =
    upper_bound-le before v.records strict probe entries s

slice-ok :
    (start end : ℕ) (entries : List OrderedIdentity)
    → start ≤ end
    → end ≤ length entries
    → slice start end entries ≡ ok (take (end - start) (drop start entries))
slice-ok start end entries le inside =
    elim (Bool-cases (ltb end start || ltb (length entries) end)) [
      | inl e ↦ absurd (ground (arith, e, le, inside))
      | inr e ↦ rw (slice, e) refl
    ]

module _ (storage : Storage) (enc : Encodings) where
  -- A page is returned, or its token could not be encoded.
  abbrev pub Answers : Result OrderedError (CursorPage × View) → Type 0
  Answers r =
      ((page : CursorPage) × (v : View) × (r ≡ ok (page, v)))
      ⊎ ((p : CursorPayload) × (e : OrderedError) × ((encode_ordered_cursor storage enc p ≡ err e)
            × (r ≡ err e)))

  cursor_page-Answers :
      (position : OrderedRecord → CursorPayload) (more : Bool) (run : List OrderedIdentity)
      (v : View)
      → (more ≡ false) ⊎ (1 ≤ length run)
      → Answers (cursor_page storage enc position more run v)
  unfolding cursor_page collect_locked
  cursor_page-Answers position false run v full = inl (_, _, refl)
  cursor_page-Answers position true run v (inl no_more) = cc no_more
  cursor_page-Answers position true run v (inr full) =
      let (r, e) =
        last?-some (map (record_at v.records) run)
          (omega (arith, length-map (record_at v.records) run, full)) in
      elim (Result-cases (encode_ordered_cursor storage enc (position r))) [
        | inl (token, f) ↦ inl (
          record { records = map (record_at v.records) run; next_cursor = token },
          (collect_locked run v).1,
          rw (cursor_page, collect_locked, e, f) refl,
        )
        | inr (x, f) ↦ inr (position r, x, (f, rw (cursor_page, collect_locked, e, f) refl))
      ]

  -- On an indexed view and with a positive limit, a ranked listing returns a page, or the error with which the
  -- encoding of a position failed: it never panics.
  pub ranked_page-Answers :
      (assigned : OrderedIdentity → ℕ) (v : View) (ns scope : Bytes) (probe : Option OrderedRecord)
      (limit : ℕ)
      → IsIndexed storage.due_at assigned v
      → 0 < limit
      → Answers (ranked_page storage enc ns scope probe limit v)
  unfolding ranked_page
  ranked_page-Answers assigned v ns scope probe limit x positive =
      let le =
        start_after-le ordered_ranked_before ranked_before-IsStrict v entries probe
          (x.ranked_index scope).sorted in
      let full : (ltb end (length entries) ≡ false) ⊎ (1 ≤ length run) =
        elim (Bool-cases (ltb end (length entries))) [
          | inr e ↦ inl e
          | inl e ↦
              let less : end < length entries = ground (arith, e) in
              inr (
                omega (
                  arith,
                  length-take (end - start) (drop start entries),
                  length-drop start entries,
                  less,
                  positive,
                  le,
                ))
        ] in
      subst (λ r. Answers (then_try r paged))
        (sym (slice-ok start end entries (omega (arith, le)) (omega arith)))
        (cursor_page-Answers (ranked_position storage enc ns scope) (ltb end (length entries)) run
          (visit (start_after v entries ordered_ranked_before probe).1 v) full)
    where
      entries : List OrderedIdentity
      entries = entries_of scope v.ranked

      start : ℕ
      start = (start_after v entries ordered_ranked_before probe).0

      end : ℕ
      end = min (start + limit) (length entries)

      run : List OrderedIdentity
      run = take (end - start) (drop start entries)

      paged : List OrderedIdentity → Result OrderedError (CursorPage × View)
      paged run =
          cursor_page storage enc (ranked_position storage enc ns scope) (ltb end (length entries))
            run (visit (start_after v entries ordered_ranked_before probe).1 v)
