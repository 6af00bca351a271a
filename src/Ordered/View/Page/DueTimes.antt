-- ===== src/Ordered/View/Page/DueTimes.antt =====
-- What a page of ListDue holds.
use natsstore.Base.{
  ℕ, zero, suc, ◌+◌, ◌-◌, ◌≡◌, refl, Bool, true, false, Option, List, [], ◌∷◌, All, take, drop,
  filter, map, min, ltb, arith, Bool-cases, inl, inr, ◌∙◌, ap, sym,
}
use native.Mathlib.Numerals.{unary_clauses}
use natsstore.Base.Bytes.{Bytes}
use natsstore.Base.Int.{ℤ, leb_ℤ, ltb_ℤ, eqb_ℤ, eqb_ℤ_iff}
use natsstore.Base.Outcome.{ok, then_try-eq-ok}
use natsstore.Ordered.Record.{OrderedRecord, OrderedIdentity, ordered_due_before}
use natsstore.Ordered.Libraries.{Storage, Encodings}
use natsstore.Ordered.Index.Bisect.{Downward, search_index-count_while}
use natsstore.Ordered.Index.Sorted.{Sorted, take-count_while}
use natsstore.Ordered.View.{View, record_at, visit, due_end_locked}
use natsstore.Ordered.View.Indexed.{by_records}
use natsstore.Ordered.View.Keys.{due_before-IsStrict}
use natsstore.Ordered.View.Invariant.{IsIndexed}
use natsstore.Ordered.View.Page.{
  CursorPage, slice, cursor_page, due_page, due_position, start_after,
}
use natsstore.Ordered.View.Page.Ranked.{behind, slice-eq, start_after-behind, cursor_page-records}

module _ {ℓ} {A : Type ℓ} where
  take-take : (n m : ℕ) (xs : List A) → take (min n m) xs ≡ take n (take m xs)
  take-take zero m xs = simp unary_clauses refl
  take-take (suc n) zero xs = simp unary_clauses refl
  take-take (suc n) (suc m) [] = simp unary_clauses refl
  take-take (suc n) (suc m) (x ∷ xs) = simp unary_clauses (ap (λ l. x ∷ l) (take-take n m xs))

  take-nil : (n : ℕ) → take {A = A} n [] ≡ []
  take-nil zero = refl
  take-nil (suc n) = refl

  drop-take : (s m : ℕ) (xs : List A) → take (m - s) (drop s xs) ≡ drop s (take m xs)
  drop-take zero m xs = simp unary_clauses refl
  drop-take (suc s) zero [] = let e : 0 - suc s ≡ 0 = omega arith in rw e refl
  drop-take (suc s) (suc m) [] = take-nil (suc m - suc s)
  drop-take (suc s) zero (x ∷ xs) = let e : 0 - suc s ≡ 0 = omega arith in rw e refl
  drop-take (suc s) (suc m) (x ∷ xs) = simp unary_clauses (drop-take s m xs)

  none_kept : (p : A → Bool) (xs : List A) → All (λ y. p y ≡ false) xs → filter p xs ≡ []
  none_kept p [] a = refl
  none_kept p (x ∷ xs) a = rw a.0 (none_kept p xs a.1)

  drop-nil : (s : ℕ) → drop {A = A} s [] ≡ []
  drop-nil zero = refl
  drop-nil (suc s) = refl

  filter-drop :
      (p : A → Bool) (s : ℕ) (xs : List A)
      → Downward p xs
      → filter p (drop s xs) ≡ drop s (filter p xs)
  filter-drop p zero xs d = refl
  filter-drop p (suc s) [] d = refl
  filter-drop p (suc s) (x ∷ xs) d = elim (Bool-cases (p x)) [
    | inl e ↦ rw e (filter-drop p s xs d.1)
    | inr e ↦
        rw (e, none_kept p xs (d.0 e))
          (filter-drop p s xs d.1 ∙ rw (none_kept p xs (d.0 e)) (drop-nil s))
  ]

  -- A slice that ends inside a prefix, after at most `limit` entries.
  take-drop_prefix :
      (start limit eligible : ℕ) (xs : List A)
      → take (min (start + limit) eligible - start) (drop start xs)
        ≡ take limit (drop start (take eligible xs))
  take-drop_prefix start limit eligible xs =
      let e : min (start + limit) eligible - start ≡ min limit (eligible - start) = omega arith in
      rw e (
        take-take limit (eligible - start) (drop start xs)
        ∙ ap (take limit) (drop-take start eligible xs))

ltb-leb_ℤ : (a b c : ℤ) → ltb_ℤ a b ≡ true → leb_ℤ a c ≡ false → leb_ℤ b c ≡ false
ltb-leb_ℤ a b c h k = ground arith

-- A record that is due by an instant.
abbrev pub due_by : ℤ → View → OrderedIdentity → Bool
due_by bound v k = leb_ℤ (record_at v.records k).due.unix_millis bound

due_before-later :
    (a b : OrderedRecord) (bound : ℤ)
    → ordered_due_before a b ≡ true
    → leb_ℤ a.due.unix_millis bound ≡ false
    → leb_ℤ b.due.unix_millis bound ≡ false
unfolding ordered_due_before
due_before-later a b bound before late =
    elim (Bool-cases (eqb_ℤ a.due.unix_millis b.due.unix_millis)) [
      | inl e ↦ rw (← (eqb_ℤ_iff a.due.unix_millis b.due.unix_millis).0 e) late
      | inr e ↦
          let less : ltb_ℤ a.due.unix_millis b.due.unix_millis ≡ true =
            rw (ordered_due_before, e) at before in
          ltb-leb_ℤ a.due.unix_millis b.due.unix_millis bound less late
    ]

due_by-Downward :
    (bound : ℤ) (v : View) (xs : List OrderedIdentity)
    → Sorted (by_records ordered_due_before v.records) xs
    → Downward (due_by bound v) xs
due_by-Downward bound v [] s = tt
due_by-Downward bound v (x ∷ xs) s = (λ h. later xs h s.0, due_by-Downward bound v xs s.1)
  where
    later :
        (ys : List OrderedIdentity)
        → due_by bound v x ≡ false
        → All (λ y. by_records ordered_due_before v.records x y ≡ true) ys
        → All (λ y. due_by bound v y ≡ false) ys
    later [] h a = tt
    later (y ∷ ys) h a = (
      due_before-later (record_at v.records x) (record_at v.records y) bound a.0 h,
      later ys h a.1,
    )

module _ (storage : Storage) (enc : Encodings) where
  -- A due page that a listing of an indexed view returns holds exactly the first `limit` records, at most,
  -- of those of the index that are due by the bound and behind the probe, or from the index's beginning
  -- without a probe.
  pub due_page-records :
      (assigned : OrderedIdentity → ℕ) (v v' : View) (ns : Bytes) (bound : ℤ)
      (probe : Option OrderedRecord) (limit : ℕ) (page : CursorPage)
      → IsIndexed storage.due_at assigned v
      → due_page storage enc ns bound probe limit v ≡ ok (page, v')
      → page.records
        ≡ map
            (record_at v.records)
            (take limit (filter (due_by bound v) (behind ordered_due_before v.records probe v.due)))
  unfolding due_page due_end_locked
  due_page-records assigned v v' ns bound probe limit page x h =
      let s = x.due_index.sorted in
      let down = due_by-Downward bound v v.due s in
      let (run, cut, made) =
        then_try-eq-ok (slice start end v.due)
          (λ run.
            cursor_page storage enc (due_position storage enc ns bound) (ltb end eligible) run (
              visit (due_end_locked v.records v.due bound).1
                (visit (start_after v v.due ordered_due_before probe).1 v)))
          (page, v') h in
      let prefix : take eligible v.due ≡ filter (due_by bound v) v.due =
        ap (λ n. take n v.due) (search_index-count_while (due_by bound v) v.due down)
        ∙ take-count_while (due_by bound v) v.due down in
      cursor_page-records storage enc (due_position storage enc ns bound) (ltb end eligible) run
        (visit (due_end_locked v.records v.due bound).1
          (visit (start_after v v.due ordered_due_before probe).1 v))
        v' page made
      ∙ ap (map (record_at v.records)) (
          slice-eq start end v.due run cut
          ∙ take-drop_prefix start limit eligible v.due
          ∙ ap (λ l. take limit (drop start l)) prefix
          ∙ ap (take limit) (sym (filter-drop (due_by bound v) start v.due down))
          ∙ ap (λ l. take limit (filter (due_by bound v) l))
              (start_after-behind ordered_due_before due_before-IsStrict v v.due probe s))
    where
      start : ℕ
      start = (start_after v v.due ordered_due_before probe).0

      eligible : ℕ
      eligible = (due_end_locked v.records v.due bound).0

      end : ℕ
      end = min (start + limit) eligible
