-- ===== src/Ordered/View/Page/Cut.antt =====
-- What a page cuts out of a sorted index: the binary search finds where it resumes, and the slice is the
-- next run of entries.
use natsstore.Base.{
  ℕ, zero, suc, ◌+◌, ◌-◌, ◌≡◌, ◌≤◌, refl, Bool, true, false, not, some, List, [], ◌∷◌, All, take,
  drop, filter, map, length, length-drop, min, get_elem?, arith, ap, ◌∙◌,
}
use native.Mathlib.Numerals.{unary_clauses}
use native.Mathlib.Nat.{zero-add, suc-add}
use natsstore.Base.Dict.{Dict}
use natsstore.Ordered.Record.{OrderedRecord, OrderedIdentity}
use natsstore.Ordered.Index.{count_while}
use natsstore.Ordered.Index.Bisect.{Downward, search_index-count_while, count_while-le}
use natsstore.Ordered.Index.Sorted.{Sorted, drop-count_while}
use natsstore.Ordered.View.{Comparator, record_at, upper_bound_locked}
use natsstore.Ordered.View.Indexed.{IsStrict, by_records}
use natsstore.Ordered.View.Page.{last?}

module _ {ℓ} {A : Type ℓ} where
  take-min : (n : ℕ) (xs : List A) → take (min n (length xs)) xs ≡ take n xs
  take-min zero [] = refl
  take-min zero (x ∷ xs) = simp unary_clauses refl
  take-min (suc n) [] = simp unary_clauses refl
  take-min (suc n) (x ∷ xs) = simp unary_clauses (ap (λ l. x ∷ l) (take-min n xs))

  -- A slice up to `start + limit`, kept inside the list, is a run of at most `limit` entries.
  pub take-drop_slice :
      (start limit : ℕ) (xs : List A)
      → take (min (start + limit) (length xs) - start) (drop start xs) ≡ take limit (drop start xs)
  take-drop_slice start limit xs =
      let e : min (start + limit) (length xs) - start ≡ min limit (length (drop start xs)) =
        omega (arith, length-drop start xs) in
      rw e (take-min limit (drop start xs))

  pub get_elem?-drop : (n i : ℕ) (xs : List A) → get_elem? (drop n xs) i ≡ get_elem? xs (n + i)
  get_elem?-drop zero i xs = rw zero-add
  get_elem?-drop (suc n) i [] = refl
  get_elem?-drop (suc n) i (x ∷ xs) = rw suc-add (get_elem?-drop n i xs)

  pub get_elem?-take :
      (n i : ℕ) (xs : List A) (x : A) → get_elem? (take n xs) i ≡ some x → get_elem? xs i ≡ some x
  get_elem?-take zero i xs x h = cc
  get_elem?-take (suc n) i [] x h = cc
  get_elem?-take (suc n) zero (y ∷ xs) x h = h
  get_elem?-take (suc n) (suc i) (y ∷ xs) x h = get_elem?-take n i xs x h

  pub drop-drop : (n m : ℕ) (xs : List A) → drop m (drop n xs) ≡ drop (n + m) xs
  drop-drop zero m xs = rw zero-add
  drop-drop (suc n) zero [] = rw suc-add refl
  drop-drop (suc n) (suc m) [] = rw suc-add refl
  drop-drop (suc n) m (x ∷ xs) = rw suc-add (drop-drop n m xs)

  pub filter-cong :
      (p q : A → Bool) (xs : List A) → ((x : A) → p x ≡ q x) → filter p xs ≡ filter q xs
  filter-cong p q [] h = refl
  filter-cong p q (x ∷ xs) h = ground (arith, h x, filter-cong p q xs h)

module _ {ℓ κ} {A : Type ℓ} {B : Type κ} (f : A → B) where
  pub get_elem?-map :
      (i : ℕ) (xs : List A) (b : B)
      → get_elem? (map f xs) i ≡ some b
      → (a : A) × (get_elem? xs i ≡ some a) × (f a ≡ b)
  get_elem?-map i [] b h = cc
  get_elem?-map zero (x ∷ xs) b h = (x, refl, cc)
  get_elem?-map (suc i) (x ∷ xs) b h = get_elem?-map i xs b h

-- The last record of a page is the entry at its last index.
pub last?-get_elem? :
    (rs : List OrderedRecord) (r : OrderedRecord)
    → last? rs ≡ some r
    → get_elem? rs (length rs - 1) ≡ some r
last?-get_elem? [] r h = cc
last?-get_elem? (x ∷ []) r h = h
last?-get_elem? (x ∷ y ∷ rs) r h =
    let e : length (x ∷ y ∷ rs) - 1 ≡ suc (length (y ∷ rs) - 1) = omega arith in
    rw e (last?-get_elem? (y ∷ rs) r h)

module _ (before : Comparator) (records : Dict OrderedIdentity OrderedRecord)
    (strict : IsStrict before) where
  -- Behind the probe: the entries that it sorts before.
  abbrev pub after : OrderedRecord → OrderedIdentity → Bool
  after probe k = before probe (record_at records k)

  after-Downward :
      (probe : OrderedRecord) (entries : List OrderedIdentity)
      → Sorted (by_records before records) entries
      → Downward (λ k. not (after probe k)) entries
  after-Downward probe [] s = tt
  after-Downward probe (x ∷ xs) s = (λ h. later xs h s.0, after-Downward probe xs s.1)
    where
      later :
          (ys : List OrderedIdentity)
          → not (after probe x) ≡ false
          → All (λ y. by_records before records x y ≡ true) ys
          → All (λ y. not (after probe y) ≡ false) ys
      later [] h a = tt
      later (y ∷ ys) h a = (
        ground (arith, strict.trans probe (record_at records x) (record_at records y)),
        later ys h a.1,
      )

  pub upper_bound-count_while :
      (probe : OrderedRecord) (entries : List OrderedIdentity)
      → Sorted (by_records before records) entries
      → (upper_bound_locked records entries before probe).0
        ≡ count_while (λ k. not (after probe k)) entries
  unfolding upper_bound_locked
  upper_bound-count_while probe entries s =
      search_index-count_while (λ k. not (after probe k)) entries (after-Downward probe entries s)

  -- The search finds exactly the entries behind the probe.
  pub drop-upper_bound :
      (probe : OrderedRecord) (entries : List OrderedIdentity)
      → Sorted (by_records before records) entries
      → drop (upper_bound_locked records entries before probe).0 entries
        ≡ filter (after probe) entries
  drop-upper_bound probe entries s = rw (upper_bound-count_while probe entries s) (
      drop-count_while (λ k. not (after probe k)) entries (after-Downward probe entries s)
      ∙ filter-cong (λ k. not (not (after probe k))) (after probe) entries (λ k. ground arith))

  pub upper_bound-le :
      (probe : OrderedRecord) (entries : List OrderedIdentity)
      → Sorted (by_records before records) entries
      → (upper_bound_locked records entries before probe).0 ≤ length entries
  upper_bound-le probe entries s =
      rw (upper_bound-count_while probe entries s)
        (count_while-le (λ k. not (after probe k)) entries)

  -- A probe that compares as the entry at an index does resumes right behind that entry.
  pub upper_bound_resumes :
      (probe : OrderedRecord) (entries : List OrderedIdentity) (i : ℕ) (k : OrderedIdentity)
      → Sorted (by_records before records) entries
      → get_elem? entries i ≡ some k
      → ((r : OrderedRecord) → before probe r ≡ before (record_at records k) r)
      → (upper_bound_locked records entries before probe).0 ≡ i + 1
  unfolding count_while
  upper_bound_resumes probe entries i k s here same =
      upper_bound-count_while probe entries s ∙ counted entries i s here
    where
      none_after :
          (ys : List OrderedIdentity)
          → All (λ y. by_records before records k y ≡ true) ys
          → count_while (λ y. not (after probe y)) ys ≡ 0
      none_after [] a = refl
      none_after (y ∷ ys) a = rw (same (record_at records y), a.0)

      counted :
          (xs : List OrderedIdentity) (i : ℕ)
          → Sorted (by_records before records) xs
          → get_elem? xs i ≡ some k
          → count_while (λ y. not (after probe y)) xs ≡ i + 1
      counted [] i s h = cc
      counted (x ∷ xs) zero s h =
          let here : x ≡ k = ground (arith, h) in
          rw (here, same (record_at records k), strict.irrefl (record_at records k))
            (ap suc (none_after xs (rw here at s.0)))
      counted (x ∷ xs) (suc i) s h =
          let earlier : before (record_at records x) (record_at records k) ≡ true =
            found_later xs i s.0 h in
          let kept : before (record_at records k) (record_at records x) ≡ false = ground (
            arith,
            strict.trans (record_at records k) (record_at records x) (record_at records k),
            strict.irrefl (record_at records k),
          ) in
          rw (same (record_at records x), kept) (omega (arith, counted xs i s.1 h))
        where
          found_later :
              (ys : List OrderedIdentity) (i : ℕ)
              → All (λ y. by_records before records x y ≡ true) ys
              → get_elem? ys i ≡ some k
              → by_records before records x k ≡ true
          found_later [] i a h = cc
          found_later (y ∷ ys) zero a h = let e : y ≡ k = ground (arith, h) in rw e at a.0
          found_later (y ∷ ys) (suc i) a h = found_later ys i a.1 h
