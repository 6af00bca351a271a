-- ===== src/Ordered/Index/Sorted.antt =====
-- Strictly sorted indexes: what an insertion at the lower bound, a deletion at the located entry and
-- the cut of a page do to them.
use natsstore.Base.{
  ℕ, ◌≡◌, refl, Bool, true, false, not, some, List, [], ◌∷◌, take, drop, filter, All, if◌then◌else◌,
  arith, Bool-cases, inl, inr, Eq, ap, sym, ◌∙◌,
}
use natsstore.Ordered.Index.{insert_at, delete_at, count_while, contains, scan_for}
use natsstore.Ordered.Index.Bisect.{Downward}

-- Each entry sorts before all later ones.
abbrev pub Sorted {ℓ} : {K : Type ℓ} → (K → K → Bool) → List K → Type ℓ
Sorted lt [] = Unit
Sorted lt (x ∷ xs) = All (λ y. lt x y ≡ true) xs × Sorted lt xs

module _ {ℓ} {K : Type ℓ} where
  -- Insertion and removal by structural recursion.
  unfoldable pub sorted_insert : (K → Bool) → K → List K → List K
  sorted_insert p k [] = k ∷ []
  sorted_insert p k (x ∷ xs) = if p x then x ∷ sorted_insert p k xs else k ∷ x ∷ xs

  pub insert_at-count_while :
      (p : K → Bool) (k : K) (xs : List K)
      → insert_at (count_while p xs) k xs ≡ sorted_insert p k xs
  unfolding insert_at count_while sorted_insert
  insert_at-count_while p k [] = refl
  insert_at-count_while p k (x ∷ xs) = elim (Bool-cases (p x)) [
    | inl e ↦ rw e (ap (λ l. x ∷ l) (insert_at-count_while p k xs))
    | inr e ↦ rw e
  ]

  All-map : {P Q : K → Type 0} (xs : List K) → ((x : K) → P x → Q x) → All P xs → All Q xs
  All-map [] f a = tt
  All-map (x ∷ xs) f a = (f x a.0, All-map xs f a.1)

  -- The entries behind the boundary are those that fail the test.
  pub drop-count_while :
      (p : K → Bool) (xs : List K)
      → Downward p xs
      → drop (count_while p xs) xs ≡ filter (λ y. not (p y)) xs
  unfolding count_while
  drop-count_while p [] d = refl
  drop-count_while p (x ∷ xs) d = elim (Bool-cases (p x)) [
    | inl e ↦ rw e (drop-count_while p xs d.1)
    | inr e ↦ rw e (ap (λ l. x ∷ l) (all_kept xs (d.0 e)))
  ]
    where
      all_kept : (ys : List K) → All (λ y. p y ≡ false) ys → ys ≡ filter (λ y. not (p y)) ys
      all_kept [] a = refl
      all_kept (y ∷ ys) a = rw a.0 (ap (λ l. y ∷ l) (all_kept ys a.1))

  -- The entries before the boundary are those that pass it.
  pub take-count_while :
      (p : K → Bool) (xs : List K) → Downward p xs → take (count_while p xs) xs ≡ filter p xs
  unfolding count_while
  take-count_while p [] d = refl
  take-count_while p (x ∷ xs) d = elim (Bool-cases (p x)) [
    | inl e ↦ rw e (ap (λ l. x ∷ l) (take-count_while p xs d.1))
    | inr e ↦ rw e (none_kept xs (d.0 e))
  ]
    where
      none_kept : (ys : List K) → All (λ y. p y ≡ false) ys → [] ≡ filter p ys
      none_kept [] a = refl
      none_kept (y ∷ ys) a = rw a.0 (none_kept ys a.1)

module _ {ℓ} {K : Type ℓ} ⦃e : Eq K⦄ where
  -- What holds of every key that the list contains.
  pub All-contains :
      {P : K → Type 0} (xs : List K) → ((k : K) → contains k xs ≡ true → P k) → All P xs
  unfolding contains
  All-contains [] f = tt
  All-contains (x ∷ xs) f = (
    f x (rw ((e.beq_iff x x).1 refl)),
    All-contains xs
        (λ k h. f k (elim (Bool-cases (e.beq x k)) [ inl q ↦ rw q | inr q ↦ rw (q, h) ])),
  )

  pub contains-All : (P : K → Type 0) (xs : List K) (k : K) → All P xs → contains k xs ≡ true → P k
  unfolding contains
  contains-All P [] k a h = cc
  contains-All P (x ∷ xs) k a h = elim (Bool-cases (e.beq x k)) [
    | inl q ↦ rw ((e.beq_iff x k).0 q) at a.0
    | inr q ↦ contains-All P xs k a.1 (rw q at h)
  ]

  pub contains-sorted_insert :
      (p : K → Bool) (k j : K) (xs : List K)
      → contains j (sorted_insert p k xs) ≡ (if e.beq k j then true else contains j xs)
  unfolding contains sorted_insert
  contains-sorted_insert p k j [] = refl
  contains-sorted_insert p k j (x ∷ xs) = ground (arith, contains-sorted_insert p k j xs)

  pub erase : K → List K → List K
  erase k [] = []
  erase k (x ∷ xs) = if e.beq x k then xs else x ∷ erase k xs

module _ {ℓ} {K : Type ℓ} ⦃e : Eq K⦄ (lt : K → K → Bool) where
  -- Over a sorted list the test "sorts before k" holds on a prefix.
  pub Sorted-Downward :
      (k : K) (xs : List K)
      → ((a b : K) → lt a b ≡ true → lt b k ≡ true → lt a k ≡ true)
      → Sorted lt xs
      → Downward (λ y. lt y k) xs
  Sorted-Downward k [] trans s = tt
  Sorted-Downward k (x ∷ xs) trans s = (λ h. later xs h s.0, Sorted-Downward k xs trans s.1)
    where
      later :
          (ys : List K)
          → lt x k ≡ false
          → All (λ y. lt x y ≡ true) ys
          → All (λ y. lt y k ≡ false) ys
      later [] h a = tt
      later (y ∷ ys) h a = (ground (arith, trans x y), later ys h a.1)

  All-sorted_insert :
      (P : K → Type 0) (p : K → Bool) (k : K) (xs : List K)
      → P k
      → All P xs
      → All P (sorted_insert p k xs)
  unfolding sorted_insert
  All-sorted_insert P p k [] h a = (h, tt)
  All-sorted_insert P p k (x ∷ xs) h a = elim (Bool-cases (p x)) [
    | inl q ↦ rw q (a.0, All-sorted_insert P p k xs h a.1)
    | inr q ↦ rw q (h, a)
  ]

  All-later :
      (k x : K) (xs : List K)
      → ((a b c : K) → lt a b ≡ true → lt b c ≡ true → lt a c ≡ true)
      → lt k x ≡ true
      → All (λ y. lt x y ≡ true) xs
      → All (λ y. lt k y ≡ true) xs
  All-later k x [] trans h a = tt
  All-later k x (y ∷ xs) trans h a = (trans k x y h a.0, All-later k x xs trans h a.1)

  -- Insertion at the lower bound keeps the order, if the new key compares with each entry.
  pub Sorted-sorted_insert :
      (k : K) (xs : List K)
      → ((a b c : K) → lt a b ≡ true → lt b c ≡ true → lt a c ≡ true)
      → All (λ y. lt y k ≡ false → lt k y ≡ true) xs
      → Sorted lt xs
      → Sorted lt (sorted_insert (λ y. lt y k) k xs)
  unfolding sorted_insert
  Sorted-sorted_insert k [] trans c s = (tt, tt)
  Sorted-sorted_insert k (x ∷ xs) trans c s = elim (Bool-cases (lt x k)) [
    | inl q ↦ rw q (
      All-sorted_insert (λ y. lt x y ≡ true) (λ y. lt y k) k xs q s.0,
      Sorted-sorted_insert k xs trans c.1 s.1,
    )
    | inr q ↦ rw q ((c.0 q, All-later k x xs trans (c.0 q) s.0), s)
  ]

  -- In a sorted index the entry at the lower bound of a key that is there is that key.
  pub scan_for-count_while :
      (k : K) (at : ℕ) (xs : List K)
      → lt k k ≡ false
      → Sorted lt xs
      → contains k xs ≡ true
      → scan_for (λ y. lt k y) k at (drop (count_while (λ y. lt y k) xs) xs) ≡ some at
  unfolding scan_for count_while contains
  scan_for-count_while k at [] irr s h = cc
  scan_for-count_while k at (x ∷ xs) irr s h = elim (Bool-cases (e.beq x k)) [
    | inl q ↦ let same = (e.beq_iff x k).0 q in rw (same, irr, irr, (e.beq_iff k k).1 refl)
    | inr q ↦
        let there : contains k xs ≡ true = rw q at h in
        let before : lt x k ≡ true = contains-All (λ y. lt x y ≡ true) xs k s.0 there in
        rw before (scan_for-count_while k at xs irr s.1 there)
  ]

  pub delete_at-count_while :
      (k : K) (xs : List K)
      → lt k k ≡ false
      → Sorted lt xs
      → contains k xs ≡ true
      → delete_at (count_while (λ y. lt y k) xs) xs ≡ erase k xs
  unfolding delete_at count_while contains erase
  delete_at-count_while k [] irr s h = cc
  delete_at-count_while k (x ∷ xs) irr s h = elim (Bool-cases (e.beq x k)) [
    | inl q ↦ let same = (e.beq_iff x k).0 q in rw (same, irr, (e.beq_iff k k).1 refl)
    | inr q ↦
        let there : contains k xs ≡ true = rw q at h in
        let before : lt x k ≡ true = contains-All (λ y. lt x y ≡ true) xs k s.0 there in
        rw (before, q) (ap (λ l. x ∷ l) (delete_at-count_while k xs irr s.1 there))
  ]

  All-erase : (P : K → Type 0) (k : K) (xs : List K) → All P xs → All P (erase k xs)
  unfolding erase
  All-erase P k [] a = tt
  All-erase P k (x ∷ xs) a = elim (Bool-cases (e.beq x k)) [
    | inl q ↦ rw q a.1
    | inr q ↦ rw q (a.0, All-erase P k xs a.1)
  ]

  pub Sorted-erase : (k : K) (xs : List K) → Sorted lt xs → Sorted lt (erase k xs)
  unfolding erase
  Sorted-erase k [] s = tt
  Sorted-erase k (x ∷ xs) s = elim (Bool-cases (e.beq x k)) [
    | inl q ↦ rw q s.1
    | inr q ↦ rw q (All-erase (λ y. lt x y ≡ true) k xs s.0, Sorted-erase k xs s.1)
  ]

  -- A sorted index holds a key once, so one removal takes it out.
  pub contains-erase :
      (k j : K) (xs : List K)
      → ((a : K) → lt a a ≡ false)
      → Sorted lt xs
      → contains j (erase k xs) ≡ (if e.beq k j then false else contains j xs)
  unfolding contains erase
  contains-erase k j [] irr s = ground arith
  contains-erase k j (x ∷ xs) irr s = elim (Bool-cases (e.beq x k)) [
    | inl q ↦
        let same = (e.beq_iff x k).0 q in
        let absent : contains k xs ≡ true → lt k k ≡ true =
          λ h. rw same at (contains-All (λ y. lt x y ≡ true) xs k s.0 h) in
        rw q (ground (arith, same, absent, irr k, e.beq_iff k j, e.beq_iff x j))
    | inr q ↦
        rw q (
          ground
            (arith, contains-erase k j xs irr s.1, e.beq_iff x k, e.beq_iff k j, e.beq_iff x j))
  ]

  -- The order is read off the records: a change of one that is not in the index leaves it sorted.
  pub Sorted-ext :
      (lt' : K → K → Bool) (xs : List K)
      → ((a b : K) → contains a xs ≡ true → contains b xs ≡ true → lt a b ≡ lt' a b)
      → Sorted lt xs
      → Sorted lt' xs
  unfolding contains
  Sorted-ext lt' [] same s = tt
  Sorted-ext lt' (x ∷ xs) same s = (
    All-contains xs (λ b h.
        sym (same x b (rw ((e.beq_iff x x).1 refl)) (held b h))
        ∙ contains-All (λ y. lt x y ≡ true) xs b s.0 h),
    Sorted-ext lt' xs (λ a b p q. same a b (held a p) (held b q)) s.1,
  )
    where
      held : (b : K) → contains b xs ≡ true → contains b (x ∷ xs) ≡ true
      held b h = elim (Bool-cases (e.beq x b)) [ inl q ↦ rw q | inr q ↦ rw (q, h) ]
