-- ===== src/Ordered/Index/Bisect.antt =====
-- The binary search agrees with the linear scan on a slice where the test holds on a prefix, and it
-- visits at most as many entries as the length has binary digits.
use natsstore.Base.{
  ℕ, zero, suc, ◌+◌, ◌-◌, ◌/◌, ◌^◌, ◌≤◌, ◌<◌, ◌≡◌, refl, Bool, false, List, [], ◌∷◌, length, All,
  ltb, arith, Bool-cases, inl, inr,
}
use natsstore.Ordered.Index.{bisect, test_at, search_index, count_while}

-- Once the test fails it fails on every later entry.
abbrev pub Downward {ℓ} : {K : Type ℓ} → (K → Bool) → List K → Type ℓ
Downward p [] = Unit
Downward p (x ∷ xs) = (p x ≡ false → All (λ y. p y ≡ false) xs) × Downward p xs

-- The search finds the boundary of the indexes that are to its right.
bisect-boundary :
    (right : ℕ → Bool) (c fuel low high : ℕ)
    → ((i : ℕ) → i < high → right i ≡ ltb i c)
    → low ≤ c
    → c ≤ high
    → high - low ≤ fuel
    → (bisect right fuel low high).0 ≡ c
unfolding bisect
bisect-boundary right c zero low high h p q f = omega arith
bisect-boundary right c (suc fuel) low high h p q f =
    let middle = low + (high - low) / 2 in
    ground (
      arith,
      h middle,
      bisect-boundary right c fuel (middle + 1) high h,
      bisect-boundary right c fuel low middle (λ i b. h i (omega arith)),
    )

-- Each round halves the range.
bisect_visited :
    (right : ℕ → Bool) (k fuel low high : ℕ)
    → high - low < 2 ^ k
    → (bisect right fuel low high).1 ≤ k
unfolding bisect
bisect_visited right k zero low high h = omega arith
bisect_visited right zero (suc fuel) low high h = ground arith
bisect_visited right (suc k) (suc fuel) low high h =
    let middle = low + (high - low) / 2 in
    ground
      (arith, bisect_visited right k fuel (middle + 1) high, bisect_visited right k fuel low middle)

module _ {ℓ} {K : Type ℓ} (p : K → Bool) where
  pub count_while-le : (xs : List K) → count_while p xs ≤ length xs
  unfolding count_while
  count_while-le [] = omega arith
  count_while-le (x ∷ xs) = ground (arith, count_while-le xs)

  test_at-false : (xs : List K) (i : ℕ) → All (λ y. p y ≡ false) xs → test_at p xs i ≡ false
  test_at-false [] i h = refl
  test_at-false (x ∷ xs) zero h = h.0
  test_at-false (x ∷ xs) (suc i) h = test_at-false xs i h.1

  test_at-count_while :
      (xs : List K) (i : ℕ)
      → Downward p xs
      → i < length xs
      → test_at p xs i ≡ ltb i (count_while p xs)
  unfolding count_while
  test_at-count_while [] i d h = absurd (omega arith)
  test_at-count_while (x ∷ xs) zero d h = ground arith
  test_at-count_while (x ∷ xs) (suc i) d h = elim (Bool-cases (p x)) [
    | inl e ↦ rw e (ground (arith, test_at-count_while xs i d.1))
    | inr e ↦ rw (e, test_at-false xs i (d.0 e)) (ground arith)
  ]

  -- Where the entries that pass the test are a prefix, the binary search finds the length of that prefix,
  -- which a linear scan counts.
  pub search_index-count_while :
      (xs : List K) → Downward p xs → (search_index p xs).0 ≡ count_while p xs
  unfolding search_index
  search_index-count_while xs d =
      bisect-boundary (test_at p xs) (count_while p xs) (length xs) 0 (length xs)
        (λ i h. test_at-count_while xs i d h) (omega arith) (count_while-le xs) (omega arith)

  -- A search visits at most `k` entries of a slice shorter than 2 ^ k, sorted or not.
  pub search_index_visited : (xs : List K) (k : ℕ) → length xs < 2 ^ k → (search_index p xs).1 ≤ k
  unfolding search_index
  search_index_visited xs k h =
      bisect_visited (test_at p xs) k (length xs) 0 (length xs) (omega arith)
