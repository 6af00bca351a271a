-- ===== src/Ordered/Index.antt =====
-- The sorted indexes of a view: the binary search that lowerBoundLocked, upperBoundLocked,
-- orderLowerBoundLocked and dueEndLocked (ordered.go) share, and slices.Insert and slices.Delete.
pub mod Bisect
pub mod Sorted
use natsstore.Base.{
  ℕ, zero, suc, ◌+◌, ◌-◌, ◌/◌, Bool, true, false, not, ◌&&◌, Option, none, some, List, [], ◌∷◌,
  ◌++◌, length, get_elem?, take, drop, ltb, if◌then◌else◌, Eq,
}

-- One more index entry has been compared.
abbrev pub tick : ℕ × ℕ → ℕ × ℕ
tick (at, visited) = (at, suc visited)

-- `for low < high`: `right` tells whether the entry at an index lies before the position searched.
-- The result is the final `low` with the number of entries visited. Each round narrows the range, so
-- its width is enough fuel.
unfoldable pub bisect : (ℕ → Bool) → ℕ → ℕ → ℕ → ℕ × ℕ
bisect right zero low high = (low, 0)
bisect right (suc fuel) low high = elim (ltb low high) [
  | false ↦ (low, 0)
  | true ↦
      let middle = low + (high - low) / 2 in
      elim (right middle) [
        | true ↦ tick (bisect right fuel (middle + 1) high)
        | false ↦ tick (bisect right fuel low middle)
      ]
]

module _ {ℓ} {K : Type ℓ} where
  -- The test of the entry at an index. The loops read no index outside the slice.
  abbrev pub test_at : (K → Bool) → List K → ℕ → Bool
  test_at p entries i = elim (get_elem? entries i) [ none ↦ false | some k ↦ p k ]

  -- A search over a whole slice.
  unfoldable pub search_index : (K → Bool) → List K → ℕ × ℕ
  unfolding bisect
  search_index p entries = bisect (test_at p entries) (length entries) 0 (length entries)

  -- slices.Insert(entries, at, key).
  unfoldable pub insert_at : ℕ → K → List K → List K
  insert_at at key entries = take at entries ++ key ∷ drop at entries

  -- slices.Delete(entries, at, at+1).
  unfoldable pub delete_at : ℕ → List K → List K
  delete_at at entries = take at entries ++ drop (suc at) entries

  -- The linear scan that a binary search replaces: how many entries, from the start, satisfy `p`.
  unfoldable pub count_while : (K → Bool) → List K → ℕ
  count_while p [] = 0
  count_while p (x ∷ xs) = if p x then suc (count_while p xs) else 0

module _ {ℓ} {K : Type ℓ} ⦃e : Eq K⦄ where
  unfoldable pub contains : K → List K → Bool
  contains k [] = false
  contains k (x ∷ xs) = if e.beq x k then true else contains k xs

  -- The forward scan of locateLocked from `at`: past entries that the record does not sort before, up
  -- to the one that is the key.
  unfoldable pub scan_for : (K → Bool) → K → ℕ → List K → Option ℕ
  scan_for stop key at [] = none
  scan_for stop key at (x ∷ xs) =
      if stop x then none else if e.beq x key then some at else scan_for stop key (at + 1) xs
