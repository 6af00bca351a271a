-- ===== src/Listing/Sorted.antt =====
-- A listing is sorted, free of duplicates, and has exactly the keys with the prefix.
use natsstore.Base.{
  ◌≡◌, refl, true, false, not, ◌&&◌, List, [], ◌∷◌, arith, Bool-cases, inl, inr, ◌∙◌,
}
use natsstore.Base.Bytes.{
  Bytes, bytes_eq_iff, bytes_Eq, bytes_lt, bytes_lt_trans, bytes_lt_connected, has_prefix,
}
use natsstore.Ordered.Index.{contains}
use natsstore.Ordered.Index.Sorted.{
  Sorted, contains-sorted_insert, Sorted-sorted_insert, All-contains,
}
use natsstore.Listing.{sort_strings, dedup_filtered, sorted_dedup_filtered}

-- No key twice.
abbrev Distinct : List Bytes → Type 0
Distinct [] = Unit
Distinct (k ∷ ks) = (contains k ks ≡ false) × Distinct ks

contains-sort_strings : (j : Bytes) (ks : List Bytes) → contains j (sort_strings ks) ≡ contains j ks
unfolding sort_strings contains
contains-sort_strings j [] = refl
contains-sort_strings j (k ∷ ks) =
    contains-sorted_insert (λ y. bytes_lt y k) k j (sort_strings ks)
    ∙ rw (contains-sort_strings j ks) refl

sort_strings-Sorted : (ks : List Bytes) → Distinct ks → Sorted bytes_lt (sort_strings ks)
unfolding sort_strings
sort_strings-Sorted [] d = tt
sort_strings-Sorted (k ∷ ks) d =
    Sorted-sorted_insert bytes_lt k (sort_strings ks) bytes_lt_trans
      (All-contains (sort_strings ks) λ y there below. elim (Bool-cases (bytes_lt k y)) [
        | inl e ↦ e
        | inr e ↦
            let same : y ≡ k = bytes_lt_connected y k below e in
            let here : contains k ks ≡ true = rw (same, contains-sort_strings k ks) at there in
            ground (arith, here, d.0)
      ])
      (sort_strings-Sorted ks d.1)

contains-dedup_filtered :
    (prefix j : Bytes) (seen all : List Bytes)
    → contains j (dedup_filtered prefix seen all)
      ≡ ((has_prefix j prefix && contains j all) && not (contains j seen))
unfolding dedup_filtered contains
contains-dedup_filtered prefix j seen [] = ground arith
contains-dedup_filtered prefix j seen (k ∷ ks) = elim (Bool-cases (has_prefix k prefix)) [
  | inr e ↦
      rw (dedup_filtered, e)
        (ground (arith, contains-dedup_filtered prefix j seen ks, bytes_eq_iff k j))
  | inl e ↦ elim (Bool-cases (contains k seen)) [
    | inl f ↦
        rw (dedup_filtered, e, f)
          (ground (arith, contains-dedup_filtered prefix j seen ks, bytes_eq_iff k j))
    | inr f ↦
        rw (dedup_filtered, e, f)
          (ground (arith, contains-dedup_filtered prefix j (k ∷ seen) ks, bytes_eq_iff k j))
  ]
]

dedup_filtered-Distinct :
    (prefix : Bytes) (seen all : List Bytes) → Distinct (dedup_filtered prefix seen all)
unfolding dedup_filtered contains
dedup_filtered-Distinct prefix seen [] = tt
dedup_filtered-Distinct prefix seen (k ∷ ks) = elim (Bool-cases (has_prefix k prefix)) [
  | inr e ↦ rw (dedup_filtered, e) (dedup_filtered-Distinct prefix seen ks)
  | inl e ↦ elim (Bool-cases (contains k seen)) [
    | inl f ↦ rw (dedup_filtered, e, f) (dedup_filtered-Distinct prefix seen ks)
    | inr f ↦
        rw (dedup_filtered, e, f)
          (
            ground (arith, contains-dedup_filtered prefix k (k ∷ seen) ks, bytes_eq_iff k k),
            dedup_filtered-Distinct prefix (k ∷ seen) ks,
          )
  ]
]

-- A listing is strictly ascending, and a key is in it exactly if it begins with the prefix and the list
-- that the backend gave holds it.
pub sorted_dedup_filtered-listing :
    (all : List Bytes) (prefix : Bytes)
    → Sorted bytes_lt (sorted_dedup_filtered all prefix)
      × ((j : Bytes)
          → contains j (sorted_dedup_filtered all prefix) ≡ (has_prefix j prefix && contains j all))
unfolding sorted_dedup_filtered contains
sorted_dedup_filtered-listing all prefix = (
  sort_strings-Sorted (dedup_filtered prefix [] all) (dedup_filtered-Distinct prefix [] all),
  λ j.
      contains-sort_strings j (dedup_filtered prefix [] all)
      ∙ contains-dedup_filtered prefix j [] all
      ∙ ground arith,
)
