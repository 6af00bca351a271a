-- ===== src/Listing.antt =====
-- sortedDedupFiltered (kv.go), which KV.Keys and Blobs.List share.
pub mod Sorted
use natsstore.Base.{Bool, true, false, List, [], ◌∷◌, if◌then◌else◌}
use natsstore.Base.Bytes.{Bytes, bytes_Eq, bytes_lt, has_prefix}
use natsstore.Ordered.Index.{contains}
use natsstore.Ordered.Index.Sorted.{sorted_insert}

-- sort.Strings on a list without duplicates.
unfoldable pub sort_strings : List Bytes → List Bytes
unfolding sorted_insert
sort_strings [] = []
sort_strings (k ∷ ks) = sorted_insert (λ y. bytes_lt y k) k (sort_strings ks)

-- The loop, with the keys that are in `seen`.
unfoldable pub dedup_filtered : Bytes → List Bytes → List Bytes → List Bytes
dedup_filtered prefix seen [] = []
dedup_filtered prefix seen (k ∷ ks) = elim (has_prefix k prefix) [
  | false ↦ dedup_filtered prefix seen ks
  | true ↦ elim (contains k seen) [
    | true ↦ dedup_filtered prefix seen ks
    | false ↦ k ∷ dedup_filtered prefix (k ∷ seen) ks
  ]
]

unfoldable pub sorted_dedup_filtered : List Bytes → Bytes → List Bytes
unfolding sort_strings dedup_filtered
sorted_dedup_filtered all prefix = sort_strings (dedup_filtered prefix [] all)
