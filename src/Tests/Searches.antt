-- ===== src/Tests/Searches.antt =====
-- Witnesses for the binary search.
use natsstore.Base.{ℕ, ◌≡◌, ◌≤◌, Bool, List, [], ◌∷◌, ltb, refl, arith}
use natsstore.Ordered.Index.{search_index, count_while}
use natsstore.Ordered.Index.Bisect.{Downward, search_index-count_while, search_index_visited}

abbrev below_three : ℕ → Bool
below_three n = ltb n 3

abbrev four : List ℕ
four = 1 ∷ 2 ∷ 5 ∷ 9 ∷ []

four-Downward : Downward below_three four
four-Downward = ((λ h. cc h), ((λ h. cc h), ((λ h. (refl, tt)), ((λ h. tt), tt))))

search_index-count_while_example : (search_index below_three four).0 ≡ count_while below_three four
search_index-count_while_example = search_index-count_while below_three four four-Downward

search_index_visited_example : (search_index below_three four).1 ≤ 3
search_index_visited_example = search_index_visited below_three four 3 (omega arith)
