-- ===== src/Ordered/View/Page/Acceptance.antt =====
-- What a page of ListOrdered holds.
use natsstore.Base.{
  ℕ, ◌+◌, ◌≡◌, refl, Bool, true, false, not, List, [], ◌∷◌, All, take, drop, filter, map, length,
  min, ltb, ◌==◌, arith, if◌then◌else◌, ◌∙◌, ap, sym,
}
use natsstore.Base.Bytes.{Bytes}
use natsstore.Base.Outcome.{ok, then_try-eq-ok}
use natsstore.Ordered.Record.{OrderedIdentity}
use natsstore.Ordered.Codec.{max_uint64}
use natsstore.Ordered.Index.{count_while}
use natsstore.Ordered.Index.Bisect.{Downward, search_index-count_while}
use natsstore.Ordered.Index.Sorted.{Sorted, drop-count_while}
use natsstore.Ordered.View.{View, record_at, entries_of, visit, order_lower_bound_locked}
use natsstore.Ordered.View.Indexed.{by_records}
use natsstore.Ordered.View.Keys.{order_before}
use natsstore.Ordered.View.Invariant.{IsIndexed}
use natsstore.Ordered.View.Page.{
  OrderedPage, slice, ordered_page, collect_locked, start_order, last_order,
}
use natsstore.Ordered.View.Page.Cut.{take-drop_slice, filter-cong}
use natsstore.Ordered.View.Page.Ranked.{slice-eq}

-- Accepted before an order, or after it.
abbrev accepted_before : ℕ → View → OrderedIdentity → Bool
accepted_before order v k = ltb (record_at v.records k).order order

abbrev pub accepted_after : ℕ → View → OrderedIdentity → Bool
accepted_after order v k = ltb order (record_at v.records k).order

accepted_before-Downward :
    (order : ℕ) (v : View) (xs : List OrderedIdentity)
    → Sorted (by_records order_before v.records) xs
    → Downward (accepted_before order v) xs
accepted_before-Downward order v [] s = tt
accepted_before-Downward order v (x ∷ xs) s =
    (λ h. later xs h s.0, accepted_before-Downward order v xs s.1)
  where
    later :
        (ys : List OrderedIdentity)
        → accepted_before order v x ≡ false
        → All (λ y. by_records order_before v.records x y ≡ true) ys
        → All (λ y. accepted_before order v y ≡ false) ys
    later [] h a = tt
    later (y ∷ ys) h a = let b = a.0 in (ground (arith, b, h), later ys h a.1)

start_order-lower :
    (v : View) (entries : List OrderedIdentity) (after : ℕ)
    → after == max_uint64 ≡ false
    → (start_order v entries after).0 ≡ (order_lower_bound_locked v.records entries (after + 1)).0
start_order-lower v entries after below =
    by_test (not (after == max_uint64)) (ground (arith, below))
  where
    by_test :
        (b : Bool)
        → b ≡ true
        → (if b
            then order_lower_bound_locked v.records entries (after + 1)
            else (length entries, 0)).0
          ≡ (order_lower_bound_locked v.records entries (after + 1)).0
    by_test true h = refl
    by_test false h = cc h

-- An acceptance page that a listing of an indexed view returns after an order below the largest uint64
-- holds exactly the first `limit` records, at most, of the scope's index with a larger order.
pub ordered_page-records :
    (due_at : ℕ) (assigned : OrderedIdentity → ℕ) (v v' : View) (scope : Bytes) (after limit : ℕ)
    (page : OrderedPage)
    → IsIndexed due_at assigned v
    → after == max_uint64 ≡ false
    → ordered_page scope after limit v ≡ ok (page, v')
    → page.records
      ≡ map
          (record_at v.records)
          (take limit (filter (accepted_after after v) (entries_of scope v.order)))
unfolding ordered_page collect_locked order_lower_bound_locked
ordered_page-records due_at assigned v v' scope after limit page x below h =
    let s = (x.order_index scope).sorted in
    let down = accepted_before-Downward (after + 1) v entries s in
    let (run, cut, made) =
      then_try-eq-ok (slice start end entries)
        (λ run. ok (
          record {
            records = map (record_at v.records) run;
            next_after_order = last_order (map (record_at v.records) run);
          },
          (collect_locked run (visit (start_order v entries after).1 v)).1,
        ))
        (page, v') h in
    let issued : OrderedPage = record {
      records = map (record_at v.records) run;
      next_after_order = last_order (map (record_at v.records) run);
    } in
    let same : issued ≡ page = cc made in
    let started : start ≡ count_while (accepted_before (after + 1) v) entries =
      start_order-lower v entries after below
      ∙ search_index-count_while (accepted_before (after + 1) v) entries down in
    ap (λ o. o.records) (sym same)
    ∙ ap (map (record_at v.records)) (
        slice-eq start end entries run cut
        ∙ take-drop_slice start limit entries
        ∙ ap (λ n. take limit (drop n entries)) started
        ∙ ap (take limit) (
            drop-count_while (accepted_before (after + 1) v) entries down
            ∙ filter-cong (λ k. not (accepted_before (after + 1) v k)) (accepted_after after v)
                entries (λ k. ground arith)))
  where
    entries : List OrderedIdentity
    entries = entries_of scope v.order

    start : ℕ
    start = (start_order v entries after).0

    end : ℕ
    end = min (start + limit) (length entries)
