-- ===== src/Ordered/View/Page/Resume.antt =====
-- Where the page behind a ranked cursor resumes.
use natsstore.Base.{
  ℕ, ◌+◌, ◌-◌, ◌≡◌, ◌≤◌, refl, Option, some, List, [], ◌∷◌, take, drop, map, length, get_elem?,
  arith, ◌∙◌, ap, sym,
}
use natsstore.Base.Bytes.{Bytes}
use natsstore.Base.Outcome.{ok}
use natsstore.Ordered.Record.{OrderedRecord, OrderedIdentity, ordered_ranked_before}
use natsstore.Ordered.Libraries.{Storage, Encodings}
use natsstore.Ordered.View.{View, record_at, entries_of}
use natsstore.Ordered.View.Keys.{ranked_before-IsStrict}
use natsstore.Ordered.View.Invariant.{IsIndexed}
use natsstore.Ordered.View.Page.{
  CursorPage, ranked_page, ranked_position, ranked_probe, start_after, last?,
}
use natsstore.Ordered.View.Page.Cut.{
  drop-upper_bound, upper_bound_resumes, get_elem?-map, get_elem?-take, get_elem?-drop, drop-drop,
  last?-get_elem?,
}
use natsstore.Ordered.View.Page.Ranked.{behind, start_after-behind, ranked_page-records}

last?-length : (rs : List OrderedRecord) (r : OrderedRecord) → last? rs ≡ some r → 1 ≤ length rs
last?-length [] r h = cc h
last?-length (x ∷ rs) r h = omega arith

module _ (storage : Storage) (enc : Encodings) where
  -- The probe reads only what the position keeps.
  probe_same :
      (ns scope : Bytes) (last r : OrderedRecord)
      → ordered_ranked_before
          (ranked_probe storage enc (ranked_position storage enc ns scope last))
          r
        ≡ ordered_ranked_before last r
  unfolding ordered_ranked_before
  probe_same ns scope last r = refl

  -- On an indexed view, the position of the last record of a ranked page that was returned resumes right
  -- behind the page: what follows it is what followed the page's start, without the page's records.
  pub ranked_page-resumes :
      (assigned : OrderedIdentity → ℕ) (v v' : View) (ns scope : Bytes)
      (probe : Option OrderedRecord) (limit : ℕ) (page : CursorPage) (last : OrderedRecord)
      → IsIndexed storage.due_at assigned v
      → ranked_page storage enc ns scope probe limit v ≡ ok (page, v')
      → last? page.records ≡ some last
      → behind ordered_ranked_before v.records
          (some (ranked_probe storage enc (ranked_position storage enc ns scope last)))
          (entries_of scope v.ranked)
        ≡ drop
            (length page.records)
            (behind ordered_ranked_before v.records probe (entries_of scope v.ranked))
  ranked_page-resumes assigned v v' ns scope probe limit page last x h ends =
      let s = (x.ranked_index scope).sorted in
      let started =
        start_after-behind ordered_ranked_before ranked_before-IsStrict v entries probe s in
      let held : page.records ≡ map (record_at v.records) (take limit (drop start entries)) =
        ranked_page-records storage enc assigned v v' ns scope probe limit page x h
        ∙ ap (λ l. map (record_at v.records) (take limit l)) (sym started) in
      let (k, here, names) =
        get_elem?-map (record_at v.records) (length page.records - 1)
          (take limit (drop start entries)) last
          (ap (λ l. get_elem? l (length page.records - 1)) (sym held)
            ∙ last?-get_elem? page.records last ends) in
      let found : get_elem? entries (start + (length page.records - 1)) ≡ some k =
        sym (get_elem?-drop start (length page.records - 1) entries)
        ∙ get_elem?-take limit (length page.records - 1) (drop start entries) k here in
      sym (drop-upper_bound ordered_ranked_before v.records ranked_before-IsStrict next entries s)
      ∙ ap (λ n. drop n entries)
          (upper_bound_resumes ordered_ranked_before v.records ranked_before-IsStrict next entries
              (start + (length page.records - 1)) k s found
              (λ r. probe_same ns scope last r ∙ ap (λ y. ordered_ranked_before y r) (sym names))
            ∙ omega (arith, last?-length page.records last ends))
      ∙ sym (drop-drop start (length page.records) entries)
      ∙ ap (drop (length page.records)) started
    where
      entries : List OrderedIdentity
      entries = entries_of scope v.ranked

      start : ℕ
      start = (start_after v entries ordered_ranked_before probe).0

      next : OrderedRecord
      next = ranked_probe storage enc (ranked_position storage enc ns scope last)
