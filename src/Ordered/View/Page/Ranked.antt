-- ===== src/Ordered/View/Page/Ranked.antt =====
-- What a page of ListRanked holds, and where the next one resumes.
use natsstore.Base.{
  ◌||◌, length, ℕ, ◌+◌, ◌-◌, ◌≡◌, refl, Bool, Option, none, some, List, [], take, drop, filter, map,
  length, min, ltb, Bool-cases, Option-cases, inl, inr, ◌∙◌, ap, sym,
}
use natsstore.Base.Bytes.{Bytes}
use natsstore.Base.Dict.{Dict}
use natsstore.Base.Outcome.{ok, then_try-eq-ok}
use natsstore.Ordered.Record.{OrderedRecord, OrderedIdentity, ordered_ranked_before}
use natsstore.Ordered.Libraries.{Storage, Encodings, CursorPayload}
use natsstore.Ordered.Codec.Cursor.{encode_ordered_cursor}
use natsstore.Ordered.View.{Comparator, View, record_at, entries_of, visit}
use natsstore.Ordered.View.Indexed.{IsStrict, by_records}
use natsstore.Ordered.View.Keys.{ranked_before-IsStrict}
use natsstore.Ordered.View.Invariant.{IsIndexed}
use natsstore.Ordered.Index.Sorted.{Sorted}
use natsstore.Ordered.View.Page.{
  CursorPage, slice, cursor_page, ranked_page, ranked_position, start_after, last?, collect_locked,
}
use natsstore.Ordered.View.Page.Cut.{drop-upper_bound, take-drop_slice}

-- The entries from the beginning, or behind a probe.
abbrev pub behind :
    Comparator
    → Dict OrderedIdentity OrderedRecord
    → Option OrderedRecord
    → List OrderedIdentity
    → List OrderedIdentity
behind before records none entries = entries
behind before records (some probe) entries =
    filter (λ k. before probe (record_at records k)) entries

pub slice-eq :
    (start end : ℕ) (entries run : List OrderedIdentity)
    → slice start end entries ≡ ok run
    → run ≡ take (end - start) (drop start entries)
slice-eq start end entries run h = elim (Bool-cases (ltb end start || ltb (length entries) end)) [
  | inl e ↦ cc (rw (slice, e) at h)
  | inr e ↦ let p : ok (take (end - start) (drop start entries)) ≡ ok run = rw (slice, e) at h in cc
]

pub start_after-behind :
    (before : Comparator) (strict : IsStrict before) (v : View) (entries : List OrderedIdentity)
    (probe : Option OrderedRecord)
    → Sorted (by_records before v.records) entries
    → drop (start_after v entries before probe).0 entries ≡ behind before v.records probe entries
start_after-behind before strict v entries none s = refl
start_after-behind before strict v entries (some probe) s =
    drop-upper_bound before v.records strict probe entries s

module _ (storage : Storage) (enc : Encodings) where
  pub cursor_page-records :
      (position : OrderedRecord → CursorPayload) (more : Bool) (run : List OrderedIdentity)
      (v v' : View) (page : CursorPage)
      → cursor_page storage enc position more run v ≡ ok (page, v')
      → page.records ≡ map (record_at v.records) run
  unfolding cursor_page collect_locked
  cursor_page-records position more run v v' page h = elim (Bool-cases more) [
    | inr e ↦
        let q : issued [] ≡ page = cc (rw (cursor_page, e) at h) in ap (λ x. x.records) (sym q)
    | inl e ↦ elim (Option-cases (last? (map (record_at v.records) run))) [
      | inl f ↦ cc (rw (cursor_page, e, collect_locked, f) at h)
      | inr (last, f) ↦
          let (token, found, made) =
            then_try-eq-ok (encode_ordered_cursor storage enc (position last))
              (λ token. ok (issued token, (collect_locked run v).1)) (page, v')
              (rw (cursor_page, e, collect_locked, f) at h) in
          let q : issued token ≡ page = cc made in ap (λ x. x.records) (sym q)
    ]
  ]
    where
      issued : Bytes → CursorPage
      issued token = record { records = map (record_at v.records) run; next_cursor = token }

  -- A ranked page that a listing of an indexed view returns holds exactly the first `limit` records, at
  -- most, of the scope's index behind the probe, or from its beginning without a probe.
  pub ranked_page-records :
      (assigned : OrderedIdentity → ℕ) (v v' : View) (ns scope : Bytes)
      (probe : Option OrderedRecord) (limit : ℕ) (page : CursorPage)
      → IsIndexed storage.due_at assigned v
      → ranked_page storage enc ns scope probe limit v ≡ ok (page, v')
      → page.records
        ≡ map
            (record_at v.records)
            (take limit (behind ordered_ranked_before v.records probe (entries_of scope v.ranked)))
  unfolding ranked_page
  ranked_page-records assigned v v' ns scope probe limit page x h =
      let (run, cut, made) =
        then_try-eq-ok (slice start end entries)
          (λ run.
            cursor_page storage enc (ranked_position storage enc ns scope)
              (ltb end (length entries)) run
              (visit (start_after v entries ordered_ranked_before probe).1 v))
          (page, v') h in
      cursor_page-records (ranked_position storage enc ns scope) (ltb end (length entries)) run
        (visit (start_after v entries ordered_ranked_before probe).1 v) v' page made
      ∙ ap (map (record_at v.records)) (
          slice-eq start end entries run cut
          ∙ take-drop_slice start limit entries
          ∙ ap (take limit) (
              start_after-behind ordered_ranked_before ranked_before-IsStrict v entries probe
                (x.ranked_index scope).sorted))
    where
      entries : List OrderedIdentity
      entries = entries_of scope v.ranked

      start : ℕ
      start = (start_after v entries ordered_ranked_before probe).0

      end : ℕ
      end = min (start + limit) (length entries)
