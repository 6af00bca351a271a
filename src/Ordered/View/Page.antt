-- ===== src/Ordered/View/Page.antt =====
-- ListOrdered, ListRanked and ListDue (ordered.go) on the view that readyView returned: the cursors that
-- a listing takes, the cut of its page and the cursor that it issues.
pub mod Cut
pub mod Ranked
pub mod Resume
pub mod DueTimes
pub mod Acceptance
pub mod Total
use natsstore.Base.{
  ℕ, ◌+◌, ◌-◌, Bool, true, false, not, ◌&&◌, ◌||◌, ◌==◌, Option, none, some, List, [], ◌∷◌, ltb,
  take, drop, map, length, min, if◌then◌else◌,
}
use natsstore.Base.Int.{ℤ, pos, leb_ℤ, eqb_ℤ}
use natsstore.Base.Bytes.{Bytes, bytes_eq}
use natsstore.Base.Outcome.{Result, ok, err, then_try, Op, lift, ◌>>=◌}
use natsstore.Ordered.Record.{
  OrderedRecord, OrderedIdentity, ordered_ranked_before, ordered_due_before, zero_record, zero_due,
  zero_rank,
}
use natsstore.Ordered.Errors.{
  OrderedError, invalid, name, ordered_limit, invalid_cursor, query_mismatch, runtime_panic,
}
use natsstore.Ordered.Libraries.{Storage, Encodings, CursorPayload}
use natsstore.Ordered.Codec.{max_uint64}
use natsstore.Ordered.Codec.Cursor.{encode_ordered_cursor, decode_ordered_cursor_payload}
use natsstore.Ordered.View.{
  View, visit, record_at, entries_of, upper_bound_locked, order_lower_bound_locked, due_end_locked,
}

pub record OrderedPage : Type 0 where
  pub records : List OrderedRecord
  pub next_after_order : ℕ

-- storage.RankedPage and storage.DuePage. The empty token tells that no page follows.
pub record CursorPage : Type 0 where
  pub records : List OrderedRecord
  pub next_cursor : Bytes

-- entries[start:end], a run-time panic where the bounds are crossed or the end is behind the last entry. Go
-- allows an end up to the capacity, which is no less, and would show stale entries there.
abbrev pub slice : ℕ → ℕ → List OrderedIdentity → Result OrderedError (List OrderedIdentity)
slice start end entries =
    if ltb end start || ltb (length entries) end
    then err runtime_panic
    else ok (take (end - start) (drop start entries))

abbrev pub last? : List OrderedRecord → Option OrderedRecord
last? [] = none
last? (r ∷ []) = some r
last? (r ∷ s ∷ rs) = last? (s ∷ rs)

-- The records of a run of entries, copied out; each is counted as visited and as copied.
unfoldable pub collect_locked : List OrderedIdentity → View → List OrderedRecord × View
collect_locked entries v = (
  map (record_at v.records) entries,
  record v {
    stats = record (v.stats) {
      index_visited = v.stats.index_visited + length entries;
      records_copied = v.stats.records_copied + length entries;
    };
  },
)

-- Where a page resumes: the beginning, or behind the probe.
abbrev pub start_after :
    View
    → List OrderedIdentity
    → (OrderedRecord → OrderedRecord → Bool)
    → Option OrderedRecord
    → ℕ × ℕ
start_after v entries before none = (0, 0)
start_after v entries before (some probe) = upper_bound_locked v.records entries before probe

-- Where an acceptance page starts. afterOrder + 1 would wrap at the largest order.
abbrev pub start_order : View → List OrderedIdentity → ℕ → ℕ × ℕ
start_order v entries after =
    if not (after == max_uint64)
    then order_lower_bound_locked v.records entries (after + 1)
    else (length entries, 0)

abbrev pub last_order : List OrderedRecord → ℕ
last_order records = elim (last? records) [ none ↦ 0 | some r ↦ r.order ]

-- The body of ListOrdered on a ready view.
unfoldable pub ordered_page : Bytes → ℕ → ℕ → View → Result OrderedError (OrderedPage × View)
unfolding collect_locked
ordered_page scope after limit v =
    let entries = entries_of scope v.order in
    let (start, visited) = start_order v entries after in
    let end = min (start + limit) (length entries) in
    then_try (slice start end entries) λ run.
      let (records, v') = collect_locked run (visit visited v) in
      ok (record { records = records; next_after_order = last_order records }, v')

module _ (storage : Storage) (enc : Encodings) where
  -- The page of a run of entries, with a cursor after its last record if more entries follow.
  unfoldable pub cursor_page :
      (OrderedRecord → CursorPayload)
      → Bool
      → List OrderedIdentity
      → View
      → Result OrderedError (CursorPage × View)
  unfolding collect_locked
  cursor_page position more run v =
      let (records, v') = collect_locked run v in
      if more
      then elim (last? records) [
        | none ↦ err runtime_panic
        | some last ↦
            then_try (encode_ordered_cursor storage enc (position last))
              (λ token. ok (record { records = records; next_cursor = token }, v'))
      ]
      else ok (record { records = records; next_cursor = [] }, v')

  abbrev pub ranked_position : Bytes → Bytes → OrderedRecord → CursorPayload
  ranked_position ns scope last = record {
    kind = storage.ranked_cursor_kind;
    namespace = ns;
    ranking_scope = scope;
    rank = last.rank.value;
    due_bound = pos 0;
    due_at = pos 0;
    stable_key = last.id.stable_key;
    ordering_scope = last.id.ordering_scope;
  }

  abbrev pub due_position : Bytes → ℤ → OrderedRecord → CursorPayload
  due_position ns bound last = record {
    kind = storage.due_cursor_kind;
    namespace = ns;
    ranking_scope = [];
    rank = pos 0;
    due_bound = bound;
    due_at = last.due.unix_millis;
    stable_key = last.id.stable_key;
    ordering_scope = last.id.ordering_scope;
  }

  -- The body of ListRanked on a ready view.
  unfoldable pub ranked_page :
      Bytes → Bytes → Option OrderedRecord → ℕ → View → Result OrderedError (CursorPage × View)
  unfolding cursor_page
  ranked_page ns scope probe limit v =
      let entries = entries_of scope v.ranked in
      let (start, visited) = start_after v entries ordered_ranked_before probe in
      let end = min (start + limit) (length entries) in
      then_try (slice start end entries) λ run.
        cursor_page (ranked_position ns scope) (ltb end (length entries)) run (visit visited v)

  -- The body of ListDue on a ready view.
  unfoldable pub due_page :
      Bytes → ℤ → Option OrderedRecord → ℕ → View → Result OrderedError (CursorPage × View)
  unfolding cursor_page
  due_page ns bound probe limit v =
      let (start, visited) = start_after v v.due ordered_due_before probe in
      let (eligible, compared) = due_end_locked v.records v.due bound in
      let end = min (start + limit) eligible in
      then_try (slice start end v.due) λ run.
        cursor_page (due_position ns bound) (ltb end eligible) run
          (visit compared (visit visited v))

  abbrev probe_id : CursorPayload → OrderedRecord
  probe_id p = record zero_record {
    id = record {
      namespace = p.namespace;
      ordering_scope = p.ordering_scope;
      stable_key = p.stable_key;
    };
  }

  abbrev pub ranked_probe : CursorPayload → OrderedRecord
  ranked_probe p = record (probe_id p) {
    ranking_scope = p.ranking_scope;
    rank = record { ranked = true; value = p.rank };
  }

  abbrev pub due_probe : CursorPayload → OrderedRecord
  due_probe p = record (probe_id p) {
    due = record { state = storage.due_at; unix_millis = p.due_at };
  }

  -- decodeRankedCursor: `none` starts at the beginning.
  unfoldable pub decode_ranked_cursor :
      Bytes → Bytes → Bytes → Result OrderedError (Option OrderedRecord)
  decode_ranked_cursor [] ns scope = ok none
  decode_ranked_cursor (c ∷ token) ns scope =
      then_try (decode_ordered_cursor_payload storage enc storage.ranked_cursor_kind (c ∷ token))
        λ p.
          if not (bytes_eq p.namespace ns) || not (bytes_eq p.ranking_scope scope)
          then err (invalid_cursor storage.ranked_cursor_kind (c ∷ token) query_mismatch)
          else ok (some (ranked_probe p))

  -- decodeDueCursor.
  unfoldable pub decode_due_cursor : Bytes → Bytes → ℤ → Result OrderedError (Option OrderedRecord)
  decode_due_cursor [] ns bound = ok none
  decode_due_cursor (c ∷ token) ns bound =
      then_try (decode_ordered_cursor_payload storage enc storage.due_cursor_kind (c ∷ token)) λ p.
        if not (bytes_eq p.namespace ns)
          || (not (eqb_ℤ p.due_bound bound) || not (leb_ℤ p.due_at bound))
        then err (invalid_cursor storage.due_cursor_kind (c ∷ token) query_mismatch)
        else ok (some (due_probe p))

  -- The listings. `ready` is readyView, an operation on the state of the store; the view comes back with
  -- the work that the listing counted.
  module _ {S : Type 0} (ready : Bytes → Op S OrderedError View) where
    unfoldable pub list_ordered : Bytes → Bytes → ℕ → ℕ → Op S OrderedError (OrderedPage × View)
    list_ordered ns scope after limit =
        if not (storage.validate_name ns)
        then lift (err (invalid name))
        else if not (storage.validate_name scope)
        then lift (err (invalid name))
        else if not (storage.validate_ordered_limit limit)
        then lift (err (invalid ordered_limit))
        else do v ← ready ns; lift (ordered_page scope after limit v)

    unfoldable pub list_ranked : Bytes → Bytes → Bytes → ℕ → Op S OrderedError (CursorPage × View)
    list_ranked ns scope after limit =
        if not (storage.validate_name ns)
        then lift (err (invalid name))
        else if not (storage.validate_name scope)
        then lift (err (invalid name))
        else if not (storage.validate_ordered_limit limit)
        then lift (err (invalid ordered_limit))
        else do
          probe ← lift (decode_ranked_cursor after ns scope)
          v ← ready ns
          lift (ranked_page ns scope probe limit v)

    unfoldable pub list_due : Bytes → ℤ → Bytes → ℕ → Op S OrderedError (CursorPage × View)
    list_due ns bound after limit =
        if not (storage.validate_name ns)
        then lift (err (invalid name))
        else if not (storage.validate_ordered_limit limit)
        then lift (err (invalid ordered_limit))
        else do
          probe ← lift (decode_due_cursor after ns bound)
          v ← ready ns
          lift (due_page ns bound probe limit v)
