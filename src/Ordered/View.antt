-- ===== src/Ordered/View.antt =====
-- One namespace's materialized query view (orderedView of ordered.go): its state, the maintenance of its
-- sorted indexes and the application of stream messages. Pages are in `Page`, the barrier in `Barrier`.
pub mod Indexed
pub mod Keys
pub mod Invariant
pub mod Page
pub mod Barrier
use natsstore.Base.{
  ℕ, ◌+◌, Bool, true, false, not, ◌&&◌, ◌==◌, Option, none, some, List, [], ◌∷◌, ltb, leb, drop,
  map, length, if◌then◌else◌,
}
use natsstore.Base.Int.{ℤ, leb_ℤ}
use natsstore.Base.Bytes.{Bytes, bytes_Eq}
use natsstore.Base.Dict.{Dict, find, put}
use natsstore.Base.Outcome.{ok, err}
use natsstore.Ordered.Record.{
  OrderedRecord, OrderedIdentity, identity, identity_Eq, zero_record, ordered_ranked_before,
  ordered_due_before,
}
use natsstore.Ordered.Errors.{OrderedError}
use natsstore.Ordered.Libraries.{Storage, Encodings}
use natsstore.Ordered.Codec.{
  classify_ordered_subject, decode_ordered_record, SubjectFamily, record_family, counter_family,
  foreign_subject,
}
use natsstore.Ordered.Index.{search_index, scan_for, insert_at, delete_at}

-- The work that the query paths count (orderedStats).
pub record Stats : Type 0 where
  pub messages_applied : ℕ
  pub index_visited : ℕ
  pub records_copied : ℕ
  pub stream_tip_reads : ℕ

-- `generation` counts how often the broadcast channel was closed and replaced; `cancelled` tells that
-- the subscription's context was cancelled.
pub record View : Type 0 where
  pub namespace : Bytes
  pub records : Dict OrderedIdentity OrderedRecord
  pub order : Dict Bytes (List OrderedIdentity)
  pub ranked : Dict Bytes (List OrderedIdentity)
  pub due : List OrderedIdentity
  pub watermark : ℕ
  pub generation : ℕ
  pub fatal : Option OrderedError
  pub cancelled : Bool
  pub stats : Stats

abbrev pub new_ordered_view : Bytes → Stats → View
new_ordered_view ns stats = record {
  namespace = ns;
  records = [];
  order = [];
  ranked = [];
  due = [];
  watermark = 0;
  generation = 0;
  fatal = none;
  cancelled = false;
  stats = stats;
}

-- Reading a Go map: the zero value where the key is missing.
abbrev pub or_zero : Option OrderedRecord → OrderedRecord
or_zero none = zero_record
or_zero (some r) = r

abbrev pub record_at : Dict OrderedIdentity OrderedRecord → OrderedIdentity → OrderedRecord
record_at records k = or_zero (find k records)

abbrev or_nil : Option (List OrderedIdentity) → List OrderedIdentity
or_nil none = []
or_nil (some l) = l

abbrev pub entries_of : Bytes → Dict Bytes (List OrderedIdentity) → List OrderedIdentity
entries_of scope index = or_nil (find scope index)

-- stats.indexVisited.Add, once for each entry that a search compared.
abbrev pub visit : ℕ → View → View
visit n v = record v { stats = record (v.stats) { index_visited = v.stats.index_visited + n } }

abbrev pub Comparator : Type 0
Comparator = OrderedRecord → OrderedRecord → Bool

module _ (records : Dict OrderedIdentity OrderedRecord) (entries : List OrderedIdentity) where
  -- Each search returns the position with the number of entries compared.
  unfoldable pub lower_bound_locked : Comparator → OrderedRecord → ℕ × ℕ
  lower_bound_locked before probe = search_index (λ k. before (record_at records k) probe) entries

  unfoldable pub upper_bound_locked : Comparator → OrderedRecord → ℕ × ℕ
  upper_bound_locked before probe =
      search_index (λ k. not (before probe (record_at records k))) entries

  unfoldable pub order_lower_bound_locked : ℕ → ℕ × ℕ
  order_lower_bound_locked order = search_index (λ k. ltb (record_at records k).order order) entries

  unfoldable pub due_end_locked : ℤ → ℕ × ℕ
  due_end_locked bound =
      search_index (λ k. leb_ℤ (record_at records k).due.unix_millis bound) entries

  unfoldable pub locate_locked : Comparator → OrderedRecord → OrderedIdentity → Option ℕ × ℕ
  unfolding lower_bound_locked
  locate_locked before rec key =
      let (at, visited) = lower_bound_locked before rec in
      (scan_for (λ k. before rec (record_at records k)) key at (drop at entries), visited)

  -- What remains of an index when a record is taken out of it.
  unfoldable pub removed : Comparator → OrderedRecord → OrderedIdentity → List OrderedIdentity
  removed before rec key = elim (locate_locked before rec key).0 [
    | none ↦ entries
    | some at ↦ delete_at at entries
  ]

module _ (due_at : ℕ) where
  abbrev pub is_ranked : OrderedRecord → Bool
  is_ranked r = not r.deleted && r.rank.ranked

  abbrev pub is_due : OrderedRecord → Bool
  is_due r = not r.deleted && r.due.state == due_at

  unfoldable pub remove_ranked : OrderedIdentity → OrderedRecord → View → View
  remove_ranked key previous v =
      let entries = entries_of previous.ranking_scope v.ranked in
      let visited = (locate_locked v.records entries ordered_ranked_before previous key).1 in
      let left = removed v.records entries ordered_ranked_before previous key in
      if is_ranked previous
      then visit visited (record v { ranked = put previous.ranking_scope left v.ranked })
      else v

  unfoldable pub remove_due : OrderedIdentity → OrderedRecord → View → View
  remove_due key previous v =
      let visited = (locate_locked v.records v.due ordered_due_before previous key).1 in
      let left = removed v.records v.due ordered_due_before previous key in
      if is_due previous then visit visited (record v { due = left }) else v

  unfoldable pub remove_current_locked : OrderedIdentity → OrderedRecord → View → View
  unfolding remove_ranked remove_due
  remove_current_locked key previous v = remove_due key previous (remove_ranked key previous v)

  unfoldable pub insert_ranked : OrderedIdentity → OrderedRecord → View → View
  insert_ranked key rec v =
      let entries = entries_of rec.ranking_scope v.ranked in
      let (at, visited) = lower_bound_locked v.records entries ordered_ranked_before rec in
      if is_ranked rec
      then visit visited
          (record v { ranked = put rec.ranking_scope (insert_at at key entries) v.ranked })
      else v

  unfoldable pub insert_due : OrderedIdentity → OrderedRecord → View → View
  insert_due key rec v =
      let (at, visited) = lower_bound_locked v.records v.due ordered_due_before rec in
      if is_due rec then visit visited (record v { due = insert_at at key v.due }) else v

  unfoldable pub insert_current_locked : OrderedIdentity → OrderedRecord → View → View
  unfolding insert_ranked insert_due
  insert_current_locked key rec v = insert_due key rec (insert_ranked key rec v)

  unfoldable pub insert_order_locked : OrderedIdentity → OrderedRecord → View → View
  insert_order_locked key rec v =
      let entries = entries_of key.ordering_scope v.order in
      let (at, visited) = order_lower_bound_locked v.records entries rec.order in
      visit visited (record v { order = put key.ordering_scope (insert_at at key entries) v.order })

  abbrev pub store_record : OrderedIdentity → OrderedRecord → View → View
  store_record key rec v = record v { records = put key rec v.records }

  -- What applyRecord does with the record that the view holds already, if it holds one.
  unfoldable pub upsert : OrderedRecord → Option OrderedRecord → View → View
  unfolding remove_current_locked insert_current_locked insert_order_locked
  upsert rec none v =
      let key = identity rec in
      insert_current_locked key rec (insert_order_locked key rec (store_record key rec v))
  upsert rec (some previous) v =
      let key = identity rec in
      if leb rec.revision previous.revision
      then v
      else insert_current_locked key rec
          (store_record key rec (remove_current_locked key previous v))

  unfoldable pub apply_record : OrderedRecord → View → View
  unfolding upsert
  apply_record rec v = upsert rec (find (identity rec) v.records) v

unfoldable pub advance : ℕ → View → View
advance seq v =
    if leb seq v.watermark then v else record v { watermark = seq; generation = v.generation + 1 }

unfoldable pub set_fatal : OrderedError → View → View
set_fatal fault v = elim v.fatal [
  | none ↦ record v { fatal = some fault; generation = v.generation + 1; cancelled = true }
  | some earlier ↦ record v { cancelled = true }
]

module _ (storage : Storage) (enc : Encodings) where
  -- A message of a known family, once it has been counted.
  unfoldable pub fold_message : SubjectFamily → Bytes → ℕ → Bytes → View → View
  fold_message record_family subject seq payload v =
      elim (decode_ordered_record storage enc subject payload) [
        | err fault ↦ set_fatal fault v
        | ok rec ↦ advance seq (apply_record storage.due_at rec v)
      ]
  fold_message counter_family subject seq payload v = advance seq v
  fold_message foreign_subject subject seq payload v = advance seq v

  unfoldable pub apply_message : Bytes → ℕ → Bytes → View → View
  unfolding fold_message
  apply_message subject seq payload v =
      let counted = record v {
        stats = record (v.stats) { messages_applied = v.stats.messages_applied + 1 };
      } in
      elim (classify_ordered_subject storage v.namespace subject) [
        | err fault ↦ set_fatal fault counted
        | ok family ↦ fold_message family subject seq payload counted
      ]
