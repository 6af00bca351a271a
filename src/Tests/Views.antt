-- ===== src/Tests/Views.antt =====
-- Witnesses for the view and its ranked pages.
use natsstore.Base.{
  ℕ, zero, suc, ◌+◌, ◌*◌, ◌≡◌, ◌≤◌, refl, [], ◌∷◌, none, some, arith, if◌then◌else◌, Bool-cases,
  inl, inr, map, take, filter, drop, ap,
}
use natsstore.Base.Bytes.{Bytes, bytes, bytes_eq, bytes_eq_iff, bytes_Eq, cut_prefix}
use natsstore.Base.Dict.{find, put, remove}
use natsstore.Base.Outcome.{ok, err}
use natsstore.Subject.{encode_stream}
use natsstore.Ordered.Record.{
  OrderedIdentity, identity, identity_Eq, ordered_ranked_before, ordered_due_before,
}
use natsstore.Ordered.Codec.{
  decode_ordered_record, admit_payload, ordered_record_subject, ordered_namespace_prefix,
  ordered_identity_token, classify_ordered_subject, cut,
}
use natsstore.Ordered.Index.{search_index, insert_at}
use natsstore.Ordered.View.{
  View, Stats, new_ordered_view, apply_record, apply_message, entries_of, record_at, fold_message,
  upsert, insert_current_locked, insert_order_locked, insert_ranked, insert_due, lower_bound_locked,
  order_lower_bound_locked, due_end_locked, advance,
}
use natsstore.Ordered.View.Invariant.{IsIndexed, Allocates}
use natsstore.Ordered.View.Invariant.Messages.{
  Message, Carries, apply_all, view-IsIndexed, apply_record-records, apply_record_redelivery,
  newest,
}
use natsstore.Ordered.View.Page.{
  CursorPage, OrderedPage, ordered_page, ranked_page, due_page, ranked_position, ranked_probe,
  cursor_page, collect_locked,
}
use natsstore.Ordered.View.Page.Ranked.{behind, ranked_page-records}
use natsstore.Ordered.View.Page.DueTimes.{due_by, due_page-records}
use natsstore.Base.Int.{pos}
use natsstore.Ordered.View.Page.Acceptance.{accepted_after, ordered_page-records}
use natsstore.Ordered.View.Page.Total.{Answers, ranked_page-Answers}
use natsstore.Ordered.View.Page.Resume.{ranked_page-resumes}
use natsstore.Tests.{storage, enc, some_record}

-- A numbering of keys: no two have one number.
pair : ℕ → ℕ → ℕ
pair zero n = 2 * n + 1
pair (suc c) n = 2 * pair c n

pair-positive : (c n : ℕ) → 1 ≤ pair c n
unfolding pair
pair-positive zero n = omega arith
pair-positive (suc c) n = omega (arith, pair-positive c n)

pair_injective : (c d m n : ℕ) → pair c m ≡ pair d n → (c ≡ d) × (m ≡ n)
unfolding pair
pair_injective zero zero m n h = (refl, omega (arith, h))
pair_injective zero (suc d) m n h = absurd (omega (arith, h))
pair_injective (suc c) zero m n h = absurd (omega (arith, h))
pair_injective (suc c) (suc d) m n h =
    let (p, q) = pair_injective c d m n (omega (arith, h)) in (ap suc p, q)

number : Bytes → ℕ
number [] = 0
number (c ∷ s) = pair c (number s)

number_injective : (a b : Bytes) → number a ≡ number b → a ≡ b
unfolding number
number_injective [] [] h = refl
number_injective [] (d ∷ b) h = absurd (omega (arith, h, pair-positive d (number b)))
number_injective (c ∷ a) [] h = absurd (omega (arith, h, pair-positive c (number a)))
number_injective (c ∷ a) (d ∷ b) h =
    let (p, q) = pair_injective c d (number a) (number b) h in let r = number_injective a b q in cc

-- The stable key "k" has order 7 in each scope.
abbrev assigned : OrderedIdentity → ℕ
assigned k = if bytes_eq k.stable_key (bytes "k") then 7 else number k.stable_key + 8

assigned-Allocates : Allocates assigned
assigned-Allocates j k scope same =
    let key : j.stable_key ≡ k.stable_key = elim (Bool-cases (bytes_eq j.stable_key (bytes "k"))) [
      | inl e ↦ elim (Bool-cases (bytes_eq k.stable_key (bytes "k"))) [
        | inl f ↦
            let p = (bytes_eq_iff j.stable_key (bytes "k")).0 e in
            let q = (bytes_eq_iff k.stable_key (bytes "k")).0 f in cc
        | inr f ↦
            let n : 7 ≡ number k.stable_key + 8 = rw (e, f) at same in absurd (omega (arith, n))
      ]
      | inr e ↦ elim (Bool-cases (bytes_eq k.stable_key (bytes "k"))) [
        | inl f ↦
            let n : number j.stable_key + 8 ≡ 7 = rw (e, f) at same in absurd (omega (arith, n))
        | inr f ↦
            let n : number j.stable_key + 8 ≡ number k.stable_key + 8 = rw (e, f) at same in
            number_injective j.stable_key k.stable_key (omega (arith, n))
      ]
    ] in
    cc

abbrev message : Message
message = record { subject = bytes "OI.n.r.s.h"; seq = 4; payload = bytes "R" }

decoded_message : decode_ordered_record storage enc message.subject message.payload ≡ ok some_record
unfolding decode_ordered_record admit_payload ordered_record_subject ordered_namespace_prefix
    ordered_identity_token encode_stream bytes_eq
decoded_message = refl

message-Carries : Carries storage enc assigned message
unfolding bytes_eq
message-Carries rec h = let p : some_record ≡ rec = cc (decoded_message, h) in rw (← p) refl

abbrev no_stats : Stats
no_stats = record {
  messages_applied = 0;
  index_visited = 0;
  records_copied = 0;
  stream_tip_reads = 0;
}

abbrev one_view : View
one_view = apply_all storage enc assigned (message ∷ []) (new_ordered_view (bytes "n") no_stats)

view-IsIndexed_example : IsIndexed storage.due_at assigned one_view
view-IsIndexed_example =
    view-IsIndexed storage enc assigned assigned-Allocates (bytes "n") no_stats (message ∷ [])
      (message-Carries, tt)

apply_record-records_example :
    find
      (identity some_record)
      (apply_record storage.due_at some_record (new_ordered_view (bytes "n") no_stats)).records
    ≡ (if identity_Eq.beq (identity some_record) (identity some_record)
        then some (
            newest some_record
              (find (identity some_record) (new_ordered_view (bytes "n") no_stats).records))
        else find (identity some_record) (new_ordered_view (bytes "n") no_stats).records)
apply_record-records_example =
    apply_record-records storage.due_at some_record (new_ordered_view (bytes "n") no_stats)
      (identity some_record)

apply_record_redelivery_example :
    apply_record storage.due_at some_record
      (apply_record storage.due_at some_record (new_ordered_view (bytes "n") no_stats))
    ≡ apply_record storage.due_at some_record (new_ordered_view (bytes "n") no_stats)
apply_record_redelivery_example =
    apply_record_redelivery storage.due_at some_record some_record
      (new_ordered_view (bytes "n") no_stats) refl (omega arith)

abbrev page_and_view : CursorPage × View
page_and_view = elim (ranked_page storage enc (bytes "n") (bytes "q") none 1 one_view) [
  | ok found ↦ found
  | err e ↦ (record { records = []; next_cursor = [] }, one_view)
]

-- The first page of the view's ranked scope is the record, and no page follows.
first_page :
    ranked_page storage enc (bytes "n") (bytes "q") none 1 one_view
    ≡ ok (record { records = some_record ∷ []; next_cursor = [] }, page_and_view.1)
unfolding ranked_page cursor_page collect_locked apply_all apply_message fold_message
    classify_ordered_subject cut cut_prefix decode_ordered_record admit_payload
    ordered_record_subject ordered_namespace_prefix ordered_identity_token encode_stream bytes_eq
    apply_record upsert insert_current_locked insert_order_locked insert_ranked insert_due
    lower_bound_locked order_lower_bound_locked search_index insert_at advance find put remove
first_page = refl

ranked_page-records_example :
    some_record ∷ []
    ≡ map (record_at one_view.records) (
        take 1 (
          behind ordered_ranked_before one_view.records none
            (entries_of (bytes "q") one_view.ranked)))
ranked_page-records_example =
    ranked_page-records storage enc assigned one_view page_and_view.1 (bytes "n") (bytes "q") none 1
      (record { records = some_record ∷ []; next_cursor = [] }) view-IsIndexed_example first_page

ranked_page-resumes_example :
    behind ordered_ranked_before one_view.records
      (some (
        ranked_probe storage enc (ranked_position storage enc (bytes "n") (bytes "q") some_record)))
      (entries_of (bytes "q") one_view.ranked)
    ≡ drop 1 (
        behind ordered_ranked_before one_view.records none (entries_of (bytes "q") one_view.ranked))
ranked_page-resumes_example =
    ranked_page-resumes storage enc assigned one_view page_and_view.1 (bytes "n") (bytes "q") none 1
      (record { records = some_record ∷ []; next_cursor = [] }) some_record view-IsIndexed_example
      first_page refl

abbrev due_and_view : CursorPage × View
due_and_view = elim (due_page storage enc (bytes "n") (pos 9) none 1 one_view) [
  | ok found ↦ found
  | err e ↦ (record { records = []; next_cursor = [] }, one_view)
]

-- The record is due by instant 9.
first_due :
    due_page storage enc (bytes "n") (pos 9) none 1 one_view
    ≡ ok (record { records = some_record ∷ []; next_cursor = [] }, due_and_view.1)
unfolding due_page cursor_page collect_locked apply_all apply_message fold_message
    classify_ordered_subject cut cut_prefix decode_ordered_record admit_payload
    ordered_record_subject ordered_namespace_prefix ordered_identity_token encode_stream bytes_eq
    apply_record upsert insert_current_locked insert_order_locked insert_ranked insert_due
    lower_bound_locked order_lower_bound_locked due_end_locked search_index insert_at advance find
    put remove
first_due = refl

due_page-records_example :
    some_record ∷ []
    ≡ map (record_at one_view.records) (
        take 1 (
          filter
            (due_by (pos 9) one_view)
            (behind ordered_due_before one_view.records none one_view.due)))
due_page-records_example =
    due_page-records storage enc assigned one_view due_and_view.1 (bytes "n") (pos 9) none 1
      (record { records = some_record ∷ []; next_cursor = [] }) view-IsIndexed_example first_due

abbrev accepted_and_view : OrderedPage × View
accepted_and_view = elim (ordered_page (bytes "s") 6 1 one_view) [
  | ok found ↦ found
  | err e ↦ (record { records = []; next_after_order = 0 }, one_view)
]

-- The record is the first after order 6.
first_accepted :
    ordered_page (bytes "s") 6 1 one_view
    ≡ ok (record { records = some_record ∷ []; next_after_order = 7 }, accepted_and_view.1)
unfolding ordered_page collect_locked apply_all apply_message fold_message classify_ordered_subject
    cut cut_prefix decode_ordered_record admit_payload ordered_record_subject
    ordered_namespace_prefix ordered_identity_token encode_stream bytes_eq apply_record upsert
    insert_current_locked insert_order_locked insert_ranked insert_due lower_bound_locked
    order_lower_bound_locked search_index insert_at advance find put remove
first_accepted = refl

ordered_page-records_example :
    some_record ∷ []
    ≡ map
        (record_at one_view.records)
        (take 1 (filter (accepted_after 6 one_view) (entries_of (bytes "s") one_view.order)))
ordered_page-records_example =
    ordered_page-records storage.due_at assigned one_view accepted_and_view.1 (bytes "s") 6 1
      (record { records = some_record ∷ []; next_after_order = 7 }) view-IsIndexed_example refl
      first_accepted

ranked_page-Answers_example :
    Answers storage enc (ranked_page storage enc (bytes "n") (bytes "q") none 1 one_view)
ranked_page-Answers_example =
    ranked_page-Answers storage enc assigned one_view (bytes "n") (bytes "q") none 1
      view-IsIndexed_example (omega arith)
