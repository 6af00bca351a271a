-- ===== src/Ordered/View/Invariant.antt =====
-- The invariant of a view: its three families of indexes are sorted and exact, whatever records arrive.
pub mod Current
pub mod Acceptance
pub mod Upsert
pub mod Messages
use natsstore.Base.{
  ℕ, ◌≡◌, ◌≢◌, ◌<◌, Bool, true, false, not, ◌&&◌, Option, none, some, List, ◌==◌, ltb,
}
use natsstore.Base.Bytes.{Bytes, bytes_eq}
use natsstore.Base.Dict.{find}
use natsstore.Ordered.Record.{
  OrderedRecord, OrderedIdentity, identity, identity_Eq, ordered_ranked_before, ordered_due_before,
}
use natsstore.Ordered.View.{View, entries_of, is_ranked, is_due}
use natsstore.Ordered.View.Indexed.{Indexed, IndexedBut}
use natsstore.Ordered.View.Keys.{order_before}

-- Which records belong in which index.
abbrev pub ranked_in : Bytes → OrderedRecord → Bool
ranked_in scope r = (not r.deleted && r.rank.ranked) && bytes_eq r.ranking_scope scope

abbrev pub due_in : ℕ → OrderedRecord → Bool
due_in due_at r = not r.deleted && r.due.state == due_at

abbrev pub accepted_in : Bytes → OrderedRecord → Bool
accepted_in scope r = bytes_eq r.id.ordering_scope scope

-- The orders that the scopes' counters allocated: one to each identity, none twice in a scope.
abbrev pub Allocates : (OrderedIdentity → ℕ) → Type 0
Allocates assigned =
    (j k : OrderedIdentity) → j.ordering_scope ≡ k.ordering_scope → assigned j ≡ assigned k → j ≡ k

module _ (due_at : ℕ) (assigned : OrderedIdentity → ℕ) where
  pub record IsIndexed (v : View) : Type 0 where
    pub keyed :
        (k : OrderedIdentity) (r : OrderedRecord) → find k v.records ≡ some r → identity r ≡ k
    pub allocated :
        (k : OrderedIdentity) (r : OrderedRecord) → find k v.records ≡ some r → r.order ≡ assigned k
    pub ranked_index :
        (s : Bytes) → Indexed ordered_ranked_before (ranked_in s) v.records (entries_of s v.ranked)
    pub due_index : Indexed ordered_due_before (due_in due_at) v.records v.due
    pub order_index :
        (s : Bytes) → Indexed order_before (accepted_in s) v.records (entries_of s v.order)

-- The two current-state indexes without one identity.
pub record CurrentBut (due_at : ℕ) (key : OrderedIdentity) (v : View) : Type 0 where
  pub ranked_index :
      (s : Bytes)
      → IndexedBut key ordered_ranked_before (ranked_in s) v.records (entries_of s v.ranked)
  pub due_index : IndexedBut key ordered_due_before (due_in due_at) v.records v.due
