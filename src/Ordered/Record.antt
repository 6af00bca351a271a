-- ===== src/Ordered/Record.antt =====
-- The records of the ordered index (package storage, as ordered.go uses it), the identity under which
-- a view holds one, and the two frozen sort keys.
use natsstore.Base.{ℕ, ◌≡◌, ◌↔◌, Bool, true, false, not, ◌&&◌, [], arith, if◌then◌else◌, ◌==◌, Eq}
use natsstore.Base.Int.{ℤ, pos, eqb_ℤ, ltb_ℤ}
use natsstore.Base.Bytes.{Bytes, bytes_eq, bytes_eq_iff, bytes_lt}
use natsstore.Base.Order.{LinearOrder, int_order, bytes_order, lex}

pub record OrderedId : Type 0 where
  pub namespace : Bytes
  pub ordering_scope : Bytes
  pub stable_key : Bytes

pub record Rank : Type 0 where
  pub ranked : Bool
  pub value : ℤ

-- `state` is the uint8 behind storage.DueState, whose constants are parameters (Storage).
pub record Due : Type 0 where
  pub state : ℕ
  pub unix_millis : ℤ

pub record OrderedRecord : Type 0 where
  pub id : OrderedId
  pub ranking_scope : Bytes
  pub revision : ℕ
  pub order : ℕ
  pub due : Due
  pub rank : Rank
  pub value : Bytes
  pub deleted : Bool

-- Go's zero values.
abbrev pub zero_rank : Rank
zero_rank = record { ranked = false; value = pos 0 }

abbrev pub zero_due : Due
zero_due = record { state = 0; unix_millis = pos 0 }

abbrev pub zero_record : OrderedRecord
zero_record = record {
  id = record { namespace = []; ordering_scope = []; stable_key = [] };
  ranking_scope = [];
  revision = 0;
  order = 0;
  due = zero_due;
  rank = zero_rank;
  value = [];
  deleted = false;
}

-- Within one view the namespace is fixed, so the other two components identify a record.
pub record OrderedIdentity : Type 0 where
  pub ordering_scope : Bytes
  pub stable_key : Bytes

abbrev pub identity : OrderedRecord → OrderedIdentity
identity r = record { ordering_scope = r.id.ordering_scope; stable_key = r.id.stable_key }

abbrev pub identity_eq : OrderedIdentity → OrderedIdentity → Bool
identity_eq a b = bytes_eq a.ordering_scope b.ordering_scope && bytes_eq a.stable_key b.stable_key

pub identity_eq_iff : (a b : OrderedIdentity) → (identity_eq a b ≡ true) ↔ (a ≡ b)
identity_eq_iff a b =
    ground (
      arith,
      bytes_eq_iff a.ordering_scope b.ordering_scope,
      bytes_eq_iff a.stable_key b.stable_key,
    )

instance abbrev pub identity_Eq : Eq OrderedIdentity
identity_Eq = record { beq = identity_eq; beq_iff = identity_eq_iff }

-- `==` on the structs of package storage, field by field.
abbrev pub id_eq : OrderedId → OrderedId → Bool
id_eq a b =
    bytes_eq a.namespace b.namespace
    && bytes_eq a.ordering_scope b.ordering_scope
    && bytes_eq a.stable_key b.stable_key

abbrev pub bool_eq : Bool → Bool → Bool
bool_eq true b = b
bool_eq false b = not b

unfoldable pub ordered_record_equal : OrderedRecord → OrderedRecord → Bool
ordered_record_equal a b =
    id_eq a.id b.id
    && bytes_eq a.ranking_scope b.ranking_scope
    && a.revision == b.revision
    && a.order == b.order
    && (a.due.state == b.due.state && eqb_ℤ a.due.unix_millis b.due.unix_millis)
    && (bool_eq a.rank.ranked b.rank.ranked && eqb_ℤ a.rank.value b.rank.value)
    && bool_eq a.deleted b.deleted
    && bytes_eq a.value b.value

-- Descending by rank, stable key and ordering scope.
unfoldable pub ordered_ranked_before : OrderedRecord → OrderedRecord → Bool
ordered_ranked_before left right =
    if not (eqb_ℤ left.rank.value right.rank.value)
    then ltb_ℤ right.rank.value left.rank.value
    else if not (bytes_eq left.id.stable_key right.id.stable_key)
    then bytes_lt right.id.stable_key left.id.stable_key
    else bytes_lt right.id.ordering_scope left.id.ordering_scope

-- Ascending by due time, stable key and ordering scope.
unfoldable pub ordered_due_before : OrderedRecord → OrderedRecord → Bool
ordered_due_before left right =
    if not (eqb_ℤ left.due.unix_millis right.due.unix_millis)
    then ltb_ℤ left.due.unix_millis right.due.unix_millis
    else if not (bytes_eq left.id.stable_key right.id.stable_key)
    then bytes_lt left.id.stable_key right.id.stable_key
    else bytes_lt left.id.ordering_scope right.id.ordering_scope

-- The order of the three components of a sort key, each compared smaller-first.
abbrev pub SortKey : Type 0
SortKey = ℤ × (Bytes × Bytes)

abbrev pub key_order : LinearOrder SortKey
key_order = lex int_order (lex bytes_order bytes_order)

abbrev pub rank_key : OrderedRecord → SortKey
rank_key r = (r.rank.value, (r.id.stable_key, r.id.ordering_scope))

abbrev pub due_key : OrderedRecord → SortKey
due_key r = (r.due.unix_millis, (r.id.stable_key, r.id.ordering_scope))
