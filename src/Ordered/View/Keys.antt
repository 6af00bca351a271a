-- ===== src/Ordered/View/Keys.antt =====
-- The sort keys: each comparator is a strict order that tells two identities apart.
use natsstore.Base.{◌≡◌, ◌≢◌, refl, true, false, arith, ltb, if◌then◌else◌, List}
use natsstore.Base.Int.{eqb_ℤ_iff}
use natsstore.Base.Bytes.{Bytes, bytes_eq, bytes_eq_iff, bytes_Eq}
use natsstore.Base.Dict.{Dict, put, find-put}
use natsstore.Ordered.Record.{
  OrderedRecord, OrderedIdentity, identity, ordered_ranked_before, ordered_due_before, key_order,
  rank_key, due_key,
}
use natsstore.Ordered.View.{Comparator, entries_of}
use natsstore.Ordered.View.Indexed.{IsStrict}

ranked_before-key :
    (a b : OrderedRecord) → ordered_ranked_before a b ≡ key_order.lt (rank_key b) (rank_key a)
unfolding ordered_ranked_before
ranked_before-key a b = ground (
  arith,
  eqb_ℤ_iff a.rank.value b.rank.value,
  eqb_ℤ_iff b.rank.value a.rank.value,
  bytes_eq_iff a.id.stable_key b.id.stable_key,
  bytes_eq_iff b.id.stable_key a.id.stable_key,
)

due_before-key :
    (a b : OrderedRecord) → ordered_due_before a b ≡ key_order.lt (due_key a) (due_key b)
unfolding ordered_due_before
due_before-key a b = refl

pub ranked_before-IsStrict : IsStrict ordered_ranked_before
ranked_before-IsStrict = record {
  irrefl = λ a. rw ranked_before-key (key_order.lt_irrefl (rank_key a));
  trans = λ a b c h k. rw ranked_before-key (
      key_order.lt_trans (rank_key c) (rank_key b) (rank_key a) (rw ranked_before-key at k)
        (rw ranked_before-key at h));
}

pub due_before-IsStrict : IsStrict ordered_due_before
due_before-IsStrict = record {
  irrefl = λ a. rw due_before-key (key_order.lt_irrefl (due_key a));
  trans = λ a b c h k. rw due_before-key (
      key_order.lt_trans (due_key a) (due_key b) (due_key c) (rw due_before-key at h)
        (rw due_before-key at k));
}

-- Two records that are not the same identity are told apart by the last two components of a key.
pub ranked_before_connected :
    (a b : OrderedRecord)
    → identity a ≢ identity b
    → ordered_ranked_before a b ≡ false
    → ordered_ranked_before b a ≡ true
ranked_before_connected a b differ h = ground (
  arith,
  ranked_before-key a b,
  ranked_before-key b a,
  λ (p : key_order.lt (rank_key a) (rank_key b) ≡ false).
      same (key_order.connected (rank_key a) (rank_key b) p (rw ranked_before-key at h)),
)
  where
    same : rank_key a ≡ rank_key b → ⊥
    same e = differ (cc e)

pub due_before_connected :
    (a b : OrderedRecord)
    → identity a ≢ identity b
    → ordered_due_before a b ≡ false
    → ordered_due_before b a ≡ true
due_before_connected a b differ h = ground (
  arith,
  due_before-key a b,
  due_before-key b a,
  λ (p : key_order.lt (due_key b) (due_key a) ≡ false).
      same (key_order.connected (due_key a) (due_key b) (rw due_before-key at h) p),
)
  where
    same : due_key a ≡ due_key b → ⊥
    same e = differ (cc e)

-- The acceptance order of one scope, as a comparator.
abbrev pub order_before : Comparator
order_before a b = ltb a.order b.order

pub order_before-IsStrict : IsStrict order_before
order_before-IsStrict = record { irrefl = λ a. ground arith; trans = λ a b c h k. ground arith }

-- A write to one scope's index leaves the others alone.
pub entries_of-put :
    (s t : Bytes) (l : List OrderedIdentity) (d : Dict Bytes (List OrderedIdentity))
    → entries_of s (put t l d) ≡ (if bytes_eq t s then l else entries_of s d)
entries_of-put s t l d = ground (arith, find-put t s l d)
