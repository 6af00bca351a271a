-- ===== src/Ordered/View/Indexed.antt =====
-- One sorted index over the records of a view: what it means that the index is exact, and that taking
-- a record out, changing the stored record and putting it back in keeps it so.
use natsstore.Base.{
  ℕ, ◌≡◌, ◌≢◌, Bool, true, false, Option, none, some, List, drop, if◌then◌else◌, arith,
  Option-cases, inl, inr, ap,
}
use natsstore.Base.Dict.{Dict, find, put, find-put}
use natsstore.Ordered.Record.{OrderedRecord, OrderedIdentity, identity_eq_iff, identity_Eq}
use natsstore.Ordered.Index.{insert_at, scan_for, contains, count_while}
use natsstore.Ordered.Index.Bisect.{search_index-count_while}
use natsstore.Ordered.Index.Sorted.{
  Sorted, Sorted-Downward, Sorted-ext, Sorted-erase, Sorted-sorted_insert, insert_at-count_while,
  delete_at-count_while, scan_for-count_while, contains-erase, contains-sorted_insert, erase,
  All-contains,
}
use natsstore.Ordered.View.{
  Comparator, record_at, or_zero, lower_bound_locked, locate_locked, removed,
}

abbrev pub member : (OrderedRecord → Bool) → Option OrderedRecord → Bool
member belongs none = false
member belongs (some r) = belongs r

abbrev Records : Type 0
Records = Dict OrderedIdentity OrderedRecord

-- The comparator on identities, through the records that they name.
abbrev pub by_records : Comparator → Records → OrderedIdentity → OrderedIdentity → Bool
by_records before records a b = before (record_at records a) (record_at records b)

-- The index is sorted and holds exactly the identities whose record belongs in it.
pub record Indexed (before : Comparator) (belongs : OrderedRecord → Bool) (records : Records)
    (entries : List OrderedIdentity) : Type 0 where
  pub sorted : Sorted (by_records before records) entries
  pub exact : (k : OrderedIdentity) → contains k entries ≡ member belongs (find k records)

-- The same but for one identity, which the index does not hold.
pub record IndexedBut (key : OrderedIdentity) (before : Comparator) (belongs : OrderedRecord → Bool)
    (records : Records) (entries : List OrderedIdentity) : Type 0 where
  pub sorted : Sorted (by_records before records) entries
  pub exact :
      (k : OrderedIdentity)
      → contains k entries
        ≡ (if identity_Eq.beq key k then false else member belongs (find k records))

pub record IsStrict (before : Comparator) : Type 0 where
  pub irrefl : (a : OrderedRecord) → before a a ≡ false
  pub trans : (a b c : OrderedRecord) → before a b ≡ true → before b c ≡ true → before a c ≡ true

module _ (before : Comparator) (records : Records) (entries : List OrderedIdentity)
    (strict : IsStrict before) where
  -- The lower bound of a stored record is where the linear scan for its identity stops.
  lower_bound_stored :
      (key : OrderedIdentity) (rec : OrderedRecord)
      → record_at records key ≡ rec
      → Sorted (by_records before records) entries
      → (lower_bound_locked records entries before rec).0
        ≡ count_while (λ y. by_records before records y key) entries
  unfolding lower_bound_locked
  lower_bound_stored key rec here s = rw (← here) (
      search_index-count_while (λ y. by_records before records y key) entries
        (Sorted-Downward (by_records before records) key entries (λ a c. strict.trans _ _ _) s))

  scan_stored :
      (key : OrderedIdentity) (rec : OrderedRecord) (at : ℕ)
      → record_at records key ≡ rec
      → Sorted (by_records before records) entries
      → contains key entries ≡ true
      → scan_for
          (λ k. before rec (record_at records k))
          key
          at
          (drop (count_while (λ y. by_records before records y key) entries) entries)
        ≡ some at
  scan_stored key rec at here s held =
      rw (← here)
        (scan_for-count_while (by_records before records) key at entries (strict.irrefl _) s held)

module _ {before : Comparator} {belongs : OrderedRecord → Bool} {records : Records}
    {entries : List OrderedIdentity} (strict : IsStrict before) where
  -- locateLocked finds a record that the index holds, and the deletion there takes out just its entry.
  pub removed-erase :
      (key : OrderedIdentity) (previous : OrderedRecord)
      → Indexed before belongs records entries
      → find key records ≡ some previous
      → belongs previous ≡ true
      → removed records entries before previous key ≡ erase key entries
  unfolding removed locate_locked
  removed-erase key previous x here b =
      let stored : record_at records key ≡ previous = ap or_zero here in
      let held : contains key entries ≡ true = ground (arith, x.exact key, here, b) in
      ground (
        arith,
        lower_bound_stored before records entries strict key previous stored x.sorted,
        scan_stored before records entries strict key previous
            (count_while (λ y. by_records before records y key) entries) stored x.sorted held,
        delete_at-count_while (by_records before records) key entries (strict.irrefl _) x.sorted
            held,
      )

  pub removed-IndexedBut :
      (key : OrderedIdentity) (previous : OrderedRecord)
      → Indexed before belongs records entries
      → find key records ≡ some previous
      → belongs previous ≡ true
      → IndexedBut key before belongs records (removed records entries before previous key)
  removed-IndexedBut key previous x here b = rw (removed-erase key previous x here b) (record {
    sorted = Sorted-erase (by_records before records) key entries x.sorted;
    exact = λ k. ground (
      arith,
      contains-erase (by_records before records) key k entries (λ a. strict.irrefl _) x.sorted,
      x.exact k,
    );
  })

  -- An index that never held the identity needs no removal.
  pub absent-IndexedBut :
      (key : OrderedIdentity)
      → Indexed before belongs records entries
      → member belongs (find key records) ≡ false
      → IndexedBut key before belongs records entries
  absent-IndexedBut key x h = record {
    sorted = x.sorted;
    exact = λ k. ground (arith, x.exact k, h, identity_eq_iff key k);
  }

  -- The record of an identity that the index does not hold may change.
  pub put-IndexedBut :
      (key : OrderedIdentity) (rec : OrderedRecord)
      → IndexedBut key before belongs records entries
      → IndexedBut key before belongs (put key rec records) entries
  put-IndexedBut key rec x = record {
    sorted =
        Sorted-ext (by_records before records) (by_records before (put key rec records)) entries
          (λ a c p q. same a c (other a p) (other c q)) x.sorted;
    exact = λ k. ground (arith, x.exact k, find-put key k rec records);
  }
    where
      other : (a : OrderedIdentity) → contains a entries ≡ true → identity_Eq.beq key a ≡ false
      other a p = ground (arith, x.exact a)

      unchanged :
          (a : OrderedIdentity)
          → identity_Eq.beq key a ≡ false
          → record_at records a ≡ record_at (put key rec records) a
      unchanged a p = ground (arith, find-put key a rec records)

      same :
          (a c : OrderedIdentity)
          → identity_Eq.beq key a ≡ false
          → identity_Eq.beq key c ≡ false
          → by_records before records a c ≡ by_records before (put key rec records) a c
      same a c p q = cc (unchanged a p, unchanged c q)

  -- Insertion at the lower bound.
  pub inserted-Indexed :
      (key : OrderedIdentity) (rec : OrderedRecord)
      → IndexedBut key before belongs records entries
      → find key records ≡ some rec
      → belongs rec ≡ true
      → ((k : OrderedIdentity) (r : OrderedRecord)
          → k ≢ key
          → find k records ≡ some r
          → belongs r ≡ true
          → before r rec ≡ false
          → before rec r ≡ true)
      → Indexed before belongs records
          (insert_at (lower_bound_locked records entries before rec).0 key entries)
  inserted-Indexed key rec x here b distinct =
      let stored : record_at records key ≡ rec = ap or_zero here in
      rw
        (
          lower_bound_stored before records entries strict key rec stored x.sorted,
          insert_at-count_while,
        )
        (record {
          sorted =
              Sorted-sorted_insert (by_records before records) key entries
                (λ a c d. strict.trans _ _ _) (All-contains entries (compares stored)) x.sorted;
          exact = λ k. ground (
            arith,
            contains-sorted_insert (λ y. by_records before records y key) key k entries,
            x.exact k,
            identity_eq_iff key k,
            here,
            b,
          );
        })
    where
      compares :
          record_at records key ≡ rec
          → (k : OrderedIdentity) → contains k entries ≡ true
          → by_records before records k key ≡ false
          → by_records before records key k ≡ true
      compares stored k held = elim (Option-cases (find k records)) [
        | inl e ↦ ground (arith, x.exact k, e)
        | inr (r, e) ↦
            λ h. ground (arith, x.exact k, e, stored, identity_eq_iff key k, distinct k r)
      ]

  pub absent-Indexed :
      (key : OrderedIdentity)
      → IndexedBut key before belongs records entries
      → member belongs (find key records) ≡ false
      → Indexed before belongs records entries
  absent-Indexed key x h = record {
    sorted = x.sorted;
    exact = λ k. ground (arith, x.exact k, h, identity_eq_iff key k);
  }
