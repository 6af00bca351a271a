-- ===== src/Ledger/Cursor.antt =====
-- What a cursor yields: each sequence from its start to the tip that Read captured, once and in order.
use natsstore.Base.{
  ℕ, zero, suc, ◌+◌, ◌-◌, ◌%◌, ◌^◌, ◌≡◌, ◌≤◌, ◌<◌, refl, List, [], ◌∷◌, map, ltb, arith, Bool-cases,
  inl, inr, ap,
}
use natsstore.Base.Outcome.{ok, Op, pure, ◌>>=◌, Result-cases}
use natsstore.Ledger.{JsSeam, LedgerCursor, LedgerRecord, LedgerError, next_record}

-- n sequences from the first on.
abbrev pub from : ℕ → ℕ → List ℕ
from zero first = []
from (suc n) first = first ∷ from n (first + 1)

module _ {W : Type 0} (seam : JsSeam W) where
  -- n calls of Next.
  unfoldable pub drain : ℕ → Op (LedgerCursor × W) LedgerError (List LedgerRecord)
  drain zero = pure []
  drain (suc n) = next_record seam >>= λ r. (drain n >>= λ rs. pure (r ∷ rs))

  next_record-ok :
      (c : LedgerCursor) (w : W) (r : LedgerRecord)
      → c.tip < 2 ^ 64 - 1
      → (next_record seam (c, w)).0 ≡ ok r
      → (r.seq ≡ c.next)
        × ((c.next ≤ c.tip) × ((next_record seam (c, w)).1.0 ≡ record c { next = c.next + 1 }))
  unfolding next_record
  next_record-ok c w r small h = elim (Bool-cases (ltb c.tip c.next)) [
    | inl e ↦ cc (rw (next_record, e) at h)
    | inr e ↦ elim (Result-cases (seam.get_msg c.stream c.next w).0) [
      | inr (x, f) ↦ cc (rw (next_record, e, f) at h)
      | inl (payload, f) ↦
          let got : ok (record { seq = c.next; payload = payload }) ≡ ok r =
            rw (next_record, e, f) at h in
          let le : c.next ≤ c.tip = ground (arith, e) in
          let inside : (c.next + 1) % 2 ^ 64 ≡ c.next + 1 = omega (arith, le, small) in
          let first : LedgerRecord = record { seq = c.next; payload = payload } in
          let same : r ≡ first = cc in
          (ap (λ x. x.seq) same, (le, rw (next_record, e, f, inside) refl))
    ]
  ]

  -- Successful calls of Next, as many as a caller makes, yield consecutive sequences from the cursor's next
  -- one, leave the cursor behind them and are no more than the sequences up to the tip; the tip must be
  -- below the largest uint64.
  pub drain-consecutive :
      (n : ℕ) (c : LedgerCursor) (w : W) (rs : List LedgerRecord)
      → c.tip < 2 ^ 64 - 1
      → (drain n (c, w)).0 ≡ ok rs
      → (map (λ r. r.seq) rs ≡ from n c.next)
        × (((drain n (c, w)).1.0.next ≡ c.next + n) × (n ≤ c.tip + 1 - c.next))
  unfolding drain
  drain-consecutive zero c w rs small h =
      let e : [] ≡ rs = cc in (rw (← e) refl, (omega arith, omega arith))
  drain-consecutive (suc n) c w rs small h = elim (Result-cases (next_record seam (c, w)).0) [
    | inr (x, e) ↦ cc (rw (drain, ◌>>=◌, e) at h)
    | inl (r, e) ↦
        let (here, (below, moved)) = next_record-ok c w r small e in
        elim (Result-cases (drain n (next_record seam (c, w)).1).0) [
          | inr (x, f) ↦ cc (rw (drain, ◌>>=◌, e, f) at h)
          | inl (rest, f) ↦
              let c' = (next_record seam (c, w)).1.0 in
              let q : c'.next ≡ c.next + 1 = ap (λ x. x.next) moved in
              let p : c'.tip ≡ c.tip = ap (λ x. x.tip) moved in
              let (seqs, (after, bound)) =
                drain-consecutive n c' (next_record seam (c, w)).1.1 rest (omega (arith, p, small))
                  f in
              let listed : r ∷ rest ≡ rs = cc (rw (drain, ◌>>=◌, e, f) at h) in
              (
                rw (← listed, here, seqs, q) refl,
                (
                  rw (drain, ◌>>=◌, e, f) (omega (arith, after, q)),
                  omega (arith, bound, p, q, below),
                ),
              )
        ]
  ]
