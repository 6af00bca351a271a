-- ===== src/Base/Runs.antt =====
-- What holds of every run of an operation: a property of the value that it returns, and a
-- predicate on the state that it preserves.
use mathlib.Core.Path.{◌≡◌}
use mathlib.Core.Logic.{inl, inr}
use natsstore.Base.Outcome.{Result, ok, err, Op, lift, pure, fail, ◌>>=◌, Result-cases}

module _ {E : Type 0} where
  module _ {S A : Type 0} where
    abbrev pub Yields : (A → Type 0) → Op S E A → Type 0
    Yields P f = (s : S) (a : A) → (f s).0 ≡ ok a → P a

    abbrev pub Preserves : (S → Type 0) → Op S E A → Type 0
    Preserves Q f = (s : S) → Q s → Q (f s).1

    abbrev pub Leads : (S → Type 0) → (S → Type 0) → Op S E A → Type 0
    Leads Q P f = (s : S) → Q s → P (f s).1

    -- What holds of the value together with the state behind it.
    abbrev pub YieldsIn : (A → S → Type 0) → Op S E A → Type 0
    YieldsIn P f = (s : S) (a : A) → (f s).0 ≡ ok a → P a (f s).1

    pub fail-YieldsIn : (P : A → S → Type 0) (e : E) → YieldsIn P (fail {S = S} e)
    fail-YieldsIn P e s b h = cc h

    pub pure-Yields : (P : A → Type 0) (a : A) → P a → Yields P (pure {S = S} a)
    pure-Yields P a p s b h = let e : a ≡ b = cc in rw (← e) p

    pub fail-Yields : (P : A → Type 0) (e : E) → Yields P (fail {S = S} e)
    fail-Yields P e s b h = cc h

    pub lift-Yields :
        (P : A → Type 0) (r : Result E A) → ((a : A) → r ≡ ok a → P a) → Yields P (lift {S = S} r)
    lift-Yields P r p s a h = p a h

  module _ {S A B : Type 0} where
    -- The two runs of a chain that succeeds.
    pub bind-eq-ok :
        (m : Op S E A) (k : A → Op S E B) (s : S) (b : B)
        → ((m >>= k) s).0 ≡ ok b
        → (a : A) × (((m s).0 ≡ ok a) × ((k a (m s).1).0 ≡ ok b))
    bind-eq-ok m k s b h = elim (Result-cases (m s).0) [
      | inl (a, e) ↦ (a, (e, rw (◌>>=◌, e) at h))
      | inr (x, e) ↦ let no : err x ≡ ok b = rw (◌>>=◌, e) at h in cc
    ]

    pub bind-Yields :
        (Q : A → Type 0) (P : B → Type 0) (m : Op S E A) (k : A → Op S E B)
        → Yields Q m
        → ((a : A) → Q a → Yields P (k a))
        → Yields P (m >>= k)
    bind-Yields Q P m k q p s b h = elim (Result-cases (m s).0) [
      | inl (a, e) ↦ p a (q s a e) (m s).1 b (rw e at h)
      | inr (x, e) ↦ let no : err x ≡ ok b = rw e at h in cc
    ]

    pub bind-YieldsIn :
        (P : B → S → Type 0) (m : Op S E A) (k : A → Op S E B)
        → ((a : A) → YieldsIn P (k a))
        → YieldsIn P (m >>= k)
    bind-YieldsIn P m k q s b h = elim (Result-cases (m s).0) [
      | inl (a, e) ↦ rw (◌>>=◌, e) (q a (m s).1 b (rw (◌>>=◌, e) at h))
      | inr (x, e) ↦ let no : err x ≡ ok b = rw (◌>>=◌, e) at h in cc
    ]

    pub bind-Preserves :
        (Q : S → Type 0) (m : Op S E A) (k : A → Op S E B)
        → Preserves Q m
        → ((a : A) → Preserves Q (k a))
        → Preserves Q (m >>= k)
    bind-Preserves Q m k p q s h = elim (Result-cases (m s).0) [
      | inl (a, e) ↦ rw e (q a (m s).1 (p s h))
      | inr (x, e) ↦ rw e (p s h)
    ]

    -- The first operation may end the run, so what the whole leads to must follow from its own outcome.
    pub bind-Leads :
        (Q P : S → Type 0) (m : Op S E A) (k : A → Op S E B)
        → ((s : S) → Q s → P s)
        → Preserves Q m
        → ((a : A) → Leads Q P (k a))
        → Leads Q P (m >>= k)
    bind-Leads Q P m k w p q s h = elim (Result-cases (m s).0) [
      | inl (a, e) ↦ rw e (q a (m s).1 (p s h))
      | inr (x, e) ↦ rw e (w (m s).1 (p s h))
    ]
