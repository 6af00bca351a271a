-- ===== src/Base/Order.antt =====
-- Strict linear orders as tests, and their lexicographic product.
use mathlib.Core.Path.{◌≡◌}
use mathlib.Core.Bool.{Bool, true, false, not}
use mathlib.Core.Logic.{◌↔◌}
use native.Mathlib.Omega.{arith}
use natsstore.Base.Tests.{if◌then◌else◌}
use natsstore.Base.Int.{ℤ, eqb_ℤ, eqb_ℤ_iff, ltb_ℤ, ltb_ℤ_irrefl, ltb_ℤ_trans, ltb_ℤ_connected}
use natsstore.Base.Bytes.{
  Bytes, bytes_eq, bytes_eq_iff, bytes_lt, bytes_lt_irrefl, bytes_lt_trans, bytes_lt_connected,
}

pub record LinearOrder {ℓ} (A : Type ℓ) : Type ℓ where
  pub eqb : A → A → Bool
  pub lt : A → A → Bool
  pub eqb_iff : (a b : A) → (eqb a b ≡ true) ↔ (a ≡ b)
  pub lt_irrefl : (a : A) → lt a a ≡ false
  pub lt_trans : (a b c : A) → lt a b ≡ true → lt b c ≡ true → lt a c ≡ true
  pub connected : (a b : A) → lt a b ≡ false → lt b a ≡ false → a ≡ b

abbrev pub int_order : LinearOrder ℤ
int_order = record {
  eqb = eqb_ℤ;
  lt = ltb_ℤ;
  eqb_iff = eqb_ℤ_iff;
  lt_irrefl = ltb_ℤ_irrefl;
  lt_trans = ltb_ℤ_trans;
  connected = ltb_ℤ_connected;
}

abbrev pub bytes_order : LinearOrder Bytes
bytes_order = record {
  eqb = bytes_eq;
  lt = bytes_lt;
  eqb_iff = bytes_eq_iff;
  lt_irrefl = bytes_lt_irrefl;
  lt_trans = bytes_lt_trans;
  connected = bytes_lt_connected;
}

-- Compare the first components, and the second ones where the first are equal.
module _ {ℓ κ} {A : Type ℓ} {B : Type κ} (oa : LinearOrder A) (ob : LinearOrder B) where
  abbrev pub lex_lt : A × B → A × B → Bool
  lex_lt (a, b) (c, d) = if not (oa.eqb a c) then oa.lt a c else ob.lt b d

  abbrev pub lex_eqb : A × B → A × B → Bool
  lex_eqb (a, b) (c, d) = if oa.eqb a c then ob.eqb b d else false

  pub lex_eqb_iff : (p q : A × B) → (lex_eqb p q ≡ true) ↔ (p ≡ q)
  lex_eqb_iff (a, b) (c, d) = ground (arith, oa.eqb_iff a c, ob.eqb_iff b d)

  pub lex_irrefl : (p : A × B) → lex_lt p p ≡ false
  lex_irrefl (a, b) = ground (arith, oa.lt_irrefl a, ob.lt_irrefl b)

  pub lex_trans : (p q r : A × B) → lex_lt p q ≡ true → lex_lt q r ≡ true → lex_lt p r ≡ true
  lex_trans (a, b) (c, d) (e, f) h k = ground (
    arith,
    oa.eqb_iff a c,
    oa.eqb_iff c e,
    oa.eqb_iff a e,
    oa.lt_trans a c e,
    oa.lt_trans c a c,
    oa.lt_irrefl c,
    ob.lt_trans b d f,
  )

  pub lex_connected : (p q : A × B) → lex_lt p q ≡ false → lex_lt q p ≡ false → p ≡ q
  lex_connected (a, b) (c, d) h k =
      ground (arith, oa.eqb_iff a c, oa.eqb_iff c a, oa.connected a c, ob.connected b d)

  abbrev pub lex : LinearOrder (A × B)
  lex = record {
    eqb = lex_eqb;
    lt = lex_lt;
    eqb_iff = lex_eqb_iff;
    lt_irrefl = lex_irrefl;
    lt_trans = lex_trans;
    connected = lex_connected;
  }
