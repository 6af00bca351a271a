-- ===== src/Base/Decimal.antt =====
-- strconv on unsigned decimals: FormatUint, and ParseUint for base 10 with the largest value allowed.
use natsstore.Base.Tests.{ltb, leb, ltb→lt, if◌then◌else◌, Bool-cases}
use natsstore.Base.Bytes.{Bytes}
use natsstore.Base.Outcome.{Result, ok, err, then_try}
use Prim.Native.Nat.{ℕ, zero, suc, ◌+◌, ◌-◌, ◌*◌, ◌/◌, ◌%◌, ◌^◌, ◌≤◌, ◌<◌}
use mathlib.Core.Path.{◌≡◌, refl}
use mathlib.Core.Bool.{Bool, ◌&&◌}
use native.Mathlib.Nat.{pow-suc}
use mathlib.Core.Logic.{◌≢◌, inl, inr}
use mathlib.Core.List.{[], ◌∷◌, ◌++◌}
use native.Mathlib.Omega.{arith}

pub data ParseError : Type 0 where
  syntax out_of_range : ParseError

abbrev pub is_digit : ℕ → Bool
is_digit c = leb b'0' c && leb c b'9'

-- At most `digits` digits; a uint64 has at most 20.
unfoldable pub format_digits : ℕ → ℕ → Bytes
format_digits zero n = []
format_digits (suc digits) n =
    let front = format_digits digits (n / 10) in
    if ltb n 10 then (b'0' + n) ∷ [] else front ++ (b'0' + n % 10) ∷ []

format_digits_step :
    (digits n : ℕ)
    → format_digits (suc digits) n ≡ (
        if ltb n 10 then (b'0' + n) ∷ [] else format_digits digits (n / 10) ++ (b'0' + n % 10) ∷ [])
unfolding format_digits
format_digits_step digits n = refl

unfoldable pub format_uint : ℕ → Bytes
format_uint n = format_digits 20 n

abbrev pub parse_step : ℕ → ℕ → ℕ → Result ParseError ℕ
parse_step largest n c =
    if is_digit c
    then if ltb largest (n * 10 + (c - b'0')) then err out_of_range else ok (n * 10 + (c - b'0'))
    else err syntax

unfoldable pub parse_from : ℕ → ℕ → Bytes → Result ParseError ℕ
parse_from largest n [] = ok n
parse_from largest n (c ∷ s) = then_try (parse_step largest n c) (λ m. parse_from largest m s)

unfoldable pub parse_uint : ℕ → Bytes → Result ParseError ℕ
unfolding parse_from
parse_uint largest [] = err syntax
parse_uint largest (c ∷ s) = parse_from largest 0 (c ∷ s)

parse_from-append :
    (largest n : ℕ) (s : Bytes) (c : ℕ)
    → parse_from largest n (s ++ c ∷ [])
      ≡ then_try (parse_from largest n s) (λ m. parse_step largest m c)
unfolding parse_from
parse_from-append largest n [] c = ground arith
parse_from-append largest n (d ∷ s) c =
    ground (arith, parse_from-append largest (n * 10 + (d - b'0')) s c)

-- One more digit at the end.
parse_from_digit :
    (largest n : ℕ) (s : Bytes)
    → n ≤ largest
    → parse_from largest 0 s ≡ ok (n / 10)
    → parse_from largest 0 (s ++ (b'0' + n % 10) ∷ []) ≡ ok n
parse_from_digit largest n s h e = rw (parse_from-append, e) (ground arith)

parse_from_single :
    (largest n : ℕ) → n ≤ largest → n < 10 → parse_from largest 0 ((b'0' + n) ∷ []) ≡ ok n
unfolding parse_from
parse_from_single largest n h p = ground arith

parse_from-format_digits :
    (largest digits n : ℕ)
    → n ≤ largest
    → n < 10 ^ suc digits
    → parse_from largest 0 (format_digits (suc digits) n) ≡ ok n
parse_from-format_digits largest zero n h p =
    unfold format_digits in
    let small : n < 10 = omega (arith, pow-suc 10 0) in
    ground (arith, parse_from_single largest n h small)
parse_from-format_digits largest (suc k) n h p =
    let fits : n / 10 < 10 ^ suc k = omega (arith, pow-suc 10 (suc k)) in
    let ih = parse_from-format_digits largest k (n / 10) (omega arith) fits in
    elim (Bool-cases (ltb n 10)) [
      | inl e ↦ rw (format_digits_step (suc k) n, e) (parse_from_single largest n h (ltb→lt n 10 e))
      | inr e ↦
          rw (format_digits_step (suc k) n, e)
            (parse_from_digit largest n (format_digits (suc k) (n / 10)) h ih)
    ]

parse_uint-ok :
    (largest n : ℕ) (s : Bytes)
    → s ≢ []
    → parse_from largest 0 s ≡ ok n
    → parse_uint largest s ≡ ok n
unfolding parse_uint
parse_uint-ok largest n [] h e = absurd (h refl)
parse_uint-ok largest n (c ∷ s) h e = e

format_digits-ne-nil : (digits n : ℕ) → format_digits (suc digits) n ≢ []
format_digits-ne-nil d n h =
    last-ne-nil (format_digits d (n / 10)) (rw (format_digits_step d n) at h)
  where
    last-ne-nil :
        (front : Bytes)
        → (if ltb n 10 then (b'0' + n) ∷ [] else front ++ (b'0' + n % 10) ∷ []) ≡ []
        → ⊥
    last-ne-nil [] e = ground arith
    last-ne-nil (c ∷ front) e = ground arith

-- ParseUint reads back what FormatUint prints.
pub parse_uint-format_uint :
    (largest n : ℕ) → n ≤ largest → n < 10 ^ 20 → parse_uint largest (format_uint n) ≡ ok n
unfolding format_uint
parse_uint-format_uint largest n h k =
    parse_uint-ok largest n (format_digits 20 n) (format_digits-ne-nil 19 n)
      (parse_from-format_digits largest 19 n h k)

-- A number that ParseUint returns is within its bound.
pub parse_from-le :
    (largest m : ℕ) (s : Bytes) (n : ℕ) → m ≤ largest → parse_from largest m s ≡ ok n → n ≤ largest
unfolding parse_from
parse_from-le largest m [] n h e = ground arith
parse_from-le largest m (c ∷ s) n h e =
    ground (arith, parse_from-le largest (m * 10 + (c - b'0')) s n)

pub parse_uint-le : (largest : ℕ) (s : Bytes) (n : ℕ) → parse_uint largest s ≡ ok n → n ≤ largest
unfolding parse_uint
parse_uint-le largest [] n e = cc
parse_uint-le largest (c ∷ s) n e = parse_from-le largest 0 (c ∷ s) n (omega arith) e
