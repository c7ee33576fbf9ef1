-- ===== src/Common/Decimal.antt =====
-- The decimal digits of a number, as `sprintf` and `boost::lexical_cast` print them.
use Prim.Native.Nat.{ℕ, zero, suc, ◌+◌, ◌-◌, ◌*◌, ◌/◌, ◌%◌, ◌^◌, ◌≤◌, ◌<◌}
use mathlib.Core.Path.{◌≡◌, refl}
use mathlib.Core.List.{[], ◌∷◌, ◌++◌}
use native.Mathlib.Omega.{arith}
use boost_learn.Common.Lists.{Bytes, All, All-append, length, length-append}
use boost_learn.Common.Strings.{decimal}
use boost_learn.Common.Tests.{ltb, if◌then◌else◌}

-- The fuel bounds the number of digits.
digits : ℕ → ℕ → Bytes
digits zero n = []
digits (suc fuel) n =
    let rest = digits fuel (n / 10) in
    if ltb n 10 then (b'0' + n) ∷ [] else rest ++ ((b'0' + n % 10) ∷ [])

-- A number has no more digits than one more than itself.
unfoldable pub to_decimal : ℕ → Bytes
unfolding digits
to_decimal n = digits (suc n) n

abbrev pub IsDigit : ℕ → Type 0
IsDigit c = (b'0' ≤ c) × (c ≤ b'9')

decimal-append : (v : ℕ) (a b : Bytes) → decimal v (a ++ b) ≡ decimal (decimal v a) b
decimal-append v [] b = refl
decimal-append v (c ∷ a) b = decimal-append (v * 10 + (c - b'0')) a b

decimal-digits : (fuel n : ℕ) → n < fuel → decimal 0 (digits fuel n) ≡ n
unfolding digits
decimal-digits zero n h = omega arith
decimal-digits (suc fuel) n h = ground (
  arith,
  decimal-append 0 (digits fuel (n / 10)) ((b'0' + n % 10) ∷ []),
  decimal-digits fuel (n / 10),
)

digits-All : (fuel n : ℕ) → All IsDigit (digits fuel n)
unfolding digits
digits-All zero n = tt
digits-All (suc fuel) n = ground (
  arith,
  All-append IsDigit (digits fuel (n / 10)) ((b'0' + n % 10) ∷ []),
  digits-All fuel (n / 10),
)

length-digits : (fuel n k : ℕ) → n < 10 ^ suc k → length (digits fuel n) ≤ suc k
unfolding digits
length-digits zero n k h = omega arith
length-digits (suc fuel) n zero h = ground arith
length-digits (suc fuel) n (suc k) h = ground (
  arith,
  length-append (digits fuel (n / 10)) ((b'0' + n % 10) ∷ []),
  length-digits fuel (n / 10) k,
)

pub decimal-to_decimal : (n : ℕ) → decimal 0 (to_decimal n) ≡ n
unfolding to_decimal
decimal-to_decimal n = decimal-digits (suc n) n (omega arith)

pub to_decimal-All : (n : ℕ) → All IsDigit (to_decimal n)
unfolding to_decimal
to_decimal-All n = digits-All (suc n) n

pub length-to_decimal : (n k : ℕ) → n < 10 ^ suc k → length (to_decimal n) ≤ suc k
unfolding to_decimal
length-to_decimal n k h = length-digits (suc n) n k h
