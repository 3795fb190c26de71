-- ===== src/Prelude/Double.antt =====
-- JavaScript numbers as IEEE 754 doubles: the quotients and products of numbers that are not
-- negative, as the code computes them. A double is the fraction that it stands for. Rounding is to the
-- nearest, and to even in the middle; it shifts at most as far as the exponents of a double go, so
-- that small results lose digits as they do there, and results from 2 ^ 1024 on are not modelled.
pub mod Rounding
use kanz_coins_backend.Prelude.{ℕ, zero, suc, ◌+◌, ◌*◌, ◌/◌, ◌%◌, ◌-◌}
use kanz_coins_backend.Prelude.Tests.{if◌then◌else◌, ◌==◌, ltb, leb}

pub record Double : Type 0 where
  pub numerator : ℕ
  -- a power of two
  pub denominator : ℕ

-- 2 ^ 52 and 2 ^ 53, the bounds of a significand
abbrev pub least_significand : ℕ
least_significand = 4503599627370496

abbrev pub significand_bound : ℕ
significand_bound = 9007199254740992

-- The integer nearest to n / d, the even one of two.
unfoldable pub nearest_even : ℕ → ℕ → ℕ
nearest_even n d =
    let q = n / d in
    let r = n % d in if ltb (2 * r) d then q else if ltb d (2 * r) then q + 1 else q + q % 2

-- Doubles n, with its scale p, until n / d has a whole significand.
unfoldable pub raise : ℕ → ℕ → ℕ → ℕ → Double
raise zero n d p = record { numerator = nearest_even n d; denominator = p }
raise (suc steps) n d p =
    let more = raise steps (2 * n) d (2 * p) in
    if leb (least_significand * d) n
    then record { numerator = nearest_even n d; denominator = p }
    else more

-- Doubles d, with the scale p of the result, until n / d is below the bound of a significand.
unfoldable pub lower : ℕ → ℕ → ℕ → ℕ → Double
lower zero n d p = record { numerator = nearest_even n d * p; denominator = 1 }
lower (suc steps) n d p =
    let more = lower steps n (2 * d) (2 * p) in
    if ltb n (significand_bound * d)
    then record { numerator = nearest_even n d * p; denominator = 1 }
    else more

-- The double nearest to n / d, where d is positive
unfoldable pub to_double : ℕ → ℕ → Double
to_double n d =
    if n == 0
    then record { numerator = 0; denominator = 1 }
    else if ltb n (significand_bound * d)
    then raise 1074 n d 1
    else lower 971 n d 1

-- `x * y`
unfoldable pub times : Double → Double → Double
times x y = to_double (x.numerator * y.numerator) (x.denominator * y.denominator)

-- `Math.floor(x)` and `Math.floor(-x)`, the second as the number that it is below zero
unfoldable pub floor : Double → ℕ
floor x = x.numerator / x.denominator

unfoldable pub ceiling : Double → ℕ
ceiling x = (x.numerator + (x.denominator - 1)) / x.denominator
