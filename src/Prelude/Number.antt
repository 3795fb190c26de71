-- ===== src/Prelude/Number.antt =====
-- JavaScript numbers as exact decimals, with the infinities and NaN, and `parseFloat`.
use Prim.Native.Nat.{ℕ, zero, suc, ◌+◌, ◌*◌, ◌-◌}
use mathlib.Core.Bool.{Bool, true, false, ◌&&◌, ◌||◌, not}
use mathlib.Core.List.{[], ◌∷◌}
use kanz_coins_backend.Prelude.Int.{ℤ, pos, ◌-ℤ◌, ltb_ℤ, pos_part, neg_part, sub_ℕ}
use kanz_coins_backend.Prelude.Tests.{leb, ltb, ◌==◌, if◌then◌else◌}
use kanz_coins_backend.Prelude.Text.{Text, codes, trim_start}

pub data Number : Type 0 where
  -- `decimal m k` is m / 10 ^ k.
  decimal : ℤ → ℕ → Number
  infinity minus_infinity nan : Number

abbrev pub is_nan : Number → Bool
is_nan Number.nan = true
is_nan _ = false

abbrev power_of_ten : ℕ → ℕ
power_of_ten zero = 1
power_of_ten (suc k) = 10 * power_of_ten k

abbrev times : ℤ → ℕ → ℤ
times a k = sub_ℕ (pos_part a * k) (neg_part a * k)

-- `<`, which no NaN satisfies
abbrev pub less_than : Number → Number → Bool
less_than (Number.decimal m j) (Number.decimal n k) =
    ltb_ℤ (times m (power_of_ten k)) (times n (power_of_ten j))
less_than (Number.decimal m j) Number.infinity = true
less_than Number.minus_infinity (Number.decimal n k) = true
less_than Number.minus_infinity Number.infinity = true
less_than _ _ = false

abbrev is_digit : ℕ → Bool
is_digit c = leb b'0' c && leb c b'9'

-- The digits at the start of a text, how many there are, and what follows them.
pub record Digits : Type 0 where
  pub value : ℕ
  pub count : ℕ
  pub rest : Text

abbrev pub take_digits : ℕ → ℕ → Text → Digits
take_digits value count [] = record { value = value; count = count; rest = [] }
take_digits value count (c ∷ s) =
    let more = take_digits (value * 10 + (c - b'0')) (count + 1) s in
    if is_digit c then more else record { value = value; count = count; rest = c ∷ s }

abbrev starts_with : Text → Text → Bool
starts_with [] s = true
starts_with (c ∷ p) [] = false
starts_with (c ∷ p) (d ∷ s) = c == d && starts_with p s

-- A sign that may stand at the start of a text.
pub record Sign : Type 0 where
  pub is_minus : Bool
  pub rest : Text

abbrev split_sign : Text → Sign
split_sign [] = record { is_minus = false; rest = [] }
split_sign (c ∷ s) =
    if c == b'-'
    then record { is_minus = true; rest = s }
    else if c == b'+'
    then record { is_minus = false; rest = s }
    else record { is_minus = false; rest = c ∷ s }

-- The value with an exponent, if a whole one follows.
abbrev with_exponent : ℕ → ℕ → Text → Number
with_exponent m k [] = Number.decimal (pos m) k
with_exponent m k (e ∷ s) =
    let sign = split_sign s in
    let d = take_digits 0 0 sign.rest in
    if not ((e == b'e' || e == b'E') && ltb 0 d.count)
    then Number.decimal (pos m) k
    else if sign.is_minus
    then Number.decimal (pos m) (k + d.value)
    else Number.decimal (pos (m * power_of_ten d.value)) k

-- The fraction that may follow the whole part `m` of `count` digits.
abbrev with_fraction : ℕ → ℕ → Text → Number
with_fraction m count [] = if count == 0 then Number.nan else Number.decimal (pos m) 0
with_fraction m count (c ∷ s) =
    let d = take_digits m 0 s in
    if c == b'.'
    then (if count == 0 && d.count == 0 then Number.nan else with_exponent d.value d.count d.rest)
    else (if count == 0 then Number.nan else with_exponent m 0 (c ∷ s))

abbrev unsigned : Text → Number
unsigned s =
    let d = take_digits 0 0 s in
    if starts_with (codes "Infinity") s
    then Number.infinity
    else with_fraction d.value d.count d.rest

abbrev negate : Number → Number
negate (Number.decimal m k) = Number.decimal (pos 0 -ℤ m) k
negate Number.infinity = Number.minus_infinity
negate Number.minus_infinity = Number.infinity
negate Number.nan = Number.nan

-- `parseFloat(text)`
abbrev pub parse_float : Text → Number
parse_float s =
    let sign = split_sign (trim_start s) in
    if sign.is_minus then negate (unsigned sign.rest) else unsigned sign.rest
