-- ===== src/Money.antt =====
-- Amounts. A JavaScript number that holds money is an exact decimal with six places: an amount is
-- the integer that counts millionths of a currency unit, so a cent is 10000. The rounding helpers
-- are those of src/modules/wallet/wallet.service.js and the `toFixed` calls of the services.
pub mod Cents
use kanz_coins_backend.Prelude.{ℕ, suc, ◌+◌, ◌*◌, ◌/◌, Option, none, some, Bool, ◌||◌}
use kanz_coins_backend.Prelude.Int.{
  ℤ, pos, negsuc, pos_part, neg_part, sub_ℕ, ◌+ℤ◌, abs, floor_div, min_ℤ, leb_ℤ,
}
use kanz_coins_backend.Prelude.Tests.{if◌then◌else◌}

abbrev pub Amount : Type 0
Amount = ℤ

-- One cent, and one whole unit of currency.
abbrev pub cent : ℕ
cent = 10000

abbrev pub unit : ℕ
unit = 1000000

-- The multiple of a step: `x * factor`.
unfoldable pub scale : ℤ → ℕ → ℤ
scale a k = sub_ℕ (pos_part a * k) (neg_part a * k)

-- `safeRound(value)`: `Math.round(value * 100) / 100`, where `Math.round` takes a half upwards.
unfoldable pub safe_round : Amount → Amount
unfolding scale floor_div ◌+ℤ◌
safe_round value = scale (floor_div (value +ℤ pos 5000) 10000) 10000

-- `Number(x) || 0` and `Number(x || 0)` at a field that may be missing or null
abbrev pub or_zero : Option Amount → Amount
or_zero none = pos 0
or_zero (some a) = a

-- `recalculateCreditUsed(walletBalance, creditLimit)`
unfoldable pub recalculate_credit_used : Amount → Option Amount → Amount
unfolding safe_round abs min_ℤ
recalculate_credit_used wallet_balance credit_limit =
    let balance = safe_round wallet_balance in
    let limit = safe_round (abs (or_zero credit_limit)) in
    if leb_ℤ (pos 0) balance || leb_ℤ limit (pos 0)
    then pos 0
    else safe_round (min_ℤ (abs balance) limit)
