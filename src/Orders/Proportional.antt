-- ===== src/Orders/Proportional.antt =====
-- The amount of a partial refund in `processOrderRefund` of src/modules/orders/order.service.js: what
-- the rounding of its two quotients and of their product makes of it.
use kanz_coins_backend.Prelude.{ℕ, ◌+◌, ◌*◌, ◌/◌, ◌-◌, ◌≤◌, ◌<◌, ◌≡◌, ◌⊎◌, inl, inr, refl, arith}
use kanz_coins_backend.Prelude.Tests.{ltb, Bool-cases}
use kanz_coins_backend.Prelude.Int.{pos}
use kanz_coins_backend.Prelude.Double.{
  Double, least_significand, significand_bound, to_double, times, floor,
}
use kanz_coins_backend.Prelude.Double.Rounding.{IsClose, reach, to_double-IsClose}
use kanz_coins_backend.Money.{unit}
use kanz_coins_backend.Orders.Refund.{proportional_refund}
use native.Mathlib.Nat.{
  div-mul-le_self, lt-div-mul-add, mul-le-mul, mul-le-mul_left, mul-le-mul_right, mul-pos,
  le_of_mul-le-mul_right, div-eq_of_lt-le,
}

-- Three roundings one after the other, with at most v / u more each.
errors_above :
    (u v r q c e g m h n k d : ℕ)
    → u * (g * q) ≤ v * (r * m)
    → u * (h * e) ≤ v * (c * n)
    → u * (k * (m * n)) ≤ v * (g * h * d)
    → 0 < m * n
    → u * u * u * (k * (q * e)) ≤ v * v * v * (c * r * d)
errors_above u v r q c e g m h n k d first second third positive =
    let inner = mul-le-mul_right (v * d) (mul-le-mul first second) in
    let outer = mul-le-mul_right (u * u * (q * e)) third in
    le_of_mul-le-mul_right {k = m * n} (ground (arith, inner, outer)) positive

errors_below :
    (u w r q c e g m h n k d : ℕ)
    → w * (r * m) ≤ u * (g * q)
    → w * (c * n) ≤ u * (h * e)
    → w * (g * h * d) ≤ u * (k * (m * n))
    → 0 < m * n
    → w * w * w * (c * r * d) ≤ u * u * u * (k * (q * e))
errors_below u w r q c e g m h n k d first second third positive =
    let inner = mul-le-mul_right (w * d) (mul-le-mul first second) in
    let outer = mul-le-mul_right (u * u * (q * e)) third in
    le_of_mul-le-mul_right {k = m * n} (ground (arith, inner, outer)) positive

-- 2 ^ 51, in millionths of a unit: the charge times `remains` up to which the floor is off by less
-- than two units.
abbrev pub share_bound : ℕ
share_bound = 2251799813685248

floor-above :
    (x e k m d : ℕ)
    → significand_bound * significand_bound * significand_bound * (m * x)
      ≤ (significand_bound + 1) * (significand_bound + 1) * (significand_bound + 1) * (e * d)
    → k * d ≤ m
    → 0 < d
    → e < share_bound
    → k * x ≤ e
floor-above x e k m d close low positive small =
    let whole = mul-le-mul_right x low in
    let u3 = significand_bound * significand_bound * significand_bound in
    let v3 = (significand_bound + 1) * (significand_bound + 1) * (significand_bound + 1) in
    let cancelled : u3 * (k * x) ≤ v3 * e =
      le_of_mul-le-mul_right {k = d} (ground (arith, close, whole)) positive in
    ground (arith, cancelled, small)

floor-below :
    (x e k m d : ℕ)
    → (significand_bound - 1) * (significand_bound - 1) * (significand_bound - 1) * (e * d)
      ≤ significand_bound * significand_bound * significand_bound * (m * x)
    → m < (k + 1) * d
    → 0 < d
    → e < share_bound
    → e ≤ (k + 1) * x
floor-below x e k m d close high positive small =
    let whole : m * x ≤ (k + 1) * d * x = mul-le-mul_right x (ground (arith, high)) in
    let u3 = significand_bound * significand_bound * significand_bound in
    let w3 = (significand_bound - 1) * (significand_bound - 1) * (significand_bound - 1) in
    let cancelled : w3 * e ≤ u3 * ((k + 1) * x) =
      le_of_mul-le-mul_right {k = d} (ground (arith, close, whole)) positive in
    ground (arith, cancelled, small)

-- The two quotients of the code, in doubles: `remainsCount / order.quantity` and the charge.
record Quotients (c r q : ℕ) (x y : Double) : Type 0 where
  share : IsClose r q 1 x
  charge : IsClose c unit 1 y

quotients :
    (c r q : ℕ)
    → 0 < c
    → 0 < r
    → r ≤ q
    → q ≤ significand_bound
    → c < share_bound
    → Quotients c r q (to_double r q) (to_double c unit)
quotients c r q cp rp part whole small = record {
  share =
      to_double-IsClose r q rp (ground (arith, rp, part)) (ground (arith, rp, part))
        (ground (arith, rp, whole));
  charge = to_double-IsClose c unit cp (ground arith) (ground (arith, small)) (ground (arith, cp));
}

-- The product of the two is neither too large nor too small for a double.
product_in_reach :
    (c r q : ℕ) (x y : Double)
    → 0 < c
    → 0 < r
    → r ≤ q
    → q ≤ significand_bound
    → c < share_bound
    → Quotients c r q x y
    → let n = x.numerator * y.numerator in
      let d = x.denominator * y.denominator in
      (0 < n) × (n < significand_bound * d) × (least_significand * d ≤ reach * n)
product_in_reach c r q x y cp rp part whole small h =
    let g = x.numerator in
    let m = x.denominator in
    let b = y.numerator in
    let n = y.denominator in
    let m_low : m ≤ r * m = ground (arith, mul-le-mul_right m rp) in
    let g_whole : g * q ≤ g * significand_bound = mul-le-mul_left g whole in
    let m_below : m ≤ 2 * significand_bound * g =
      ground (arith, m_low, g_whole, h.share.at_least) in
    let n_low : n ≤ c * n = ground (arith, mul-le-mul_right n cp) in
    let n_below : n ≤ 2 * unit * b = ground (arith, n_low, h.charge.at_least) in
    let r_part : r * m ≤ q * m = mul-le-mul_right m part in
    let g_times : g * q ≤ 2 * m * q = ground (arith, r_part, h.share.at_most) in
    let g_above : g ≤ 2 * m = le_of_mul-le-mul_right {k = q} g_times (ground (arith, rp, part)) in
    let c_small : c * n ≤ share_bound * n = mul-le-mul_right n (ground (arith, small)) in
    let b_above : b ≤ share_bound * n = ground (arith, c_small, h.charge.at_most) in
    let both = mul-le-mul m_below n_below in
    let most = mul-le-mul g_above b_above in
    let some : 0 < m * n = mul-pos h.share.positive h.charge.positive in
    (ground (arith, both, some), ground (arith, most, some), ground (arith, both))

-- The number of whole units that the code pays, k, is within one of the exact share.
product_bounds :
    (c r q : ℕ) (x y z : Double)
    → c * r < share_bound
    → Quotients c r q x y
    → IsClose (x.numerator * y.numerator) (x.denominator * y.denominator) 1 z
    → (floor z * (q * unit) ≤ c * r) × (c * r ≤ (floor z + 1) * (q * unit))
unfolding floor
product_bounds c r q x y z small h close =
    let g = x.numerator in
    let m = x.denominator in
    let b = y.numerator in
    let n = y.denominator in
    let k = z.numerator in
    let d = z.denominator in
    let some : 0 < m * n = mul-pos h.share.positive h.charge.positive in
    let above =
      errors_above significand_bound (significand_bound + 1) r q c unit g m b n k d
        (ground (arith, h.share.at_most)) (ground (arith, h.charge.at_most))
        (ground (arith, close.at_most)) some in
    let below =
      errors_below significand_bound (significand_bound - 1) r q c unit g m b n k d
        (ground (arith, h.share.at_least)) (ground (arith, h.charge.at_least))
        (ground (arith, close.at_least)) some in
    (
      floor-above (q * unit) (c * r) (k / d) k d above (div-mul-le_self k d) close.positive small,
      floor-below (q * unit) (c * r) (k / d) k d below
          (ground (arith, lt-div-mul-add {a = k} close.positive)) close.positive small,
    )

-- A partial refund of a positive charge, with a positive `remains` that is at most the quantity, a
-- quantity that is at most 2 ^ 53, and a charge in millionths times `remains` below 2 ^ 51: the refund
-- is the whole units of the exact share, or one unit less than these where the exact share is whole
-- units.
pub proportional_bounds :
    (c remains quantity : ℕ)
    → 0 < c
    → 0 < remains
    → remains ≤ quantity
    → quantity ≤ significand_bound
    → c * remains < share_bound
    → let share = c * remains / (quantity * unit) in
      (proportional_refund (pos c) remains quantity ≡ pos (share * unit))
      ⊎ (c * remains ≡ share * (quantity * unit))
        × (1 ≤ share)
        × (proportional_refund (pos c) remains quantity ≡ pos ((share - 1) * unit))
unfolding proportional_refund times
proportional_bounds c r q cp rp part whole small =
    let e = c * r in
    let d = q * unit in
    let c_small : c < share_bound = ground (arith, small, mul-le-mul_left c rp) in
    let h = quotients c r q cp rp part whole c_small in
    let x = to_double r q in
    let y = to_double c unit in
    let z = times x y in
    let (some, low, high) = product_in_reach c r q x y cp rp part whole c_small h in
    let dp : 0 < x.denominator * y.denominator = mul-pos h.share.positive h.charge.positive in
    let close = to_double-IsClose _ _ some dp low high in
    let (above, below) = product_bounds c r q x y z small h close in
    elim (Bool-cases (ltb e ((floor z + 1) * d))) [
      | inl inside ↦
          inl (rw (div-eq_of_lt-le {k = floor z} d {m = e} above (ground (arith, inside))) refl)
      | inr reached ↦
          let whole_share : e ≡ (floor z + 1) * d = ground (arith, reached, below) in
          let count : e / d ≡ floor z + 1 =
            div-eq_of_lt-le {k = floor z + 1} d {m = e} (ground (arith, whole_share))
              (ground (arith, whole_share, rp, part)) in
          inr (rw count whole_share, ground (arith, count), rw count (ground arith))
    ]
