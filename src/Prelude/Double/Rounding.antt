-- ===== src/Prelude/Double/Rounding.antt =====
-- The relative error of rounding to a double: at most one part in 2 ^ 53.
use kanz_coins_backend.Prelude.{
  ℕ, zero, suc, ◌+◌, ◌*◌, ◌/◌, ◌%◌, ◌-◌, ◌≤◌, ◌<◌, ◌≡◌, refl, true, false, arith, inl, inr, ◌⊎◌,
  subst,
}
use kanz_coins_backend.Prelude.Tests.{Bool-cases, ◌==◌, ltb, leb}
use kanz_coins_backend.Prelude.Double.{
  Double, least_significand, significand_bound, nearest_even, raise, to_double,
}
use Prim.Native.Nat.{◌^◌}
use native.Mathlib.Nat.{div-add-mod, mod-lt, pow-suc, mul-le-mul_right}

-- A double is close to n / (d * p): the two differ by at most one part in 2 ^ 53 of n / (d * p).
pub record IsClose (n d p : ℕ) (x : Double) : Type 0 where
  pub positive : 0 < x.denominator
  pub at_most :
      significand_bound * (x.numerator * (d * p)) ≤ (significand_bound + 1) * (n * x.denominator)
  pub at_least :
      (significand_bound - 1) * (n * x.denominator) ≤ significand_bound * (x.numerator * (d * p))

close_to_multiple :
    (q r d e : ℕ)
    → (2 * r ≤ d) × (e ≡ q) ⊎ (d ≤ 2 * r) × (e ≡ q + 1)
    → r ≤ d
    → (2 * (e * d) ≤ 2 * (d * q + r) + d) × (2 * (d * q + r) ≤ 2 * (e * d) + d)
close_to_multiple q r d e (inl (low, same)) small = rw same (ground arith)
close_to_multiple q r d e (inr (high, up)) small = rw up (ground arith)

nearest_even-cases :
    (n d : ℕ)
    → (2 * (n % d) ≤ d) × (nearest_even n d ≡ n / d)
      ⊎ (d ≤ 2 * (n % d)) × (nearest_even n d ≡ n / d + 1)
unfolding nearest_even
nearest_even-cases n d =
    let parity = mod-lt (n / d) {m = 2} (ground arith) in
    elim (Bool-cases (ltb (2 * (n % d)) d)) [
      | inl low ↦ inl (ground (arith, low), rw low refl)
      | inr high ↦ elim (Bool-cases (ltb d (2 * (n % d)))) [
        | inl up ↦ inr (ground (arith, up), rw (high, up) refl)
        | inr middle ↦ elim (Bool-cases (n / d % 2 == 0)) [
          | inl even ↦ inl (ground (arith, high, middle), ground (arith, high, middle, even))
          | inr odd ↦ inr (ground (arith, high, middle), ground (arith, high, middle, odd, parity))
        ]
      ]
    ]

nearest_even-bounds :
    (n d : ℕ)
    → 0 < d
    → (2 * (nearest_even n d * d) ≤ 2 * n + d) × (2 * n ≤ 2 * (nearest_even n d * d) + d)
nearest_even-bounds n d positive =
    let small : n % d ≤ d = ground (arith, mod-lt n positive) in
    let b = close_to_multiple (n / d) (n % d) d (nearest_even n d) (nearest_even-cases n d) small in
    subst (λ m. (2 * (nearest_even n d * d) ≤ 2 * m + d) × (2 * m ≤ 2 * (nearest_even n d * d) + d))
      (div-add-mod n d) b

times_both :
    (e n d p : ℕ)
    → 2 * (e * d) ≤ 2 * n + d
    → 2 * n ≤ 2 * (e * d) + d
    → least_significand * d ≤ n
    → (significand_bound * (e * d) ≤ (significand_bound + 1) * n)
      × ((significand_bound - 1) * n ≤ significand_bound * (e * d))
times_both e n d p above below large = (ground (arith, above, large), ground (arith, below, large))

rounds-IsClose :
    (n d p : ℕ)
    → 0 < d
    → 0 < p
    → least_significand * d ≤ n
    → IsClose n d p (record { numerator = nearest_even n d; denominator = p })
rounds-IsClose n d p dp pp large =
    let (above, below) = nearest_even-bounds n d dp in
    let (most, least) = times_both (nearest_even n d) n d p above below large in
    record {
      positive = pp;
      at_most = ground (arith, mul-le-mul_right p most);
      at_least = ground (arith, mul-le-mul_right p least);
    }

half_step : (n d p : ℕ) (x : Double) → IsClose (2 * n) d (2 * p) x → IsClose n d p x
half_step n d p x h = record {
  positive = h.positive;
  at_most = ground (arith, h.at_most);
  at_least = ground (arith, h.at_least);
}

-- The scaling has enough steps if j doublings are enough.
pub raise-IsClose :
    (steps j n d p : ℕ)
    → j ≤ steps
    → least_significand * d ≤ 2 ^ j * n
    → 0 < d
    → 0 < p
    → IsClose n d p (raise steps n d p)
unfolding raise
raise-IsClose zero zero n d p few enough dp pp = rounds-IsClose n d p dp pp (ground (arith, enough))
raise-IsClose zero (suc j) n d p few enough dp pp = absurd (ground (arith, few))
raise-IsClose (suc steps) zero n d p few enough dp pp =
    let large : leb (least_significand * d) n ≡ true = ground (arith, enough) in
    rw large (rounds-IsClose n d p dp pp (ground (arith, enough)))
raise-IsClose (suc steps) (suc j) n d p few enough dp pp =
    elim (Bool-cases (leb (least_significand * d) n)) [
      | inl large ↦ rw large (rounds-IsClose n d p dp pp (ground (arith, large)))
      | inr small ↦
          let split : least_significand * d ≤ 2 ^ j * 2 * n =
            subst (λ t. least_significand * d ≤ t * n) (pow-suc 2 j) enough in
          let next : least_significand * d ≤ 2 ^ j * (2 * n) = ground (arith, split) in
          rw small (
            half_step n d p (raise steps (2 * n) d (2 * p)) (
              raise-IsClose steps j (2 * n) d (2 * p) (ground (arith, few)) next dp
                (ground (arith, pp))))
    ]

-- 2 ^ 127, which is more than the code's numbers differ by
abbrev pub reach : ℕ
reach = 170141183460469231731687303715884105728

pub to_double-IsClose :
    (n d : ℕ)
    → 0 < n
    → 0 < d
    → n < significand_bound * d
    → least_significand * d ≤ reach * n
    → IsClose n d 1 (to_double n d)
unfolding to_double
to_double-IsClose n d np dp small enough =
    let some : (n == 0) ≡ false = ground (arith, np) in
    let low : ltb n (significand_bound * d) ≡ true = ground (arith, small) in
    rw (some, low)
      (raise-IsClose 1074 127 n d 1 (ground arith) (ground (arith, enough)) dp (ground arith))
