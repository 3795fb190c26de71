-- ===== src/AdminWallet/Debts/Relief.antt =====
-- The size of a debt after a bulk adjustment of src/modules/admin/admin.wallet.service.js.
use kanz_coins_backend.Prelude.{
  ℕ, suc, ◌+◌, ◌*◌, ◌/◌, ◌≤◌, ◌≡◌, refl, sym, subst, false, arith, ◌%◌,
}
use native.Mathlib.Nat.{mul-le-mul_left}
use kanz_coins_backend.Prelude.Int.{pos, negsuc, pos_part, ◌+ℤ◌, ◌-ℤ◌, ◌≤ℤ◌, abs}
use kanz_coins_backend.Money.{Amount, cent, unit}
use kanz_coins_backend.Money.Cents.{IsCents, safe_round-eq, +ℤ-IsCents, -ℤ-IsCents}
use kanz_coins_backend.AdminWallet.Debts.{Course, debt_share, balance_after, is_no_percentage}

-- A share of a number of cents is at most that number, if it is at most all of it.
share_le :
    (n p : ℕ)
    → p ≤ 100 * unit
    → (2 * (n * cent * p) + 100 * unit * cent) / (2 * (100 * unit * cent)) ≤ n
share_le n p h =
    let whole : n * p ≤ n * (100 * unit) = mul-le-mul_left n h in
    let e : n * cent * p ≡ n * p * cent = ground arith in rw e (omega arith)

-- Of `a` millionths that are whole cents.
share_of_cents :
    (a p : ℕ)
    → a % 10000 ≡ 0
    → p ≤ 100 * unit
    → (2 * (a * p) + 100 * unit * cent) / (2 * (100 * unit * cent)) * cent ≤ a
share_of_cents a p whole h =
    let e : a ≡ a / cent * cent = omega arith in
    let bound = share_le (a / cent) p h in
    let bound' : (2 * (a * p) + 100 * unit * cent) / (2 * (100 * unit * cent)) ≤ a / cent =
      subst (λ x. (2 * (x * p) + 100 * unit * cent) / (2 * (100 * unit * cent)) ≤ a / cent) (sym e)
        bound in
    omega arith

debt_share-le : (p : ℕ) (b : Amount) → IsCents b → p ≤ 100 * unit → debt_share p b ≤ℤ abs b
unfolding debt_share abs
debt_share-le p (pos n) whole h =
    let bound = share_of_cents n p (ground (arith, whole.above)) h in omega arith
debt_share-le p (negsuc n) whole h =
    let bound = share_of_cents (suc n) p (ground (arith, whole.below)) h in omega arith

debt_share-nonneg : (p : ℕ) (b : Amount) → pos 0 ≤ℤ debt_share p b
unfolding debt_share
debt_share-nonneg p b = omega arith

debt_share-IsCents : (p : ℕ) (b : Amount) → IsCents (debt_share p b)
unfolding debt_share
debt_share-IsCents p b = record { above = omega arith; below = refl }

add_up : (b w : Amount) → pos 0 ≤ℤ w → b ≤ℤ b +ℤ w
unfolding ◌+ℤ◌
add_up b w h = ground arith

add_below : (b w : Amount) → b ≤ℤ pos 0 → w ≤ℤ abs b → b +ℤ w ≤ℤ pos 0
unfolding ◌+ℤ◌ abs
add_below b w h k = ground arith

take_down : (b w : Amount) → pos 0 ≤ℤ w → b -ℤ w ≤ℤ b
unfolding ◌-ℤ◌
take_down b w h = ground arith

take_twice : (b w : Amount) → b ≤ℤ pos 0 → w ≤ℤ abs b → b +ℤ b ≤ℤ b -ℤ w
unfolding ◌+ℤ◌ ◌-ℤ◌ abs
take_twice b w h k = ground arith

-- Of a debt in whole cents a relief by a percentage in range takes exactly its share and leaves an
-- account that owes no more than before and is not above zero; an inflation by it adds exactly its
-- share, which at most doubles the debt.
pub debts_stay_debts :
    (percent b : Amount)
    → is_no_percentage percent ≡ false
    → IsCents b
    → b ≤ℤ pos 0
    → let share = debt_share (pos_part percent) b in
      let relieved = balance_after Course.deflation (pos_part percent) b in
      let inflated = balance_after Course.inflation (pos_part percent) b in
      (relieved ≡ b +ℤ share)
      × (b ≤ℤ relieved)
      × (relieved ≤ℤ pos 0)
      × (inflated ≡ b -ℤ share)
      × (inflated ≤ℤ b)
      × (b +ℤ b ≤ℤ inflated)
unfolding balance_after
debts_stay_debts percent b fits whole owes =
    let p = pos_part percent in
    let in_range : p ≤ 100 * unit = ground (arith, fits) in
    let share = debt_share p b in
    let whole' = debt_share-IsCents p b in
    let most = debt_share-le p b whole in_range in
    let least = debt_share-nonneg p b in
    let relieved : balance_after Course.deflation p b ≡ b +ℤ share =
      safe_round-eq (b +ℤ share) (+ℤ-IsCents b share whole whole') in
    let inflated : balance_after Course.inflation p b ≡ b -ℤ share =
      safe_round-eq (b -ℤ share) (-ℤ-IsCents b share whole whole') in
    rw (relieved, inflated)
      (
        refl,
        add_up b share least,
        add_below b share owes most,
        refl,
        take_down b share least,
        take_twice b share owes most,
      )
