-- ===== src/Money/Cents.antt =====
-- Whole cents: where rounding to two places changes nothing.
use kanz_coins_backend.Prelude.{◌%◌, ◌≡◌, arith}
use kanz_coins_backend.Prelude.Int.{pos, negsuc, pos_part, neg_part, ◌+ℤ◌, ◌-ℤ◌, abs, min_ℤ}
use kanz_coins_backend.Money.{Amount, safe_round}

pub record IsCents (a : Amount) : Type 0 where
  pub above : pos_part a % 10000 ≡ 0
  pub below : neg_part a % 10000 ≡ 0

pub zero-IsCents : IsCents (pos 0)
zero-IsCents = ground arith

pub +ℤ-IsCents : (a b : Amount) → IsCents a → IsCents b → IsCents (a +ℤ b)
unfolding ◌+ℤ◌
+ℤ-IsCents a b h k = ground arith

pub -ℤ-IsCents : (a b : Amount) → IsCents a → IsCents b → IsCents (a -ℤ b)
unfolding ◌-ℤ◌
-ℤ-IsCents a b h k = ground arith

pub abs-IsCents : (a : Amount) → IsCents a → IsCents (abs a)
unfolding abs
abs-IsCents (pos n) h = ground arith
abs-IsCents (negsuc n) h = ground arith

pub min_ℤ-IsCents : (a b : Amount) → IsCents a → IsCents b → IsCents (min_ℤ a b)
unfolding min_ℤ
min_ℤ-IsCents a b h k = ground arith

-- Rounding leaves whole cents alone.
pub safe_round-eq : (a : Amount) → IsCents a → safe_round a ≡ a
unfolding safe_round
safe_round-eq (pos n) h = ground arith
safe_round-eq (negsuc n) h = ground arith

-- Rounding gives whole cents.
pub safe_round-IsCents : (a : Amount) → IsCents (safe_round a)
unfolding safe_round
safe_round-IsCents (pos n) = ground arith
safe_round-IsCents (negsuc n) = ground arith
