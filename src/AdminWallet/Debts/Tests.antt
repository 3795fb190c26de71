-- ===== src/AdminWallet/Debts/Tests.antt =====
-- The bulk adjustments of src/modules/admin/admin.wallet.service.js at three accounts: two that owe
-- 200.00, in pounds and in dollars, and one that owes nothing.
use kanz_coins_backend.Prelude.{◌≡◌, refl, none, some, [], ◌∷◌, arith}
use kanz_coins_backend.Prelude.Int.{pos, negsuc, ◌+ℤ◌, ◌-ℤ◌, ◌≤ℤ◌, abs, floor_div}
use kanz_coins_backend.Prelude.Tests.{if◌then◌else◌}
use kanz_coins_backend.Prelude.Text.{codes}
use kanz_coins_backend.Prelude.Table.{find}
use kanz_coins_backend.Prelude.Query.{HasUniqueIds}
use kanz_coins_backend.Prelude.Exec.{ok}
use kanz_coins_backend.Money.{Amount, safe_round, scale}
use kanz_coins_backend.Money.Cents.{IsCents}
use kanz_coins_backend.Db.{Db, User, UserStatus}
use kanz_coins_backend.AdminWallet.Debts.{
  Course, Report, debt_share, balance_after, is_debtor, adjust_negative_balances,
}
use kanz_coins_backend.AdminWallet.Debts.Accounts.{adjusted_account, adjusts_each_debt}
use kanz_coins_backend.AdminWallet.Debts.Relief.{debts_stay_debts}

abbrev minus_200 : Amount
minus_200 = negsuc 199999999

abbrev nadia : User
nadia = record {
  status = UserStatus.active;
  wallet_balance = minus_200;
  credit_limit = some (pos 500000000);
  credit_used = pos 200000000;
  group_id = none;
  quantity_limit = pos 0;
  quantity_used = pos 0;
  currency = some (codes "EGP");
  deleted_at = none;
  referred_by = none;
  referred_at = none;
  referral_eligible_until = none;
  referral_commission_percent_override = none;
  referral_commission_stopped_at = none;
}

abbrev branch : Db
branch = record {
  users =
      (1, nadia)
      ∷ (2, record nadia { currency = some (codes "USD") })
      ∷ (3, record nadia { wallet_balance = pos 1000000; credit_used = pos 0 })
      ∷ [];
  groups = [];
  orders = [];
  wallet_transactions = [];
}

branch-HasUniqueIds : HasUniqueIds branch.users
unfolding find
branch-HasUniqueIds = (refl, (refl, (refl, tt)))

-- Five percent more than 200.00.
five_percent : balance_after Course.inflation 5000000 minus_200 ≡ negsuc 209999999
unfolding balance_after debt_share safe_round scale floor_div ◌+ℤ◌ ◌-ℤ◌ abs
five_percent = refl

adjusts_each_debt_example :
    let (result, db') =
      adjust_negative_balances Course.inflation (pos 5000000) (some (codes "egp")) branch in
    (report : Report) × (result ≡ ok report)
    × (report.errors ≡ [])
    × (find 1 db'.users
        ≡ some (
            if is_debtor (some (codes "egp")) nadia
            then adjusted_account Course.inflation 5000000 nadia
            else nadia))
unfolding find
adjusts_each_debt_example =
    adjusts_each_debt Course.inflation (pos 5000000) (some (codes "egp")) branch 1 nadia refl
      branch-HasUniqueIds refl

minus_200-IsCents : IsCents minus_200
minus_200-IsCents = record { above = refl; below = refl }

debts_stay_debts_example :
    let share = debt_share 5000000 minus_200 in
    let relieved = balance_after Course.deflation 5000000 minus_200 in
    let inflated = balance_after Course.inflation 5000000 minus_200 in
    (relieved ≡ minus_200 +ℤ share)
    × (minus_200 ≤ℤ relieved)
    × (relieved ≤ℤ pos 0)
    × (inflated ≡ minus_200 -ℤ share)
    × (inflated ≤ℤ minus_200)
    × (minus_200 +ℤ minus_200 ≤ℤ inflated)
debts_stay_debts_example =
    debts_stay_debts (pos 5000000) minus_200 refl minus_200-IsCents (omega arith)
