-- ===== src/AdminWallet/Tests.antt =====
-- Test runs of src/modules/admin/admin.wallet.service.js, and its properties at a concrete account.
use kanz_coins_backend.Prelude.{ℕ, ◌*◌, ◌≡◌, refl, false, some, none, [], ◌∷◌, arith}
use kanz_coins_backend.Prelude.Int.{pos, negsuc, ◌+ℤ◌, ◌-ℤ◌, ◌≤ℤ◌, abs, min_ℤ, floor_div, ltb_ℤ}
use kanz_coins_backend.Prelude.Tests.{if◌then◌else◌}
use kanz_coins_backend.Prelude.Table.{find, modify}
use kanz_coins_backend.Prelude.Exec.{ok, err}
use kanz_coins_backend.Money.{safe_round, recalculate_credit_used, scale, or_zero}
use kanz_coins_backend.Errors.{validation_error, insufficient_balance}
use kanz_coins_backend.Db.{Db, User, UserStatus, TransactionType}
use kanz_coins_backend.Wallet.{entry, create_transaction_record, key_taken}
use kanz_coins_backend.Wallet.Accounts.{IsFair, Moves}
use kanz_coins_backend.Wallet.Books.{IsSound, Agrees}
use kanz_coins_backend.AdminWallet.{
  deduct_funds, set_user_balance, write_adjustment, max_adjustment,
}
use kanz_coins_backend.AdminWallet.Adjustments.{
  deduct_funds_takes, set_user_balance_sets, set_same_balance_throws,
}
use kanz_coins_backend.AdminWallet.Books.{Adjustment, adjust_all, adjust_all-IsSound}

-- An account with 20.00 and a credit line of 50.00.
abbrev dave : User
dave = record {
  status = UserStatus.active;
  wallet_balance = pos 20000000;
  credit_limit = some (pos 50000000);
  credit_used = pos 0;
  group_id = none;
  quantity_limit = pos 0;
  quantity_used = pos 0;
  currency = none;
  deleted_at = none;
  referred_by = none;
  referred_at = none;
  referral_eligible_until = none;
  referral_commission_percent_override = none;
  referral_commission_stopped_at = none;
}

abbrev till : Db
till = record {
  users = (7, dave) ∷ [];
  groups = [];
  orders = [];
  wallet_transactions =
      entry 7 TransactionType.credit (pos 20000000) (pos 0) (pos 20000000) none ∷ [];
}

deducts_into_credit :
    find 7 (deduct_funds 7 (pos 60004000) till).1.users
    ≡ some (record dave { wallet_balance = negsuc 39999999; credit_used = pos 40000000 })
unfolding deduct_funds write_adjustment create_transaction_record key_taken find modify safe_round
    recalculate_credit_used scale floor_div ◌+ℤ◌ ◌-ℤ◌ abs min_ℤ
deducts_into_credit = refl

deducts_too_much : deduct_funds 7 (pos 70010000) till ≡ (err insufficient_balance, till)
unfolding deduct_funds find safe_round scale floor_div ◌+ℤ◌ abs
deducts_too_much = refl

found_dave : find 7 till.users ≡ some dave
unfolding find
found_dave = refl

dave-IsFair : IsFair dave
unfolding recalculate_credit_used safe_round scale floor_div ◌+ℤ◌ abs
dave-IsFair = record {
  cents = record { above = refl; below = refl };
  limit_cents = record { above = refl; below = refl };
  limit_nonneg = omega arith;
  mirror = refl;
}

only_dave : (id : ℕ) (u : User) → find id till.users ≡ some u → (id ≡ 7) × (dave ≡ u)
unfolding find
only_dave id u found = ground arith

dave-Agrees : Agrees 7 dave till.wallet_transactions
unfolding ◌+ℤ◌
dave-Agrees = record { fair = dave-IsFair; reconciled = refl }

till-IsSound : IsSound till
till-IsSound = record {
  agrees = λ id u found. let (seven, here) = only_dave id u found in rw (seven, ← here) dave-Agrees;
}

adjust_all-IsSound_example : IsSound (
    adjust_all
      (Adjustment.deduct 7 (pos 60004000)
        ∷ Adjustment.set 7 (pos 0)
        ∷ Adjustment.set 7 (pos 0)
        ∷ Adjustment.add 8 (pos 1)
        ∷ [])
      till)
adjust_all-IsSound_example =
    adjust_all-IsSound
      (Adjustment.deduct 7 (pos 60004000)
        ∷ Adjustment.set 7 (pos 0)
        ∷ Adjustment.set 7 (pos 0)
        ∷ Adjustment.add 8 (pos 1)
        ∷ [])
      till till-IsSound

rounds_up : safe_round (pos 1006000) ≡ pos 1010000
unfolding safe_round scale floor_div ◌+ℤ◌
rounds_up = refl

covered : safe_round (pos 1006000) ≤ℤ dave.wallet_balance +ℤ or_zero dave.credit_limit
unfolding ◌+ℤ◌
covered = rw rounds_up (omega arith)

deduct_funds_takes_example :
    let rest = dave.wallet_balance -ℤ safe_round (pos 1006000) in
    let t =
      entry 7 TransactionType.debit (safe_round (pos 1006000)) dave.wallet_balance rest none in
    let (r, db') = deduct_funds 7 (pos 1006000) till in (r ≡ ok t) × Moves 7 dave rest t till db'
deduct_funds_takes_example =
    deduct_funds_takes 7 (pos 1006000) till dave found_dave dave-IsFair (rw rounds_up refl) covered

in_limit : ltb_ℤ (pos (max_adjustment * 10)) (abs (safe_round (pos 1006000))) ≡ false
unfolding abs
in_limit = rw rounds_up refl

set_user_balance_sets_example :
    let delta = safe_round (pos 1006000) -ℤ dave.wallet_balance in
    let type =
      if ltb_ℤ dave.wallet_balance (safe_round (pos 1006000))
      then TransactionType.credit
      else TransactionType.debit in
    let t = entry 7 type (abs delta) dave.wallet_balance (safe_round (pos 1006000)) none in
    let (r, db') = set_user_balance 7 (pos 1006000) till in
    (r ≡ ok t) × Moves 7 dave (safe_round (pos 1006000)) t till db'
set_user_balance_sets_example =
    set_user_balance_sets 7 (pos 1006000) till dave found_dave dave-IsFair in_limit
      (λ e. ground (arith, e, rounds_up))

rounds_to_balance : safe_round (pos 20004000) ≡ dave.wallet_balance
unfolding safe_round scale floor_div ◌+ℤ◌
rounds_to_balance = refl

in_limit_same : ltb_ℤ (pos (max_adjustment * 10)) (abs (safe_round (pos 20004000))) ≡ false
unfolding abs
in_limit_same = rw rounds_to_balance refl

set_same_balance_throws_example : (set_user_balance 7 (pos 20004000) till).0 ≡ err validation_error
set_same_balance_throws_example =
    set_same_balance_throws 7 (pos 20004000) till dave found_dave dave-IsFair in_limit_same
      rounds_to_balance
