-- ===== src/AdminWallet.antt =====
-- src/modules/admin/admin.wallet.service.js: the administrator's manual adjustments addFunds,
-- deductFunds and setBalance. Each reads the account and writes computed values in later steps,
-- without a session. Amounts are finite numbers. Debts has the bulk adjustments.
pub mod Adjustments
pub mod Books
pub mod Debts
mod Tests
use kanz_coins_backend.Prelude.{ℕ, ◌*◌, Bool, true, false, ◌||◌, Option, none, some}
use kanz_coins_backend.Prelude.Int.{pos, ◌+ℤ◌, ◌-ℤ◌, abs, leb_ℤ, ltb_ℤ}
use kanz_coins_backend.Prelude.Tests.{if◌then◌else◌}
use kanz_coins_backend.Prelude.Table.{find, modify}
use kanz_coins_backend.Prelude.Exec.{Exec, gets, or_throw, throw_if, modify_state, ◌>>=◌, ◌>>◌}
use kanz_coins_backend.Money.{Amount, unit, or_zero, safe_round, recalculate_credit_used}
use kanz_coins_backend.Errors.{Error, not_found, invalid_adjustment_amount, insufficient_balance}
use kanz_coins_backend.Db.{Db, User, WalletTransaction, TransactionType}
use kanz_coins_backend.Wallet.{create_transaction_record, entry}

-- `MAX_ADJUSTMENT`
abbrev pub max_adjustment : ℕ
max_adjustment = 100000 * unit

abbrev pub is_out_of_range : Amount → Bool
is_out_of_range parsed_amount =
    leb_ℤ parsed_amount (pos 0) || ltb_ℤ (pos max_adjustment) parsed_amount

abbrev pub load_user : ℕ → Exec Db Error User
load_user user_id = do or_throw (← gets (λ (db : Db). find user_id db.users)) (not_found "User")

-- The two writes of an adjustment: `User.findByIdAndUpdate` with the computed balance and mirror,
-- then `WalletTransaction.create`.
unfoldable pub write_adjustment :
    ℕ → TransactionType → Amount → Amount → Amount → Amount → Exec Db Error WalletTransaction
write_adjustment user_id type amount balance_before balance_after credit_used_after = do
  modify_state (λ db. record db {
    users =
        modify user_id
          (λ (u : User). record u {
            wallet_balance = balance_after;
            credit_used = credit_used_after;
          })
          db.users;
  })
  create_transaction_record (entry user_id type amount balance_before balance_after none)

-- `addFunds`
unfoldable pub add_funds : ℕ → Amount → Exec Db Error WalletTransaction
add_funds user_id amount = do
  let parsed_amount = safe_round amount
  throw_if (is_out_of_range parsed_amount) invalid_adjustment_amount
  user ← load_user user_id
  let balance_before = safe_round user.wallet_balance
  let balance_after = safe_round (balance_before +ℤ parsed_amount)
  write_adjustment user_id TransactionType.credit parsed_amount balance_before balance_after
      (recalculate_credit_used balance_after user.credit_limit)

-- `deductFunds`
unfoldable pub deduct_funds : ℕ → Amount → Exec Db Error WalletTransaction
unfolding abs
deduct_funds user_id amount = do
  let parsed_amount = safe_round amount
  throw_if (is_out_of_range parsed_amount) invalid_adjustment_amount
  user ← load_user user_id
  let balance_before = safe_round user.wallet_balance
  let credit_limit = safe_round (abs (or_zero user.credit_limit))
  throw_if (ltb_ℤ (safe_round (balance_before +ℤ credit_limit)) parsed_amount) insufficient_balance
  let balance_after = safe_round (balance_before -ℤ parsed_amount)
  write_adjustment user_id TransactionType.debit parsed_amount balance_before balance_after
      (recalculate_credit_used balance_after (some credit_limit))

abbrev pub direction : Amount → TransactionType
direction delta = if leb_ℤ (pos 0) delta then TransactionType.credit else TransactionType.debit

-- `setBalance`
unfoldable pub set_user_balance : ℕ → Amount → Exec Db Error WalletTransaction
unfolding abs
set_user_balance user_id target_balance = do
  let new_balance = safe_round target_balance
  throw_if (ltb_ℤ (pos (max_adjustment * 10)) (abs new_balance)) invalid_adjustment_amount
  user ← load_user user_id
  let balance_before = safe_round user.wallet_balance
  let delta = safe_round (new_balance -ℤ balance_before)
  write_adjustment user_id (direction delta) (safe_round (abs delta)) balance_before new_balance
      (recalculate_credit_used new_balance user.credit_limit)
