-- ===== src/Wallet.antt =====
-- src/modules/wallet/wallet.service.js. Every operation runs on the collections of `Db`, with or
-- without a session: a session's rollback is the caller's (`in_session`). The test hooks are left
-- out. The server's `$round` to two places is a parameter.
pub mod Database
pub mod Accounts
pub mod Charges
pub mod Refusals
pub mod Books
pub mod Limits
pub mod RoundTrip
pub mod Races
pub mod Effects
pub mod Credits
mod Tests
use kanz_coins_backend.Prelude.{
  ℕ, String, Bool, true, false, ◌&&◌, ◌||◌, Option, none, some, List, [], ◌∷◌,
}
use kanz_coins_backend.Prelude.Int.{pos, ◌+ℤ◌, ◌-ℤ◌, abs, min_ℤ, max_ℤ, leb_ℤ, ltb_ℤ}
use kanz_coins_backend.Prelude.Tests.{if◌then◌else◌}
use kanz_coins_backend.Prelude.Table.{find, modify}
use kanz_coins_backend.Prelude.Exec.{
  Exec, pure, throw, gets, or_throw, throw_if, modify_state, ◌>>=◌, ◌>>◌,
}
use kanz_coins_backend.Money.{Amount, cent, or_zero, safe_round, recalculate_credit_used}
use kanz_coins_backend.Errors.{
  Error, not_found, insufficient_funds, invalid_amount, account_inactive, validation_error,
  duplicate_key,
}
use kanz_coins_backend.Db.{Db, User, UserStatus, WalletTransaction, TransactionType, SourceType}
use kanz_coins_backend.Prelude.Text.{Text, same_text, trim}

abbrev pub is_active : UserStatus → Bool
is_active UserStatus.active = true
is_active _ = false

-- `sourceKey || null`, which the schema trims.
abbrev pub stored_key : Option Text → Option Text
stored_key none = none
stored_key (some []) = none
stored_key (some (c ∷ s)) = some (trim (c ∷ s))

-- The unique index on `sourceKey`, over the entries whose key is a text.
unfoldable pub key_taken : Text → List WalletTransaction → Bool
key_taken k [] = false
key_taken k (t ∷ ts) = elim t.source_key [ none ↦ false | some j ↦ same_text j k ] || key_taken k ts

abbrev pub index_conflict : Option Text → List WalletTransaction → Bool
index_conflict none ts = false
index_conflict (some k) ts = key_taken k ts

-- `_createTransactionRecord`: the schema wants an amount of at least 0.01.
unfoldable pub create_transaction_record : WalletTransaction → Exec Db Error WalletTransaction
unfolding key_taken
create_transaction_record t db =
    let doc = record t { source_key = stored_key t.source_key } in
    if ltb_ℤ doc.amount (pos cent)
    then throw validation_error db
    else if index_conflict doc.source_key db.wallet_transactions
    then throw duplicate_key db
    else pure doc (record db { wallet_transactions = doc ∷ db.wallet_transactions })

-- `User.findOneAndUpdate({ _id, …guard }, update, { new: false })`: the test and the write are one
-- step of the server; the result is the document before the write.
unfoldable pub find_user_and_update :
    ℕ → (User → Bool) → (User → User) → Exec Db Error (Option User)
find_user_and_update id guard update db = elim (find id db.users) [
  | none ↦ (pure none db)
  | some u ↦
      if guard u
      then pure (some u) (record db { users = modify id update db.users })
      else pure none db
]

pub record DebitResult : Type 0 where
  pub wallet_deducted : Amount
  pub credit_used_amount : Amount
  pub transaction : WalletTransaction

abbrev pub entry : ℕ → TransactionType → Amount → Amount → Amount → Option ℕ → WalletTransaction
entry user_id type amount balance_before balance_after reference = record {
  user_id = user_id;
  type = type;
  amount = amount;
  balance_before = balance_before;
  balance_after = balance_after;
  reference = reference;
  source_type = none;
  source_id = none;
  source_key = none;
}

-- What `debitWalletAtomic` throws when the update matched no document.
unfoldable pub debit_refused : ℕ → Amount → Exec Db Error DebitResult
debit_refused user_id amount = do
  user ← or_throw (← gets (λ (db : Db). find user_id db.users)) (not_found "User")
  throw_if (if is_active user.status then false else true) account_inactive
  throw (insufficient_funds amount (user.wallet_balance +ℤ or_zero user.credit_limit))

-- What it records when the update matched, from the document before the write.
unfoldable pub debit_record : ℕ → Amount → Option ℕ → User → Exec Db Error DebitResult
debit_record user_id amount reference old_user = do
  let old_balance = old_user.wallet_balance
  let old_credit_used = recalculate_credit_used old_balance old_user.credit_limit
  let new_balance = safe_round (old_balance -ℤ amount)
  let new_credit_used = recalculate_credit_used new_balance old_user.credit_limit
  let credit_portion = safe_round (max_ℤ (pos 0) (new_credit_used -ℤ old_credit_used))
  transaction ←
      create_transaction_record
        (entry user_id TransactionType.debit amount old_balance new_balance reference)
  pure (record {
    wallet_deducted = amount;
    credit_used_amount = credit_portion;
    transaction = transaction;
  })

abbrev debit_outcome : ℕ → Amount → Option ℕ → Option User → Exec Db Error DebitResult
debit_outcome user_id amount reference none = debit_refused user_id amount
debit_outcome user_id amount reference (some old_user) =
    debit_record user_id amount reference old_user

module _ (round : Amount → Amount) where
  -- `creditUsedExpressionForBalance`
  unfoldable pub credit_used_expression : Amount → Option Amount → Amount
  unfolding abs min_ℤ
  credit_used_expression balance credit_limit =
      let rounded = round balance in
      round
        (if ltb_ℤ rounded (pos 0) then min_ℤ (abs rounded) (abs (or_zero credit_limit)) else pos 0)

  -- The two `$set` stages that every atomic update shares: the new balance, then the mirror.
  unfoldable pub set_balance : (Amount → Amount) → User → User
  unfolding credit_used_expression
  set_balance expression u =
      let balance = round (expression u.wallet_balance) in
      record u {
        wallet_balance = balance;
        credit_used = credit_used_expression balance u.credit_limit;
      }

  -- `debitWalletAtomic`
  unfoldable pub debit_wallet_atomic : ℕ → Amount → Option ℕ → Exec Db Error DebitResult
  debit_wallet_atomic user_id amount reference = do
    throw_if (leb_ℤ amount (pos 0)) invalid_amount
    old_user ←
        find_user_and_update user_id
          (λ u. is_active u.status && leb_ℤ amount (u.wallet_balance +ℤ or_zero u.credit_limit))
          (set_balance (λ balance. balance -ℤ amount))
    debit_outcome user_id amount reference old_user

  -- `refundWalletAtomic`
  unfoldable pub refund_wallet_atomic :
      ℕ → Amount → Amount → Option ℕ → Exec Db Error WalletTransaction
  refund_wallet_atomic user_id wallet_deducted credit_used_amount reference = do
    let refund_amount = safe_round wallet_deducted
    let legacy_credit_only_refund =
        if ltb_ℤ (pos 0) refund_amount then pos 0 else safe_round credit_used_amount
    let total_refund = safe_round (refund_amount +ℤ legacy_credit_only_refund)
    throw_if (leb_ℤ total_refund (pos 0)) invalid_amount
    old_user ←
        find_user_and_update user_id (λ _. true) (set_balance (λ balance. balance +ℤ total_refund))
    old ← or_throw old_user (not_found "User")
    create_transaction_record (
        entry user_id TransactionType.refund total_refund old.wallet_balance
          (safe_round (old.wallet_balance +ℤ total_refund)) reference)

  -- `creditWalletDirect`
  unfoldable pub credit_wallet_direct :
      ℕ
      → Amount
      → Option ℕ
      → Option SourceType
      → Option ℕ
      → Option Text
      → Exec Db Error WalletTransaction
  credit_wallet_direct user_id amount reference source_type source_id source_key = do
    throw_if (leb_ℤ amount (pos 0)) invalid_amount
    old_user ← find_user_and_update user_id (λ _. true) (set_balance (λ balance. balance +ℤ amount))
    old ← or_throw old_user (not_found "User")
    let doc =
        entry user_id TransactionType.credit amount old.wallet_balance
          (safe_round (old.wallet_balance +ℤ amount)) reference
    create_transaction_record
        (record doc { source_type = source_type; source_id = source_id; source_key = source_key })

-- `forcedDebitWallet` reads and writes in two steps of the server. The read is the first part,
-- the write and the record are the second.
unfoldable pub forced_debit_read : ℕ → Amount → Exec Db Error User
forced_debit_read user_id amount = do
  throw_if (leb_ℤ amount (pos 0)) invalid_amount
  or_throw (← gets (λ (db : Db). find user_id db.users)) (not_found "User")

unfoldable pub forced_debit_write : ℕ → Amount → Option ℕ → User → Exec Db Error WalletTransaction
forced_debit_write user_id amount reference user = do
  let balance_before = user.wallet_balance
  let balance_after = safe_round (balance_before -ℤ amount)
  let credit_used_after = recalculate_credit_used balance_after user.credit_limit
  modify_state (λ db. record db {
    users =
        modify user_id
          (λ (u : User). record u {
            wallet_balance = balance_after;
            credit_used = credit_used_after;
          })
          db.users;
  })
  create_transaction_record
      (entry user_id TransactionType.debit amount balance_before balance_after reference)

unfoldable pub forced_debit_wallet : ℕ → Amount → Option ℕ → Exec Db Error WalletTransaction
forced_debit_wallet user_id amount reference = do
  user ← forced_debit_read user_id amount
  forced_debit_write user_id amount reference user
