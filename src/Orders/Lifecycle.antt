-- ===== src/Orders/Lifecycle.antt =====
-- An order's charge and its refund together: `debitWalletAtomic` of
-- src/modules/wallet/wallet.service.js, then `markOrderAsFailed` of
-- src/modules/orders/order.service.js.
use kanz_coins_backend.Prelude.{ℕ, ◌≡◌, ap, ◌∙◌, some, ◌∷◌, arith, Bool, false}
use kanz_coins_backend.Prelude.Int.{
  pos, negsuc, ◌+ℤ◌, ◌-ℤ◌, ◌≤ℤ◌, sub_add_cancel, add_sub_self, abs,
}
use kanz_coins_backend.Prelude.Table.{Table, find}
use kanz_coins_backend.Money.{Amount, or_zero}
use kanz_coins_backend.Money.Cents.{IsCents, -ℤ-IsCents}
use kanz_coins_backend.Db.{Db, User, UserStatus, Order}
use kanz_coins_backend.Wallet.{debit_wallet_atomic}
use kanz_coins_backend.Wallet.Database.{KeepsCents}
use kanz_coins_backend.Wallet.Accounts.{IsFair, with_balance, with_balance-IsFair}
use kanz_coins_backend.Wallet.Charges.{
  debit_charges, debit_entry, refund_entry, credit_drawn, credit_drawn-IsCents,
}
use kanz_coins_backend.Wallet.RoundTrip.{with_balance_twice}
use kanz_coins_backend.Orders.Refund.{
  mark_order_as_failed, refundable_amount, is_failed, is_some, is_legacy_split,
}
use kanz_coins_backend.Orders.Payments.{mark_order_as_failed_pays}

-- An order as it is created from a debit of the account `u`.
pub record IsCharged (u : User) (amount : Amount) (o : Order) : Type 0 where
  pub wallet_deducted : o.wallet_deducted ≡ amount
  pub credit_used_amount : o.credit_used_amount ≡ credit_drawn u amount
  pub charged_amount : o.charged_amount ≡ some amount
  pub going : is_failed o.status ≡ false
  pub undated : is_some o.refunded_at ≡ false

split_not_legacy : (w c : Amount) → IsCents c → is_legacy_split w c w ≡ false
unfolding abs
split_not_legacy w (pos n) h = rw (add_sub_self w (pos n)) (ground (arith, h.above))
split_not_legacy w (negsuc n) h = ground arith

pub refundable_amount-eq :
    (u : User) (amount : Amount) (o : Order)
    → IsCharged u amount o
    → pos 1 ≤ℤ amount
    → refundable_amount o ≡ amount
unfolding refundable_amount
refundable_amount-eq u amount o h positive =
    let legacy = split_not_legacy amount (credit_drawn u amount) (credit_drawn-IsCents u amount) in
    ground (arith, h.wallet_deducted, h.credit_used_amount, h.charged_amount, legacy, positive)

find_first : (id : ℕ) (o : Order) (t : Table Order) → find id ((id, o) ∷ t) ≡ some o
unfolding find
find_first id o t = ground arith

module _ (round : Amount → Amount) (keeps : KeepsCents round) where
  -- A debit of a positive amount in whole cents that an active, fair account covers, an order that is
  -- created from it, and that order marked as failed, with or without a session: the account is back
  -- as it was, credit mirror included, and the ledger has the debit and a refund of the same amount.
  pub fail_undoes_charge :
      (tx : Bool) (now id : ℕ) (amount : Amount) (db : Db) (u : User) (o : Order)
      → find o.user_id db.users ≡ some u
      → IsFair u
      → u.status ≡ UserStatus.active
      → IsCents amount
      → pos 1 ≤ℤ amount
      → amount ≤ℤ u.wallet_balance +ℤ or_zero u.credit_limit
      → IsCharged u amount o
      → let paid = (debit_wallet_atomic round o.user_id amount (some id) db).1 in
        let created = record paid { orders = (id, o) ∷ paid.orders } in
        let back = (mark_order_as_failed round tx now id created).1 in
        (find o.user_id back.users ≡ some u)
        × (back.wallet_transactions
            ≡ refund_entry o.user_id (with_balance u (u.wallet_balance -ℤ amount)) amount (some id)
              ∷ debit_entry o.user_id u amount (some id)
              ∷ db.wallet_transactions)
  fail_undoes_charge tx now id amount db u o found fair active cents positive covered charged =
      let due = refundable_amount-eq u amount o charged positive in
      let (_, m) =
        debit_charges round keeps o.user_id amount (some id) db u found fair active cents positive
          covered in
      let paid = (debit_wallet_atomic round o.user_id amount (some id) db).1 in
      let created = record paid { orders = (id, o) ∷ paid.orders } in
      let v = with_balance u (u.wallet_balance -ℤ amount) in
      let fair' =
        with_balance-IsFair u (u.wallet_balance -ℤ amount) fair
          (-ℤ-IsCents u.wallet_balance amount fair.cents cents) in
      let (_, n) =
        mark_order_as_failed_pays round keeps tx now id created o v (find_first id o paid.orders)
          m.account fair' charged.going charged.undated (rw due cents)
          (rw charged.credit_used_amount (credit_drawn-IsCents u amount)) (rw due positive) in
      let back : with_balance v (v.wallet_balance +ℤ refundable_amount o) ≡ u =
        rw (due, sub_add_cancel u.wallet_balance amount)
          (with_balance_twice u (u.wallet_balance -ℤ amount) fair) in
      (n.account ∙ ap some back, rw (n.ledger, m.ledger, due))
