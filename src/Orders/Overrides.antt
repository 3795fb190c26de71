-- ===== src/Orders/Overrides.antt =====
-- The forced completion of src/modules/admin/admin.orders.service.js: what `completeOrder` takes.
use kanz_coins_backend.Prelude.{ℕ, ◌≡◌, refl, ap, ◌∙◌, true, false, some, ◌∷◌, arith}
use kanz_coins_backend.Prelude.Int.{pos, ◌-ℤ◌, ◌≤ℤ◌}
use kanz_coins_backend.Prelude.Table.{find, modify, find-modify_self}
use kanz_coins_backend.Prelude.Exec.{ok}
use kanz_coins_backend.Money.Cents.{IsCents}
use kanz_coins_backend.Db.{Db, User, Order, WalletTransaction}
use kanz_coins_backend.Wallet.{forced_debit_wallet}
use kanz_coins_backend.Wallet.Accounts.{IsFair, with_balance}
use kanz_coins_backend.Wallet.Charges.{debit_entry}
use kanz_coins_backend.Wallet.Credits.{forced_debit_takes}
use kanz_coins_backend.Orders.Refund.{charged_or_deducted}
use kanz_coins_backend.Orders.Admin.{complete_order, is_completed, was_refunded, set_completed}

complete_order_runs :
    (id : ℕ) (db : Db) (o : Order) (t : WalletTransaction)
    → find id db.orders ≡ some o
    → is_completed o.status ≡ false
    → was_refunded o ≡ true
    → pos 1 ≤ℤ charged_or_deducted o
    → let (r, db') = forced_debit_wallet o.user_id (charged_or_deducted o) (some id) db in
      r ≡ ok t
      → complete_order id db ≡ (
        ok (set_completed true o),
        record db' { orders = modify id (set_completed true) db'.orders },
      )
unfolding complete_order
complete_order_runs id db o t found going refunded positive paid =
    ground (arith, found, going, refunded, positive, paid)

-- Completing an order that is not COMPLETED and is flagged as refunded, or whose status is FAILED,
-- CANCELED or PARTIAL whatever the flag says, with a positive charge in whole cents and a fair
-- account: the account pays the whole charge again, whatever its balance is, the ledger gets one
-- debit, and the order is saved as completed with the flag cleared.
pub complete_order_recharges :
    (id : ℕ) (db : Db) (o : Order) (u : User)
    → find id db.orders ≡ some o
    → find o.user_id db.users ≡ some u
    → IsFair u
    → is_completed o.status ≡ false
    → was_refunded o ≡ true
    → IsCents (charged_or_deducted o)
    → pos 1 ≤ℤ charged_or_deducted o
    → let (r, db') = complete_order id db in
      let charge = charged_or_deducted o in
      (r ≡ ok (set_completed true o))
      × (find id db'.orders ≡ some (set_completed true o))
      × (find o.user_id db'.users ≡ some (with_balance u (u.wallet_balance -ℤ charge)))
      × (db'.wallet_transactions
          ≡ debit_entry o.user_id u charge (some id) ∷ db.wallet_transactions)
complete_order_recharges id db o u found account fair going refunded cents positive =
    let charge = charged_or_deducted o in
    let (r, m) = forced_debit_takes o.user_id charge (some id) db u account fair cents positive in
    let db' = (forced_debit_wallet o.user_id charge (some id) db).1 in
    rw
      (complete_order_runs id db o (debit_entry o.user_id u charge (some id)) found going refunded
        positive r)
      (
        refl,
        find-modify_self id (set_completed true) db'.orders (ap (find id) m.orders ∙ found),
        m.account,
        m.ledger,
      )
