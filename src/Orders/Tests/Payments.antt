-- ===== src/Orders/Tests/Payments.antt =====
-- The properties of the money the order services move, at the order of the parent module.
use kanz_coins_backend.Prelude.{◌≡◌, refl, true, false, some, [], ◌∷◌, arith}
use kanz_coins_backend.Prelude.Int.{pos, ◌+ℤ◌, ◌-ℤ◌, ◌≤ℤ◌, max_ℤ, abs, floor_div}
use kanz_coins_backend.Prelude.Table.{find}
use kanz_coins_backend.Prelude.Exec.{ok}
use kanz_coins_backend.Prelude.Double.{to_double, raise, nearest_even, times, floor}
use kanz_coins_backend.Money.{scale, safe_round, recalculate_credit_used, or_zero}
use kanz_coins_backend.Money.Cents.{IsCents}
use kanz_coins_backend.Db.{Db, Order, OrderStatus}
use kanz_coins_backend.Wallet.{debit_wallet_atomic}
use kanz_coins_backend.Wallet.Accounts.{with_balance}
use kanz_coins_backend.Wallet.Charges.{debit_entry, refund_entry, credit_drawn}
use kanz_coins_backend.Orders.Refund.{
  mark_order_as_failed, process_order_refund, set_failed, set_refunded, refundable_amount,
  proportional_refund,
}
use kanz_coins_backend.Orders.Admin.{complete_order, set_completed}
use kanz_coins_backend.Orders.Payments.{
  PaysBack, mark_order_as_failed_pays, process_order_refund_pays, refund_due, money_plan,
}
use kanz_coins_backend.Orders.Lifecycle.{IsCharged, fail_undoes_charge}
use kanz_coins_backend.Orders.Overrides.{complete_order_recharges}
use kanz_coins_backend.Orders.Tests.{
  carol, coins, shop, server_round, found_coins, found_carol, carol-IsFair,
}

coins_due : refundable_amount coins ≡ pos 60000000
unfolding refundable_amount
coins_due = refl

coins-IsCents : IsCents (pos 60000000)
coins-IsCents = record { above = refl; below = refl }

zero-IsCents : IsCents (pos 0)
zero-IsCents = record { above = refl; below = refl }

mark_order_as_failed_pays_example :
    let (r, db') = mark_order_as_failed safe_round false 5 1 shop in
    (r ≡ ok (set_failed 5 coins))
    × PaysBack 1 coins (set_failed 5 coins) carol (refundable_amount coins) shop db'
mark_order_as_failed_pays_example =
    mark_order_as_failed_pays safe_round server_round false 5 1 shop coins carol found_coins
      found_carol carol-IsFair refl refl (rw coins_due coins-IsCents) zero-IsCents
      (rw coins_due (omega arith))

share_due : refund_due coins (pos 30) ≡ pos 18000000
unfolding proportional_refund to_double raise nearest_even times floor
share_due = refl

share-IsCents : IsCents (pos 18000000)
share-IsCents = record { above = refl; below = refl }

process_order_refund_pays_example :
    let o' = set_refunded 5 (money_plan coins (pos 30)) coins in
    let (r, db') = process_order_refund safe_round true 5 1 (pos 30) shop in
    (r ≡ ok o') × PaysBack 1 coins o' carol (refund_due coins (pos 30)) shop db'
process_order_refund_pays_example =
    process_order_refund_pays safe_round server_round true 5 1 (pos 30) shop coins carol found_coins
      found_carol carol-IsFair refl (omega arith) (rw share_due share-IsCents)
      (rw share_due (omega arith))

-- An order that was marked as failed before it was ever refunded.
abbrev unpaid : Order
unpaid = record coins { status = OrderStatus.failed }

abbrev unpaid_shop : Db
unpaid_shop = record shop { orders = (1, unpaid) ∷ [] }

found_unpaid : find 1 unpaid_shop.orders ≡ some unpaid
unfolding find
found_unpaid = refl

complete_order_recharges_example :
    let (r, db') = complete_order 1 unpaid_shop in
    (r ≡ ok (set_completed true unpaid))
    × (find 1 db'.orders ≡ some (set_completed true unpaid))
    × (find 7 db'.users ≡ some (with_balance carol (carol.wallet_balance -ℤ pos 60000000)))
    × (db'.wallet_transactions ≡ debit_entry 7 carol (pos 60000000) (some 1) ∷ [])
complete_order_recharges_example =
    complete_order_recharges 1 unpaid_shop unpaid carol found_unpaid found_carol carol-IsFair refl
      refl coins-IsCents (omega arith)

abbrev new_order : Order
new_order = record coins {
  wallet_deducted = pos 30000000;
  charged_amount = some (pos 30000000);
  status = OrderStatus.pending;
}

no_credit : pos 0 ≡ credit_drawn carol (pos 30000000)
unfolding recalculate_credit_used safe_round scale floor_div ◌+ℤ◌ ◌-ℤ◌ abs max_ℤ
no_credit = refl

new_order-IsCharged : IsCharged carol (pos 30000000) new_order
new_order-IsCharged = record {
  wallet_deducted = refl;
  credit_used_amount = no_credit;
  charged_amount = refl;
  going = refl;
  undated = refl;
}

thirty-IsCents : IsCents (pos 30000000)
thirty-IsCents = record { above = refl; below = refl }

covered_30 : pos 30000000 ≤ℤ carol.wallet_balance +ℤ or_zero carol.credit_limit
unfolding ◌+ℤ◌
covered_30 = omega arith

fail_undoes_charge_example :
    let paid = (debit_wallet_atomic safe_round 7 (pos 30000000) (some 2) shop).1 in
    let created = record paid { orders = (2, new_order) ∷ paid.orders } in
    let back = (mark_order_as_failed safe_round true 5 2 created).1 in
    (find 7 back.users ≡ some carol)
    × (back.wallet_transactions
        ≡ refund_entry 7
            (with_balance carol (carol.wallet_balance -ℤ pos 30000000))
            (pos 30000000)
            (some 2)
          ∷ debit_entry 7 carol (pos 30000000) (some 2)
          ∷ [])
fail_undoes_charge_example =
    fail_undoes_charge safe_round server_round true 5 2 (pos 30000000) shop carol new_order
      found_carol carol-IsFair refl thirty-IsCents (omega arith) covered_30 new_order-IsCharged
