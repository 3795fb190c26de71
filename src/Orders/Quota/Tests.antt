-- ===== src/Orders/Quota/Tests.antt =====
-- Orders that are billed by quantity, at a concrete order.
use kanz_coins_backend.Prelude.{◌≡◌, refl, true, false, some, none, [], ◌∷◌, arith}
use kanz_coins_backend.Prelude.Int.{pos}
use kanz_coins_backend.Prelude.Table.{find}
use kanz_coins_backend.Prelude.Exec.{ok}
use kanz_coins_backend.Money.{safe_round}
use kanz_coins_backend.Db.{Db, User, UserStatus, BillingMode, Order, OrderStatus}
use kanz_coins_backend.Orders.Refund.{
  mark_order_as_failed, refundable_amount, bills_by_quantity, set_failed,
}
use kanz_coins_backend.Orders.Fulfillment.{refund_failed_order, clear_refund_flag}
use kanz_coins_backend.Orders.Quota.{
  with_quantity_used, mark_order_as_failed_returns_quota, refund_failed_order_keeps_quota,
}

abbrev erin : User
erin = record {
  status = UserStatus.active;
  wallet_balance = pos 0;
  credit_limit = none;
  credit_used = pos 0;
  group_id = some 3;
  quantity_limit = pos 1000;
  quantity_used = pos 150;
  currency = none;
  deleted_at = none;
  referred_by = none;
  referred_at = none;
  referral_eligible_until = none;
  referral_commission_percent_override = none;
  referral_commission_stopped_at = none;
}

abbrev free_order : Order
free_order = record {
  user_id = 7;
  quantity = 100;
  wallet_deducted = pos 0;
  credit_used_amount = pos 0;
  charged_amount = some (pos 0);
  status = OrderStatus.processing;
  provider_status = none;
  provider_order_id = none;
  retry_count = 0;
  remains = pos 0;
  refunded = false;
  refunded_at = none;
  failed_at = none;
  last_checked_at = none;
}

abbrev desk : Db
desk = record {
  users = (7, erin) ∷ [];
  groups = (3, record { billing_mode = BillingMode.quantity_only }) ∷ [];
  orders = (1, free_order) ∷ [];
  wallet_transactions = [];
}

found_order : find 1 desk.orders ≡ some free_order
unfolding find
found_order = refl

found_erin : find 7 desk.users ≡ some erin
unfolding find
found_erin = refl

costs_nothing : refundable_amount free_order ≡ pos 0
unfolding refundable_amount
costs_nothing = refl

by_quantity : bills_by_quantity 7 desk ≡ true
unfolding bills_by_quantity find
by_quantity = refl

mark_order_as_failed_returns_quota_example :
    let (r, db') = mark_order_as_failed safe_round true 5 1 desk in
    (r ≡ ok (set_failed 5 free_order))
    × (find 1 db'.orders ≡ some (set_failed 5 free_order))
    × (find 7 db'.users ≡ some (with_quantity_used erin 100))
    × (db'.wallet_transactions ≡ [])
mark_order_as_failed_returns_quota_example =
    mark_order_as_failed_returns_quota safe_round true 5 1 desk free_order erin found_order
      found_erin refl refl (rw costs_nothing (omega arith)) (omega arith) by_quantity

refund_failed_order_keeps_quota_example :
    let (r, db') = refund_failed_order safe_round 5 1 free_order desk in
    (r ≡ ok false)
    × (db'.users ≡ desk.users)
    × (db'.wallet_transactions ≡ [])
    × (find 1 db'.orders ≡ some (clear_refund_flag free_order))
refund_failed_order_keeps_quota_example =
    refund_failed_order_keeps_quota safe_round 5 1 free_order desk free_order found_order refl
      (rw costs_nothing (omega arith))
