-- ===== src/Orders/Admin.antt =====
-- src/modules/admin/admin.orders.service.js: the administrator's refund and forced completion.
use kanz_coins_backend.Prelude.{Bool, true, false, ◌&&◌, ◌||◌, ℕ, none, some}
use kanz_coins_backend.Prelude.Int.{ℤ, pos, ltb_ℤ}
use kanz_coins_backend.Prelude.Tests.{if◌then◌else◌}
use kanz_coins_backend.Prelude.Exec.{Exec, pure, throw_if, ◌>>=◌, ◌>>◌}
use kanz_coins_backend.Money.{Amount}
use kanz_coins_backend.Errors.{Error, already_refunded, already_completed}
use kanz_coins_backend.Db.{Db, Order, OrderStatus}
use kanz_coins_backend.Wallet.{forced_debit_wallet}
use kanz_coins_backend.Orders.Refund.{
  load_order, save_order, is_some, charged_or_deducted, mark_order_as_failed, process_order_refund,
}

abbrev pub is_completed : OrderStatus → Bool
is_completed OrderStatus.completed = true
is_completed _ = false

abbrev pub is_partial : OrderStatus → Bool
is_partial OrderStatus.partial = true
is_partial _ = false

-- FAILED or CANCELED
abbrev pub is_failed_or_canceled : OrderStatus → Bool
is_failed_or_canceled OrderStatus.failed = true
is_failed_or_canceled OrderStatus.canceled = true
is_failed_or_canceled _ = false

-- `wasRefunded`
abbrev pub was_refunded : Order → Bool
was_refunded order = order.refunded || is_failed_or_canceled order.status || is_partial order.status

-- The fields that `completeOrder` saves, by whether the order counts as refunded.
abbrev pub set_completed : Bool → Order → Order
set_completed true o = record o {
  status = OrderStatus.completed;
  refunded = false;
  refunded_at = none;
}
set_completed false o = record o { status = OrderStatus.completed }

-- `completeOrder`. Neither the debit nor the save stands in a session.
unfoldable pub complete_order : ℕ → Exec Db Error Order
complete_order order_id = do
  order ← load_order order_id
  throw_if (is_completed order.status) already_completed
  let re_deduct_amount = charged_or_deducted order
  (if was_refunded order && ltb_ℤ (pos 0) re_deduct_amount
      then (forced_debit_wallet order.user_id re_deduct_amount (some order_id) >> pure tt)
      else pure tt)
  save_order order_id (set_completed (was_refunded order))
  pure (set_completed (was_refunded order) order)

-- `refundOrder`; `remains` is the parsed count, 0 where it is no number.
module _ (round : Amount → Amount) where
  unfoldable pub refund_order : Bool → ℕ → ℕ → ℤ → Exec Db Error Order
  refund_order transactions now order_id remains = do
    order ← load_order order_id
    throw_if order.refunded already_refunded
    throw_if (is_failed_or_canceled order.status && is_some order.refunded_at) already_refunded
    (if ltb_ℤ (pos 0) remains
        then (do
          (if is_partial order.status
              then pure tt
              else save_order order_id (λ o. record o { status = OrderStatus.partial }))
          process_order_refund round transactions now order_id remains)
        else mark_order_as_failed round transactions now order_id)
