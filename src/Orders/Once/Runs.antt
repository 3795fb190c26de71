-- ===== src/Orders/Once/Runs.antt =====
-- The refund guard over any sequence of calls: src/modules/orders/order.service.js,
-- src/modules/orders/orderFulfillment.service.js, src/modules/admin/admin.orders.service.js.
use kanz_coins_backend.Prelude.{
  ℕ, ◌≤◌, ◌≡◌, ◌⊎◌, refl, Bool, Option, none, some, List, [], ◌∷◌, arith, inl, inr,
}
use kanz_coins_backend.Prelude.Int.{ℤ}
use kanz_coins_backend.Prelude.Table.{modify}
use kanz_coins_backend.Prelude.Exec.{Keeps}
use kanz_coins_backend.Money.{Amount}
use kanz_coins_backend.Db.{Db, Order, OrderStatus}
use kanz_coins_backend.Wallet.Effects.{refund_count}
use kanz_coins_backend.Orders.Refund.{
  mark_order_as_failed, process_order_refund, mark_order_as_completed,
}
use kanz_coins_backend.Orders.Fulfillment.{
  StatusResult, refund_failed_order, process_order_status_result,
}
use kanz_coins_backend.Orders.Admin.{refund_order}
use kanz_coins_backend.Orders.Once.{IsOnce, Once, other-IsOnce}
use kanz_coins_backend.Orders.Once.Refunds.{
  mark_order_as_failed-IsOnce, process_order_refund-IsOnce, mark_order_as_completed-IsOnce,
}
use kanz_coins_backend.Orders.Once.Fulfillment.{
  refund_failed_order-IsOnce, process_order_status_result-IsOnce,
}

module _ (round : Amount → Amount) where
  pub refund_order_cases :
      (tx : Bool) (now id : ℕ) (remains : ℤ) (db : Db)
      → let db' = (refund_order round tx now id remains db).1 in
        let partial = record db {
          orders = modify id (λ o. record o { status = OrderStatus.partial }) db.orders;
        } in
        (db' ≡ db)
        ⊎ ((db' ≡ (process_order_refund round tx now id remains db).1)
            ⊎ ((db' ≡ (process_order_refund round tx now id remains partial).1)
                ⊎ (db' ≡ (mark_order_as_failed round tx now id db).1)))
  unfolding refund_order
  refund_order_cases tx now id remains db = ground arith

  pub refund_order-IsOnce :
      (tx : Bool) (now id : ℕ) (remains : ℤ) → Keeps IsOnce (refund_order round tx now id remains)
  refund_order-IsOnce tx now id remains db h = elim (refund_order_cases tx now id remains db) [
    | inl same ↦ rw same h
    | inr (inl paid) ↦ rw paid (process_order_refund-IsOnce round tx now id remains db h)
    | inr (inr (inl paid)) ↦ rw paid (
        process_order_refund-IsOnce round tx now id remains _ (
          other-IsOnce id (λ o. record o { status = OrderStatus.partial }) db h (λ p. refl)
            (λ p. refl)))
    | inr (inr (inr paid)) ↦ rw paid (mark_order_as_failed-IsOnce round tx now id db h)
  ]

-- A call on the orders that may refund or that sets a status.
pub data OrderCall : Type 0 where
  mark_failed : Bool → ℕ → ℕ → OrderCall
  refund : Bool → ℕ → ℕ → ℤ → OrderCall
  refund_failed : ℕ → ℕ → Order → OrderCall
  status_result : Bool → ℕ → ℕ → Order → StatusResult → OrderCall
  mark_completed : ℕ → OrderCall
  admin_refund : Bool → ℕ → ℕ → ℤ → OrderCall

module _ (round : Amount → Amount) where
  abbrev pub after : OrderCall → Db → Db
  after (OrderCall.mark_failed tx now id) db = (mark_order_as_failed round tx now id db).1
  after (OrderCall.refund tx now id remains) db =
      (process_order_refund round tx now id remains db).1
  after (OrderCall.refund_failed now id order) db = (refund_failed_order round now id order db).1
  after (OrderCall.status_result tx now id order result) db =
      (process_order_status_result round tx now id order result db).1
  after (OrderCall.mark_completed id) db = (mark_order_as_completed id db).1
  after (OrderCall.admin_refund tx now id remains) db = (refund_order round tx now id remains db).1

  abbrev pub after_all : List OrderCall → Db → Db
  after_all [] db = db
  after_all (call ∷ calls) db = after_all calls (after call db)

  pub after-IsOnce : (call : OrderCall) (db : Db) → IsOnce db → IsOnce (after call db)
  after-IsOnce (OrderCall.mark_failed tx now id) = mark_order_as_failed-IsOnce round tx now id
  after-IsOnce (OrderCall.refund tx now id remains) =
      process_order_refund-IsOnce round tx now id remains
  after-IsOnce (OrderCall.refund_failed now id order) =
      refund_failed_order-IsOnce round now id order
  after-IsOnce (OrderCall.status_result tx now id order result) =
      process_order_status_result-IsOnce round tx now id order result
  after-IsOnce (OrderCall.mark_completed id) = mark_order_as_completed-IsOnce id
  after-IsOnce (OrderCall.admin_refund tx now id remains) =
      refund_order-IsOnce round tx now id remains

  pub after_all-IsOnce :
      (calls : List OrderCall) (db : Db) → IsOnce db → IsOnce (after_all calls db)
  after_all-IsOnce [] db h = h
  after_all-IsOnce (call ∷ calls) db h =
      after_all-IsOnce calls (after call db) (after-IsOnce call db h)

  at_most : (o : Option Order) (n : ℕ) → Once o n → n ≤ 1
  at_most none n h = ground arith
  at_most (some o) n h = h.0

  -- After any sequence of these calls, with any stale document and with or without sessions, the
  -- ledger has at most one refund for an order, if before it every order agreed with its refunds: at
  -- most one, none without the flag, and the flag only with its date.
  pub refunded_at_most_once :
      (calls : List OrderCall) (db : Db) (id : ℕ)
      → IsOnce db
      → refund_count id (after_all calls db).wallet_transactions ≤ 1
  refunded_at_most_once calls db id h = at_most _ _ ((after_all-IsOnce calls db h).once id)
