-- ===== src/Orders/Once/Fulfillment.antt =====
-- The refund guard through src/modules/orders/orderFulfillment.service.js: `refundFailedOrder` and
-- `processOrderStatusResult`, for any document that the caller read before.
use kanz_coins_backend.Prelude.{ℕ, refl, Bool, arith, inl, inr}
use kanz_coins_backend.Prelude.Tests.{Bool-cases, Option-cases}
use kanz_coins_backend.Prelude.Table.{find}
use kanz_coins_backend.Prelude.Exec.{Keeps}
use kanz_coins_backend.Money.{Amount}
use kanz_coins_backend.Db.{Db, Order}
use kanz_coins_backend.Orders.Branches.{
  find_order_and_update_cases, pay_refund_cases, refund_failed_order_unflagged,
  refund_failed_order_flagged, refund_failed_order_missing,
}
use kanz_coins_backend.Orders.Refund.{refundable_amount}
use kanz_coins_backend.Orders.Fulfillment.{
  StatusResult, transition_from_processing, set_refund_flag, clear_refund_flag, pay_refund,
  refund_failed_order, process_order_status_result, is_processing,
}
use kanz_coins_backend.Orders.Results.{IsResult, status_result-Keeps}
use kanz_coins_backend.Orders.Once.{IsOnce, IsArmed, save-IsOnce, arm, other-IsOnce}
use kanz_coins_backend.Orders.Once.Refunds.{refund-IsOnce, process_order_refund-IsOnce}

pub transition-IsOnce :
    (id : ℕ) (f : Order → Order) → IsResult f → Keeps IsOnce (transition_from_processing id f)
unfolding transition_from_processing
transition-IsOnce id f fits db h =
    elim (find_order_and_update_cases id (λ o. is_processing o.status) f db) [
      | inl same ↦ rw same h
      | inr moved ↦ rw moved (other-IsOnce id f db h fits.refunded fits.refunded_at)
    ]

module _ (round : Amount → Amount) where
  pub pay_refund-IsOnce :
      (id : ℕ) (order : Order) (db : Db) → IsArmed id db → IsOnce (pay_refund round id order db).1
  pay_refund-IsOnce id order db h = elim (pay_refund_cases round id order db) [
    | inl undone ↦ rw undone (
        save-IsOnce id clear_refund_flag db h.keeps
          (λ p _. (ground (arith, h.unpaid), λ _. h.unpaid, λ c. ground arith)))
    | inr paid ↦ rw paid (
        refund-IsOnce round order.user_id (refundable_amount order) order.credit_used_amount id db
          h)
  ]

  pub refund_failed_order-IsOnce :
      (now id : ℕ) (order : Order) → Keeps IsOnce (refund_failed_order round now id order)
  refund_failed_order-IsOnce now id order db h = elim (Option-cases (find id db.orders)) [
    | inl missing ↦ rw (refund_failed_order_missing round now id order db missing) h
    | inr (o, found) ↦ elim (Bool-cases o.refunded) [
      | inl flag ↦ rw (refund_failed_order_flagged round now id order db o found flag) h
      | inr clear ↦ rw (refund_failed_order_unflagged round now id order db o found clear) (
          pay_refund-IsOnce id order _
            (arm id (set_refund_flag now) db h found clear (λ p. refl) (λ p. refl)))
    ]
  ]

  pub process_order_status_result-IsOnce :
      (tx : Bool) (now id : ℕ) (order : Order) (result : StatusResult)
      → Keeps IsOnce (process_order_status_result round tx now id order result)
  process_order_status_result-IsOnce =
      status_result-Keeps IsOnce transition-IsOnce round (process_order_refund-IsOnce round)
        refund_failed_order-IsOnce
