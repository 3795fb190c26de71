-- ===== src/Orders/Branches.antt =====
-- The states in which the refunds and the transitions of src/modules/orders/order.service.js and
-- src/modules/orders/orderFulfillment.service.js can end, by what they read.
use kanz_coins_backend.Prelude.{ℕ, ◌≡◌, ◌⊎◌, inl, inr, Bool, true, false, none, some, arith}
use kanz_coins_backend.Prelude.Int.{ℤ, pos}
use kanz_coins_backend.Prelude.Tests.{Bool-cases, Option-cases, if◌then◌else◌}
use kanz_coins_backend.Prelude.Table.{find, modify}
use kanz_coins_backend.Prelude.Exec.{ok}
use kanz_coins_backend.Money.{Amount}
use kanz_coins_backend.Db.{Db, Order, OrderStatus}
use kanz_coins_backend.Wallet.{refund_wallet_atomic}
use kanz_coins_backend.Orders.Refund.{
  is_some, is_pending, return_quantity, mark_order_as_failed, set_failed, refundable_amount,
  plan_order_refund, commit_order_refund, RefundPlan, set_refunded, mark_order_as_completed,
}
use kanz_coins_backend.Orders.Fulfillment.{
  find_order_and_update, transition_from_processing, is_processing, set_refund_flag,
  clear_refund_flag, pay_refund, refund_failed_order,
}

pub mark_order_as_completed_cases :
    (id : ℕ) (db : Db)
    → let db' = (mark_order_as_completed id db).1 in
      (db' ≡ db)
      ⊎ ((db' ≡ record db {
        orders = modify id (λ o. record o { status = OrderStatus.completed }) db.orders;
      })
          × ((o : Order) → find id db.orders ≡ some o → is_pending o.status ≡ true))
unfolding mark_order_as_completed
mark_order_as_completed_cases id db = elim (Option-cases (find id db.orders)) [
  | inl missing ↦ inl (ground (arith, missing))
  | inr (o, found) ↦ elim (Bool-cases (is_pending o.status)) [
    | inl here ↦ inr (ground (arith, found, here), λ p e. ground (arith, found, e, here))
    | inr gone ↦ inl (ground (arith, found, gone))
  ]
]

pub find_order_and_update_cases :
    (id : ℕ) (guard : Order → Bool) (f : Order → Order) (db : Db)
    → let db' = (find_order_and_update id guard f db).1 in
      (db' ≡ db) ⊎ (db' ≡ record db { orders = modify id f db.orders })
unfolding find_order_and_update
find_order_and_update_cases id guard f db = ground arith

pub transition_cases :
    (id : ℕ) (f : Order → Order) (db : Db)
    → let db' = (transition_from_processing id f db).1 in
      (db' ≡ db)
      ⊎ ((db' ≡ record db { orders = modify id f db.orders })
          × ((o : Order) → find id db.orders ≡ some o → is_processing o.status ≡ true))
unfolding transition_from_processing find_order_and_update
transition_cases id f db = elim (Option-cases (find id db.orders)) [
  | inl missing ↦ inl (ground (arith, missing))
  | inr (o, found) ↦ elim (Bool-cases (is_processing o.status)) [
    | inl here ↦ inr (ground (arith, found, here), λ p e. ground (arith, found, e, here))
    | inr gone ↦ inl (ground (arith, found, gone))
  ]
]

pub plan_order_refund_found :
    (id : ℕ) (remains : ℤ) (db : Db) (p : RefundPlan)
    → (plan_order_refund id remains db).0 ≡ ok p
    → (find id db.orders ≡ some p.order) × (p.order.refunded ≡ false)
unfolding plan_order_refund
plan_order_refund_found id remains db p e = elim (Option-cases (find id db.orders)) [
  | inl missing ↦ ground (arith, missing, e)
  | inr (o, found) ↦ ground (arith, found, e)
]

pub plan_order_refund_reads :
    (id : ℕ) (remains : ℤ) (db : Db) → (plan_order_refund id remains db).1 ≡ db
unfolding plan_order_refund
plan_order_refund_reads id remains db = ground arith

module _ (round : Amount → Amount) where
  pub mark_order_as_failed_missing :
      (tx : Bool) (now id : ℕ) (db : Db)
      → find id db.orders ≡ none
      → (mark_order_as_failed round tx now id db).1 ≡ db
  unfolding mark_order_as_failed
  mark_order_as_failed_missing tx now id db missing = ground (arith, missing)

  pub mark_order_as_failed_cases :
      (tx : Bool) (now id : ℕ) (db : Db) (o : Order)
      → find id db.orders ≡ some o
      → let db' = (mark_order_as_failed round tx now id db).1 in
        let saved = record db { orders = modify id (set_failed now) db.orders } in
        (db' ≡ db)
        ⊎ ((is_some o.refunded_at ≡ false)
            × ((db' ≡ (return_quantity o.user_id (pos o.quantity) saved).1)
                ⊎ (db'
                    ≡ (refund_wallet_atomic round o.user_id
                        (refundable_amount o)
                        o.credit_used_amount
                        (some id)
                        saved).1)))
  unfolding mark_order_as_failed
  mark_order_as_failed_cases tx now id db o found = ground (arith, found)

  pub commit_order_refund_cases :
      (now id : ℕ) (p : RefundPlan) (db : Db)
      → let db' = (commit_order_refund round now id p db).1 in
        let saved = record db { orders = modify id (set_refunded now p) db.orders } in
        let count = if p.is_partial then p.remains_count else p.order.quantity in
        (db' ≡ (return_quantity p.order.user_id (pos count) saved).1)
        ⊎ (db'
            ≡ (refund_wallet_atomic round p.order.user_id p.refund_amount
                (pos 0)
                (some id)
                saved).1)
  unfolding commit_order_refund
  commit_order_refund_cases now id p db = ground arith

  pub pay_refund_cases :
      (id : ℕ) (order : Order) (db : Db)
      → let db' = (pay_refund round id order db).1 in
        (db' ≡ record db { orders = modify id clear_refund_flag db.orders })
        ⊎ (db'
            ≡ (refund_wallet_atomic round order.user_id
                (refundable_amount order)
                order.credit_used_amount
                (some id)
                db).1)
  unfolding pay_refund
  pay_refund_cases id order db = ground arith

  pub refund_failed_order_unflagged :
      (now id : ℕ) (order : Order) (db : Db) (o : Order)
      → find id db.orders ≡ some o
      → o.refunded ≡ false
      → (refund_failed_order round now id order db).1
        ≡ (pay_refund round id order
            (record db { orders = modify id (set_refund_flag now) db.orders })).1
  unfolding refund_failed_order find_order_and_update
  refund_failed_order_unflagged now id order db o found clear = ground (arith, found)

  pub refund_failed_order_flagged :
      (now id : ℕ) (order : Order) (db : Db) (o : Order)
      → find id db.orders ≡ some o
      → o.refunded ≡ true
      → (refund_failed_order round now id order db).1 ≡ db
  unfolding refund_failed_order find_order_and_update
  refund_failed_order_flagged now id order db o found flag = ground (arith, found)

  pub refund_failed_order_missing :
      (now id : ℕ) (order : Order) (db : Db)
      → find id db.orders ≡ none
      → (refund_failed_order round now id order db).1 ≡ db
  unfolding refund_failed_order find_order_and_update
  refund_failed_order_missing now id order db missing = ground (arith, missing)
