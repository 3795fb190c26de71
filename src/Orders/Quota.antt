-- ===== src/Orders/Quota.antt =====
-- Orders that are billed by quantity: `markOrderAsFailed` of src/modules/orders/order.service.js
-- and `refundFailedOrder` of src/modules/orders/orderFulfillment.service.js.
mod Tests
use kanz_coins_backend.Prelude.{
  ℕ, ◌≤◌, ◌<◌, ◌≡◌, ◌≢◌, refl, ap, ◌∙◌, Bool, true, false, Option, none, some, arith,
}
use kanz_coins_backend.Prelude.Int.{pos, ◌-ℤ◌, ◌≤ℤ◌}
use kanz_coins_backend.Prelude.Table.{find, modify, find-modify_self, find-modify_ne}
use kanz_coins_backend.Prelude.Exec.{ok}
use kanz_coins_backend.Money.{Amount}
use kanz_coins_backend.Db.{Db, User, Order}
use kanz_coins_backend.Orders.Refund.{
  mark_order_as_failed, refundable_amount, bills_by_quantity, return_quantity, set_failed,
  is_failed, is_some,
}
use kanz_coins_backend.Orders.Fulfillment.{
  refund_failed_order, pay_refund, find_order_and_update, set_refund_flag, clear_refund_flag,
}

abbrev pub with_quantity_used : User → ℕ → User
with_quantity_used u quantity = record u { quantity_used = u.quantity_used -ℤ pos quantity }

module _ (round : Amount → Amount) where
  mark_order_as_failed_quota :
      (tx : Bool) (now id : ℕ) (db : Db) (o : Order)
      → find id db.orders ≡ some o
      → is_failed o.status ≡ false
      → is_some o.refunded_at ≡ false
      → refundable_amount o ≤ℤ pos 0
      → 0 < o.quantity
      → bills_by_quantity o.user_id db ≡ true
      → mark_order_as_failed round tx now id db ≡ (
        ok (set_failed now o),
        record db {
          orders = modify id (set_failed now) db.orders;
          users = modify o.user_id (λ u. with_quantity_used u o.quantity) db.users;
        },
      )
  unfolding mark_order_as_failed return_quantity
  mark_order_as_failed_quota tx now id db o found going undated free some_quantity by_quantity =
      ground (arith, found, going, undated, free, some_quantity, by_quantity)

  -- Marking an order as failed that cost nothing, of a user who is billed by quantity, not FAILED and
  -- with no refund date: the order is saved as FAILED, the user gets exactly the order's quantity back,
  -- and the ledger does not change.
  pub mark_order_as_failed_returns_quota :
      (tx : Bool) (now id : ℕ) (db : Db) (o : Order) (u : User)
      → find id db.orders ≡ some o
      → find o.user_id db.users ≡ some u
      → is_failed o.status ≡ false
      → is_some o.refunded_at ≡ false
      → refundable_amount o ≤ℤ pos 0
      → 0 < o.quantity
      → bills_by_quantity o.user_id db ≡ true
      → let (r, db') = mark_order_as_failed round tx now id db in
        (r ≡ ok (set_failed now o))
        × (find id db'.orders ≡ some (set_failed now o))
        × (find o.user_id db'.users ≡ some (with_quantity_used u o.quantity))
        × (db'.wallet_transactions ≡ db.wallet_transactions)
  mark_order_as_failed_returns_quota tx now id db o u found account going undated free some_quantity
        by_quantity =
      rw
        (mark_order_as_failed_quota tx now id db o found going undated free some_quantity
          by_quantity)
        (
          refl,
          find-modify_self id (set_failed now) db.orders found,
          find-modify_self o.user_id (λ v. with_quantity_used v o.quantity) db.users account,
          refl,
        )

  -- The automatic refund of an order that is not flagged, where the document that was read cost
  -- nothing: it returns false, gives neither money nor quantity back, and leaves the order without the
  -- flag and without a refund date.
  pub refund_failed_order_keeps_quota :
      (now id : ℕ) (order : Order) (db : Db) (o : Order)
      → find id db.orders ≡ some o
      → o.refunded ≡ false
      → refundable_amount order ≤ℤ pos 0
      → let (r, db') = refund_failed_order round now id order db in
        (r ≡ ok false)
        × (db'.users ≡ db.users)
        × (db'.wallet_transactions ≡ db.wallet_transactions)
        × (find id db'.orders ≡ some (clear_refund_flag o))
  unfolding refund_failed_order find_order_and_update pay_refund
  refund_failed_order_keeps_quota now id order db o found clear free =
      let set = find-modify_self id (set_refund_flag now) db.orders found in
      let cleared =
        find-modify_self id clear_refund_flag (modify id (set_refund_flag now) db.orders) set in
      ground (arith, found, clear, free, cleared)
