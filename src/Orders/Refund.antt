-- ===== src/Orders/Refund.antt =====
-- src/modules/orders/order.service.js: marking an order as failed, refunding a canceled or a
-- partial one, completing one by hand. `transactions` says whether a session could be opened;
-- `now` is the date of the call. Audit entries and notifications follow the commit and are left out.
use kanz_coins_backend.Prelude.{ℕ, suc, ◌*◌, Bool, true, false, not, ◌&&◌, Option, none, some}
use kanz_coins_backend.Prelude.Int.{ℤ, pos, negsuc, sub_ℕ, ◌+ℤ◌, ◌-ℤ◌, abs, leb_ℤ, ltb_ℤ}
use kanz_coins_backend.Prelude.Tests.{if◌then◌else◌, ltb}
use kanz_coins_backend.Prelude.Table.{find, modify}
use kanz_coins_backend.Prelude.Exec.{
  Exec, pure, gets, or_throw, throw_if, modify_state, in_session, ◌>>=◌, ◌>>◌,
}
use kanz_coins_backend.Prelude.Double.{to_double, times, floor, ceiling}
use kanz_coins_backend.Money.{Amount, cent, unit, or_zero}
use kanz_coins_backend.Errors.{
  Error, not_found, order_already_failed, already_refunded, no_refundable_amount,
  invalid_refund_amount, invalid_status_transition,
}
use kanz_coins_backend.Db.{Db, User, Group, BillingMode, Order, OrderStatus}
use kanz_coins_backend.Wallet.{refund_wallet_atomic}

-- `Order.findById(orderId)`
abbrev pub load_order : ℕ → Exec Db Error Order
load_order order_id = do
  or_throw (← gets (λ (db : Db). find order_id db.orders)) (not_found "Order")

-- `order.save()`: the changed fields of the document that was read.
abbrev pub save_order : ℕ → (Order → Order) → Exec Db Error (Unit {0})
save_order order_id changes =
    modify_state (λ db. record db { orders = modify order_id changes db.orders })

-- The parts of a charge that a refund reads, the wallet's and the credit line's.
abbrev pub is_legacy_split : Amount → Amount → Amount → Bool
is_legacy_split wallet credit charged =
    ltb_ℤ (pos 0) wallet
    && ltb_ℤ (pos 0) credit
    && ltb_ℤ (pos 0) charged
    && ltb_ℤ (abs (wallet +ℤ credit -ℤ charged)) (pos cent)

-- `refundWallet`: the amount that a failed order gives back.
unfoldable pub refundable_amount : Order → Amount
unfolding abs
refundable_amount order =
    let wallet_portion = order.wallet_deducted in
    let credit_portion = order.credit_used_amount in
    let charged_portion = or_zero order.charged_amount in
    if ltb_ℤ (pos 0) wallet_portion
    then (if is_legacy_split wallet_portion credit_portion charged_portion
        then wallet_portion +ℤ credit_portion
        else wallet_portion)
    else (if ltb_ℤ (pos 0) credit_portion then credit_portion else charged_portion)

abbrev is_quantity_only : Option Group → Bool
is_quantity_only none = false
is_quantity_only (some g) = elim g.billing_mode [
  | BillingMode.quantity_only ↦ true
  | BillingMode.standard ↦ false
]

abbrev group_of : Option User → Db → Option Group
group_of none db = none
group_of (some u) db = elim u.group_id [ none ↦ none | some g ↦ find g db.groups ]

-- Whether the order's user is billed by quantity.
unfoldable pub bills_by_quantity : ℕ → Db → Bool
bills_by_quantity user_id db = is_quantity_only (group_of (find user_id db.users) db)

-- `{ $inc: { quantityUsed: -quantity } }`
unfoldable pub return_quantity : ℕ → ℤ → Exec Db Error (Unit {0})
return_quantity user_id quantity = modify_state (λ db. record db {
  users =
      modify user_id (λ (u : User). record u { quantity_used = u.quantity_used -ℤ quantity })
        db.users;
})

abbrev pub is_failed : OrderStatus → Bool
is_failed OrderStatus.failed = true
is_failed _ = false

abbrev pub is_pending : OrderStatus → Bool
is_pending OrderStatus.pending = true
is_pending _ = false

abbrev pub is_some {ℓ} : {A : Type ℓ} → Option A → Bool
is_some none = false
is_some (some a) = true

-- The document that `markOrderAsFailed` saves.
abbrev pub set_failed : ℕ → Order → Order
set_failed now o = record o {
  status = OrderStatus.failed;
  failed_at = some now;
  refunded_at = some now;
  refunded = true;
}

-- The `chargedAmount` of `processOrderRefund`: `order.chargedAmount || order.walletDeducted || 0`.
abbrev pub charged_or_deducted : Order → Amount
charged_or_deducted order = elim order.charged_amount [
  | none ↦ order.wallet_deducted
  | some c ↦ if leb_ℤ c (pos 0) && leb_ℤ (pos 0) c then order.wallet_deducted else c
]

-- `Math.floor((remainsCount / order.quantity) * chargedAmount)` in doubles: whole units of currency.
-- The charge is the double nearest to its amount.
unfoldable pub proportional_refund : Amount → ℕ → ℕ → Amount
proportional_refund (pos c) remains quantity =
    pos (floor (times (to_double remains quantity) (to_double c unit)) * unit)
proportional_refund (negsuc n) remains quantity =
    sub_ℕ 0 (ceiling (times (to_double remains quantity) (to_double (suc n) unit)) * unit)

abbrev pub to_count : ℤ → ℕ
to_count (pos n) = n
to_count _ = 0

-- What `processOrderRefund` decides before it writes.
pub record RefundPlan : Type 0 where
  pub order : Order
  pub remains_count : ℕ
  pub is_partial : Bool
  pub is_quantity_only_refund : Bool
  pub refund_amount : Amount

abbrev pub is_partial_refund : ℕ → ℕ → Bool
is_partial_refund remains_count quantity = ltb 0 remains_count && ltb remains_count quantity

-- The reads and the guards of `processOrderRefund`.
unfoldable pub plan_order_refund : ℕ → ℤ → Exec Db Error RefundPlan
plan_order_refund order_id remains = do
  order ← load_order order_id
  throw_if order.refunded already_refunded
  let charged_amount = charged_or_deducted order
  by_quantity ← gets (bills_by_quantity order.user_id)
  let is_quantity_only_refund = leb_ℤ charged_amount (pos 0) && ltb 0 order.quantity && by_quantity
  throw_if (leb_ℤ charged_amount (pos 0) && not is_quantity_only_refund) no_refundable_amount
  let remains_count = to_count remains
  let is_partial = is_partial_refund remains_count order.quantity
  let refund_amount =
      if is_partial
      then proportional_refund charged_amount remains_count order.quantity
      else charged_amount
  throw_if (leb_ℤ refund_amount (pos 0) && not is_quantity_only_refund) invalid_refund_amount
  pure (record {
    order = order;
    remains_count = remains_count;
    is_partial = is_partial;
    is_quantity_only_refund = is_quantity_only_refund;
    refund_amount = refund_amount;
  })

-- The order as `processOrderRefund` saves it.
abbrev pub set_refunded : ℕ → RefundPlan → Order → Order
set_refunded now plan o = record o {
  refunded = true;
  refunded_at = some now;
  remains = if plan.is_partial then pos plan.remains_count else o.remains;
}

module _ (round : Amount → Amount) where
  -- `markOrderAsFailed`
  unfoldable pub mark_order_as_failed : Bool → ℕ → ℕ → Exec Db Error Order
  mark_order_as_failed transactions now order_id = in_session transactions (do
    order ← load_order order_id
    throw_if (is_failed order.status) order_already_failed
    throw_if (is_some order.refunded_at) already_refunded
    let total_refund = refundable_amount order
    by_quantity ← gets (bills_by_quantity order.user_id)
    let is_quantity_only_refund = leb_ℤ total_refund (pos 0) && ltb 0 order.quantity && by_quantity
    throw_if (leb_ℤ total_refund (pos 0) && not is_quantity_only_refund) no_refundable_amount
    save_order order_id (set_failed now)
    (if is_quantity_only_refund
        then return_quantity order.user_id (pos order.quantity)
        else (refund_wallet_atomic round order.user_id total_refund order.credit_used_amount
              (some order_id)
            >> pure tt))
    pure (set_failed now order))

  -- The writes of `processOrderRefund`: the order first, then the quota or the wallet. That a save
  -- would refuse an order whose stored `remains` is negative is left out.
  unfoldable pub commit_order_refund : ℕ → ℕ → RefundPlan → Exec Db Error Order
  commit_order_refund now order_id plan = do
    save_order order_id (set_refunded now plan)
    (if plan.is_quantity_only_refund
        then return_quantity plan.order.user_id
            (pos (if plan.is_partial then plan.remains_count else plan.order.quantity))
        else (refund_wallet_atomic round plan.order.user_id plan.refund_amount (pos 0)
              (some order_id)
            >> pure tt))
    pure (set_refunded now plan plan.order)

  -- `processOrderRefund`
  unfoldable pub process_order_refund : Bool → ℕ → ℕ → ℤ → Exec Db Error Order
  process_order_refund transactions now order_id remains =
      in_session transactions
        (do plan ← plan_order_refund order_id remains; commit_order_refund now order_id plan)

-- `markOrderAsCompleted`
unfoldable pub mark_order_as_completed : ℕ → Exec Db Error Order
mark_order_as_completed order_id = do
  order ← load_order order_id
  throw_if (not (is_pending order.status)) invalid_status_transition
  let completed = λ (o : Order). record o { status = OrderStatus.completed }
  save_order order_id completed
  pure (completed order)
