-- ===== src/Orders/Once/Refunds.antt =====
-- The refund guard through src/modules/orders/order.service.js: `markOrderAsFailed`,
-- `processOrderRefund` and `markOrderAsCompleted`.
use kanz_coins_backend.Prelude.{ℕ, ◌≡◌, refl, Bool, false, some, inl, inr}
use kanz_coins_backend.Prelude.Int.{ℤ, pos}
use kanz_coins_backend.Prelude.Tests.{Option-cases}
use kanz_coins_backend.Prelude.Table.{find, modify}
use kanz_coins_backend.Prelude.Exec.{Keeps, Result-cases, ◌>>=◌, Keeps-in_session}
use kanz_coins_backend.Money.{Amount}
use kanz_coins_backend.Db.{Db}
use kanz_coins_backend.Wallet.{refund_wallet_atomic}
use kanz_coins_backend.Wallet.Effects.{refund_at_most_once}
use kanz_coins_backend.Orders.Branches.{
  mark_order_as_failed_missing, mark_order_as_failed_cases, plan_order_refund_found,
  plan_order_refund_reads, commit_order_refund_cases, mark_order_as_completed_cases,
}
use kanz_coins_backend.Orders.Refund.{
  mark_order_as_failed, set_failed, refundable_amount, plan_order_refund, commit_order_refund,
  process_order_refund, RefundPlan, set_refunded, mark_order_as_completed,
}
use kanz_coins_backend.Orders.Once.{
  IsOnce, IsArmed, arm, paid-IsOnce, undated-clear, other-IsOnce, return_quantity-IsOnce,
}

module _ (round : Amount → Amount) where
  -- A refund of an order that was just flagged.
  pub refund-IsOnce :
      (user : ℕ) (w c : Amount) (id : ℕ) (db : Db)
      → IsArmed id db
      → IsOnce (refund_wallet_atomic round user w c (some id) db).1
  refund-IsOnce user w c id db h =
      paid-IsOnce id db (refund_wallet_atomic round user w c (some id) db).1 h
        (refund_at_most_once round user w c (some id) db)

  pub mark_order_as_failed-IsOnce :
      (tx : Bool) (now id : ℕ) → Keeps IsOnce (mark_order_as_failed round tx now id)
  mark_order_as_failed-IsOnce tx now id db h = elim (Option-cases (find id db.orders)) [
    | inl missing ↦ rw (mark_order_as_failed_missing round tx now id db missing) h
    | inr (o, found) ↦
        let armed : o.refunded ≡ false
            → IsArmed id (record db { orders = modify id (set_failed now) db.orders }) =
          λ clear. arm id (set_failed now) db h found clear (λ p. refl) (λ p. refl) in
        elim (mark_order_as_failed_cases round tx now id db o found) [
          | inl same ↦ rw same h
          | inr (undated, inl quota) ↦ rw quota (
              return_quantity-IsOnce o.user_id (pos o.quantity) _
                (armed (undated-clear id db o h found undated)).keeps)
          | inr (undated, inr paid) ↦ rw paid (
              refund-IsOnce o.user_id (refundable_amount o) o.credit_used_amount id _
                (armed (undated-clear id db o h found undated)))
        ]
  ]

  pub commit-IsOnce :
      (now id : ℕ) (p : RefundPlan) (db : Db)
      → IsOnce db
      → find id db.orders ≡ some p.order
      → p.order.refunded ≡ false
      → IsOnce (commit_order_refund round now id p db).1
  commit-IsOnce now id p db h found clear =
      let armed = arm id (set_refunded now p) db h found clear (λ q. refl) (λ q. refl) in
      elim (commit_order_refund_cases round now id p db) [
        | inl quota ↦ rw quota (return_quantity-IsOnce _ _ _ armed.keeps)
        | inr paid ↦ rw paid (refund-IsOnce p.order.user_id p.refund_amount (pos 0) id _ armed)
      ]

  pub process_order_refund-IsOnce :
      (tx : Bool) (now id : ℕ) (remains : ℤ)
      → Keeps IsOnce (process_order_refund round tx now id remains)
  unfolding process_order_refund
  process_order_refund-IsOnce tx now id remains =
      Keeps-in_session IsOnce tx (plan_order_refund id remains >>= commit_order_refund round now id)
        (λ db h. elim (Result-cases (plan_order_refund id remains db).0) [
          | inl (p, e) ↦
              let (found, clear) = plan_order_refund_found id remains db p e in
              rw (e, ◌>>=◌, plan_order_refund_reads id remains db)
                (commit-IsOnce now id p db h found clear)
          | inr (x, e) ↦ rw (e, ◌>>=◌, plan_order_refund_reads id remains db) h
        ])

pub mark_order_as_completed-IsOnce : (id : ℕ) → Keeps IsOnce (mark_order_as_completed id)
mark_order_as_completed-IsOnce id db h = elim (mark_order_as_completed_cases id db) [
  | inl same ↦ rw same h
  | inr (moved, _) ↦ rw moved (other-IsOnce id _ db h (λ p. refl) (λ p. refl))
]
