-- ===== src/Orders/Payments.antt =====
-- What the refunds of src/modules/orders/order.service.js pay: `markOrderAsFailed` and
-- `processOrderRefund` on the branch where they succeed.
use kanz_coins_backend.Prelude.{ℕ, ◌≡◌, ◌≢◌, subst, refl, ap, ◌∙◌, Bool, false, some, ◌∷◌, arith}
use kanz_coins_backend.Prelude.Int.{ℤ, pos, ◌+ℤ◌, ◌≤ℤ◌}
use kanz_coins_backend.Prelude.Tests.{if◌then◌else◌}
use kanz_coins_backend.Prelude.Table.{find, modify, find-modify_self, find-modify_ne}
use kanz_coins_backend.Prelude.Exec.{ok}
use kanz_coins_backend.Money.{Amount}
use kanz_coins_backend.Money.Cents.{IsCents, zero-IsCents}
use kanz_coins_backend.Db.{Db, User, Order, WalletTransaction}
use kanz_coins_backend.Wallet.{refund_wallet_atomic}
use kanz_coins_backend.Wallet.Database.{KeepsCents}
use kanz_coins_backend.Wallet.Accounts.{IsFair, Moves, with_balance}
use kanz_coins_backend.Wallet.Charges.{refund_entry}
use kanz_coins_backend.Wallet.Credits.{refund_pays}
use kanz_coins_backend.Wallet.RoundTrip.{refund_total-eq}
use kanz_coins_backend.Orders.Refund.{
  mark_order_as_failed, process_order_refund, plan_order_refund, commit_order_refund, set_failed,
  set_refunded, refundable_amount, is_failed, is_some, charged_or_deducted, proportional_refund,
  is_partial_refund, to_count, RefundPlan,
}

-- A refund on the order `o` of `id`, saved as `o'`: the account of its user gets the amount, the
-- ledger one entry for the order, and no other order or account changes.
pub record PaysBack (id : ℕ) (o o' : Order) (u : User) (amount : Amount) (db db' : Db)
    : Type 0 where
  pub order : find id db'.orders ≡ some o'
  pub account : find o.user_id db'.users ≡ some (with_balance u (u.wallet_balance +ℤ amount))
  pub other_orders : (j : ℕ) → j ≢ id → find j db'.orders ≡ find j db.orders
  pub other_accounts : (j : ℕ) → j ≢ o.user_id → find j db'.users ≡ find j db.users
  pub ledger :
      db'.wallet_transactions ≡ refund_entry o.user_id u amount (some id) ∷ db.wallet_transactions

module _ (round : Amount → Amount) (keeps : KeepsCents round) where
  pays_back :
      (id : ℕ) (o : Order) (f : Order → Order) (amount credit : Amount) (db : Db) (u : User)
      → find id db.orders ≡ some o
      → find o.user_id db.users ≡ some u
      → IsFair u
      → IsCents amount
      → IsCents credit
      → pos 1 ≤ℤ amount
      → let saved = record db { orders = modify id f db.orders } in
        let (r, db') = refund_wallet_atomic round o.user_id amount credit (some id) saved in
        (r ≡ ok (refund_entry o.user_id u amount (some id))) × PaysBack id o (f o) u amount db db'
  pays_back id o f amount credit db u found account fair cents credit_cents positive =
      let saved = record db { orders = modify id f db.orders } in
      let run = refund_wallet_atomic round o.user_id amount credit (some id) saved in
      let (r, m) =
        subst
          (λ t.
            (run.0 ≡ ok (refund_entry o.user_id u t (some id)))
            × Moves o.user_id u (u.wallet_balance +ℤ t) (refund_entry o.user_id u t (some id)) saved
                run.1)
          (refund_total-eq amount credit positive)
          (refund_pays round keeps o.user_id amount credit (some id) saved u account fair cents
            credit_cents (rw (refund_total-eq amount credit positive) positive)) in
      (
        r,
        record {
          order = ap (find id) m.orders ∙ find-modify_self id f db.orders found;
          account = m.account;
          other_orders = λ j ne. ap (find j) m.orders ∙ find-modify_ne j id f db.orders ne;
          other_accounts = m.others;
          ledger = m.ledger;
        },
      )

  mark_order_as_failed_runs :
      (tx : Bool) (now id : ℕ) (db : Db) (o : Order) (t : WalletTransaction)
      → find id db.orders ≡ some o
      → is_failed o.status ≡ false
      → is_some o.refunded_at ≡ false
      → pos 1 ≤ℤ refundable_amount o
      → let saved = record db { orders = modify id (set_failed now) db.orders } in
        let (r, db') =
          refund_wallet_atomic round o.user_id
            (refundable_amount o)
            o.credit_used_amount
            (some id)
            saved in
        r ≡ ok t → mark_order_as_failed round tx now id db ≡ (ok (set_failed now o), db')
  unfolding mark_order_as_failed
  mark_order_as_failed_runs tx now id db o t found going undated positive paid =
      ground (arith, found, going, undated, positive, paid)

  -- Marking an order as failed, with or without a session: an order of a fair account that is not
  -- FAILED, has no refund date and has a positive refundable amount in whole cents is saved as FAILED
  -- and refunded, its user gets exactly that amount, the ledger one refund for the order, and no other
  -- order or account changes.
  pub mark_order_as_failed_pays :
      (tx : Bool) (now id : ℕ) (db : Db) (o : Order) (u : User)
      → find id db.orders ≡ some o
      → find o.user_id db.users ≡ some u
      → IsFair u
      → is_failed o.status ≡ false
      → is_some o.refunded_at ≡ false
      → IsCents (refundable_amount o)
      → IsCents o.credit_used_amount
      → pos 1 ≤ℤ refundable_amount o
      → let (r, db') = mark_order_as_failed round tx now id db in
        (r ≡ ok (set_failed now o))
        × PaysBack id o (set_failed now o) u (refundable_amount o) db db'
  mark_order_as_failed_pays tx now id db o u found account fair going undated cents credit_cents
        positive =
      let (r, pays) =
        pays_back id o (set_failed now) (refundable_amount o) o.credit_used_amount db u found
          account fair cents credit_cents positive in
      rw
        (mark_order_as_failed_runs tx now id db o
          (refund_entry o.user_id u (refundable_amount o) (some id)) found going undated positive r)
        (refl, pays)

-- What `processOrderRefund` pays for an order.
abbrev pub refund_due : Order → ℤ → Amount
refund_due o remains =
    let charged = charged_or_deducted o in
    if is_partial_refund (to_count remains) o.quantity
    then proportional_refund charged (to_count remains) o.quantity
    else charged

-- The plan for an order with a positive charge.
abbrev pub money_plan : Order → ℤ → RefundPlan
money_plan o remains = record {
  order = o;
  remains_count = to_count remains;
  is_partial = is_partial_refund (to_count remains) o.quantity;
  is_quantity_only_refund = false;
  refund_amount = refund_due o remains;
}

plan_runs :
    (id : ℕ) (remains : ℤ) (db : Db) (o : Order)
    → find id db.orders ≡ some o
    → o.refunded ≡ false
    → pos 1 ≤ℤ charged_or_deducted o
    → pos 1 ≤ℤ refund_due o remains
    → plan_order_refund id remains db ≡ (ok (money_plan o remains), db)
unfolding plan_order_refund
plan_runs id remains db o found clear positive due = ground (arith, found, clear, positive, due)

module _ (round : Amount → Amount) (keeps : KeepsCents round) where
  commit_runs :
      (now id : ℕ) (remains : ℤ) (db : Db) (o : Order) (t : WalletTransaction)
      → let plan = money_plan o remains in
        let saved = record db { orders = modify id (set_refunded now plan) db.orders } in
        let (r, db') =
          refund_wallet_atomic round o.user_id (refund_due o remains) (pos 0) (some id) saved in
        r ≡ ok t → commit_order_refund round now id plan db ≡ (ok (set_refunded now plan o), db')
  unfolding commit_order_refund
  commit_runs now id remains db o t paid = ground (arith, paid)

  process_order_refund_runs :
      (tx : Bool) (now id : ℕ) (remains : ℤ) (db : Db) (o : Order) (db' : Db)
      → let plan = money_plan o remains in
        plan_order_refund id remains db ≡ (ok plan, db)
        → commit_order_refund round now id plan db ≡ (ok (set_refunded now plan o), db')
        → process_order_refund round tx now id remains db ≡ (ok (set_refunded now plan o), db')
  unfolding process_order_refund
  process_order_refund_runs tx now id remains db o db' planned committed =
      ground (arith, planned, committed)

  -- Refunding an order of a fair account that is not flagged as refunded, with or without a session,
  -- where the charge and the refund due are positive and the refund due is in whole cents: the order
  -- is saved as refunded, its user gets the whole units of the charge's share that the doubles of the
  -- code come to for `remains` of the quantity, or the whole charge where `remains` is not a proper
  -- part of the quantity, the ledger gets one refund, and no other order or account changes.
  pub process_order_refund_pays :
      (tx : Bool) (now id : ℕ) (remains : ℤ) (db : Db) (o : Order) (u : User)
      → find id db.orders ≡ some o
      → find o.user_id db.users ≡ some u
      → IsFair u
      → o.refunded ≡ false
      → pos 1 ≤ℤ charged_or_deducted o
      → IsCents (refund_due o remains)
      → pos 1 ≤ℤ refund_due o remains
      → let o' = set_refunded now (money_plan o remains) o in
        let (r, db') = process_order_refund round tx now id remains db in
        (r ≡ ok o') × PaysBack id o o' u (refund_due o remains) db db'
  process_order_refund_pays tx now id remains db o u found account fair clear charged cents due =
      let plan = money_plan o remains in
      let (r, pays) =
        pays_back round keeps id o (set_refunded now plan) (refund_due o remains) (pos 0) db u found
          account fair cents zero-IsCents due in
      let planned = plan_runs id remains db o found clear charged due in
      let committed =
        commit_runs now id remains db o (refund_entry o.user_id u (refund_due o remains) (some id))
          r in
      rw (process_order_refund_runs tx now id remains db o _ planned committed) (refl, pays)
