-- ===== src/Orders/Graph/Automatic.antt =====
-- The automatic calls of src/modules/orders/orderFulfillment.service.js and
-- src/modules/orders/order.service.js against the status graph.
use kanz_coins_backend.Prelude.{
  ℕ, ◌≡◌, ◌⊎◌, inl, inr, refl, Bool, true, false, Option, some, List, [], ◌∷◌, arith,
}
use kanz_coins_backend.Prelude.Int.{ℤ, pos}
use kanz_coins_backend.Prelude.Lists.{All}
use kanz_coins_backend.Prelude.Tests.{Bool-cases, Option-cases}
use kanz_coins_backend.Prelude.Table.{Table, find, modify}
use kanz_coins_backend.Prelude.Exec.{Keeps, Result-cases, ◌>>=◌, Keeps-in_session}
use kanz_coins_backend.Money.{Amount}
use kanz_coins_backend.Db.{Db, Order, OrderStatus}
use kanz_coins_backend.Wallet.{refund_wallet_atomic}
use kanz_coins_backend.Wallet.Effects.{refund_at_most_once}
use kanz_coins_backend.Orders.Branches.{
  plan_order_refund_reads, commit_order_refund_cases, mark_order_as_completed_cases,
  pay_refund_cases, refund_failed_order_unflagged, refund_failed_order_flagged,
  refund_failed_order_missing, transition_cases,
}
use kanz_coins_backend.Orders.Refund.{
  plan_order_refund, commit_order_refund, process_order_refund, RefundPlan, set_refunded,
  refundable_amount, mark_order_as_completed, return_quantity, is_pending,
}
use kanz_coins_backend.Orders.Fulfillment.{
  transition_from_processing, is_processing, refund_failed_order, pay_refund, set_refund_flag,
  clear_refund_flag, process_order_status_result,
}
use kanz_coins_backend.Orders.Results.{IsResult, is_result, status_result-Keeps}
use kanz_coins_backend.Orders.Once.Runs.{OrderCall, after, after_all}
use kanz_coins_backend.Orders.Graph.{
  Follows, Continues, AllContinue, AllContinue-refl, save-AllContinue, same-AllContinue,
}

Follows-result :
    (s t : OrderStatus) → is_processing s ≡ true → (t ≡ s) ⊎ (is_result t ≡ true) → Follows s t
Follows-result OrderStatus.processing t e (inl same) = rw same Follows.stays
Follows-result OrderStatus.processing t e (inr r) = Follows.result r
Follows-result _ t e h = absurd (ground (arith, e))

Follows-placed : (s : OrderStatus) → is_pending s ≡ true → Follows s OrderStatus.completed
Follows-placed OrderStatus.pending e = Follows.placed
Follows-placed _ e = absurd (ground (arith, e))

module _ (before : Table Order) where
  transition-AllContinue :
      (id : ℕ) (f : Order → Order)
      → IsResult f
      → Keeps (AllContinue before) (transition_from_processing id f)
  transition-AllContinue id f fits db h = elim (transition_cases id f db) [
    | inl same ↦ rw same h
    | inr (moved, here) ↦ rw moved (
        save-AllContinue before id f db h (λ o found. record {
          status = Follows-result o.status (f o).status (here o found) (fits.status o);
          user_id = fits.user_id o;
          quantity = fits.quantity o;
          wallet_deducted = fits.wallet_deducted o;
          credit_used_amount = fits.credit_used_amount o;
          charged_amount = fits.charged_amount o;
        }))
  ]

  -- A save of the refund's own fields.
  refund_fields :
      (id : ℕ) (f : Order → Order) (db : Db)
      → AllContinue before db
      → ((o : Order)
          → f o ≡ (
              let o' = f o in
              record o {
                refunded = o'.refunded;
                refunded_at = o'.refunded_at;
                remains = o'.remains;
              }))
      → AllContinue before (record db { orders = modify id f db.orders })
  refund_fields id f db h same = save-AllContinue before id f db h (λ o _. rw (same o) (record {
    status = Follows.stays;
    user_id = refl;
    quantity = refl;
    wallet_deducted = refl;
    credit_used_amount = refl;
    charged_amount = refl;
  }))

  completed-AllContinue : (id : ℕ) → Keeps (AllContinue before) (mark_order_as_completed id)
  completed-AllContinue id db h = elim (mark_order_as_completed_cases id db) [
    | inl same ↦ rw same h
    | inr (moved, here) ↦ rw moved (
        save-AllContinue before id (λ o. record o { status = OrderStatus.completed }) db h
          (λ o found. record {
            status = Follows-placed o.status (here o found);
            user_id = refl;
            quantity = refl;
            wallet_deducted = refl;
            credit_used_amount = refl;
            charged_amount = refl;
          }))
  ]

  module _ (round : Amount → Amount) where
    wallet-AllContinue :
        (user : ℕ) (w c : Amount) (reference : Option ℕ)
        → Keeps (AllContinue before) (refund_wallet_atomic round user w c reference)
    wallet-AllContinue user w c reference db =
        same-AllContinue before db (refund_wallet_atomic round user w c reference db).1
          (refund_at_most_once round user w c reference db).orders

    commit-AllContinue :
        (now id : ℕ) (p : RefundPlan)
        → Keeps (AllContinue before) (commit_order_refund round now id p)
    unfolding return_quantity
    commit-AllContinue now id p db h =
        let saved = refund_fields id (set_refunded now p) db h (λ o. refl) in
        elim (commit_order_refund_cases round now id p db) [
          | inl quota ↦ rw quota (record { kept = saved.kept })
          | inr paid ↦
              rw paid (wallet-AllContinue p.order.user_id p.refund_amount (pos 0) (some id) _ saved)
        ]

    process_order_refund-AllContinue :
        (tx : Bool) (now id : ℕ) (remains : ℤ)
        → Keeps (AllContinue before) (process_order_refund round tx now id remains)
    unfolding process_order_refund
    process_order_refund-AllContinue tx now id remains =
        Keeps-in_session (AllContinue before) tx
          (plan_order_refund id remains >>= commit_order_refund round now id)
          (λ db h. elim (Result-cases (plan_order_refund id remains db).0) [
            | inl (p, e) ↦
                rw (e, ◌>>=◌, plan_order_refund_reads id remains db)
                  (commit-AllContinue now id p db h)
            | inr (x, e) ↦ rw (e, ◌>>=◌, plan_order_refund_reads id remains db) h
          ])

    pay_refund-AllContinue :
        (id : ℕ) (order : Order) → Keeps (AllContinue before) (pay_refund round id order)
    pay_refund-AllContinue id order db h = elim (pay_refund_cases round id order db) [
      | inl undone ↦ rw undone (refund_fields id clear_refund_flag db h (λ o. refl))
      | inr paid ↦ rw paid (
          wallet-AllContinue order.user_id (refundable_amount order) order.credit_used_amount
            (some id) db h)
    ]

    refund_failed_order-AllContinue :
        (now id : ℕ) (order : Order)
        → Keeps (AllContinue before) (refund_failed_order round now id order)
    refund_failed_order-AllContinue now id order db h = elim (Option-cases (find id db.orders)) [
      | inl missing ↦ rw (refund_failed_order_missing round now id order db missing) h
      | inr (o, found) ↦ elim (Bool-cases o.refunded) [
        | inl flag ↦ rw (refund_failed_order_flagged round now id order db o found flag) h
        | inr clear ↦ rw (refund_failed_order_unflagged round now id order db o found clear) (
            pay_refund-AllContinue id order _
              (refund_fields id (set_refund_flag now) db h (λ o. refl)))
      ]
    ]

    status_result-AllContinue :
        (tx : Bool) (now id : ℕ) (order : Order) (result : _)
        → Keeps (AllContinue before) (process_order_status_result round tx now id order result)
    status_result-AllContinue =
        status_result-Keeps (AllContinue before) transition-AllContinue round
          process_order_refund-AllContinue refund_failed_order-AllContinue

-- The calls that neither mark an order as failed nor come from an administrator's refund.
abbrev pub is_automatic : OrderCall → Bool
is_automatic (OrderCall.refund tx now id remains) = true
is_automatic (OrderCall.refund_failed now id order) = true
is_automatic (OrderCall.status_result tx now id order result) = true
is_automatic (OrderCall.mark_completed id) = true
is_automatic _ = false

abbrev pub IsAutomatic : OrderCall → Type 0
IsAutomatic call = is_automatic call ≡ true

module _ (round : Amount → Amount) where
  after-AllContinue :
      (before : Table Order) (call : OrderCall) (db : Db)
      → IsAutomatic call
      → AllContinue before db
      → AllContinue before (after round call db)
  after-AllContinue before (OrderCall.refund tx now id remains) db auto =
      process_order_refund-AllContinue before round tx now id remains db
  after-AllContinue before (OrderCall.refund_failed now id order) db auto =
      refund_failed_order-AllContinue before round now id order db
  after-AllContinue before (OrderCall.status_result tx now id order result) db auto =
      status_result-AllContinue before round tx now id order result db
  after-AllContinue before (OrderCall.mark_completed id) db auto =
      completed-AllContinue before id db
  after-AllContinue before _ db auto = absurd (ground (arith, auto))

  run-AllContinue :
      (before : Table Order) (calls : List OrderCall) (db : Db)
      → All IsAutomatic calls
      → AllContinue before db
      → AllContinue before (after_all round calls db)
  run-AllContinue before [] db auto h = h
  run-AllContinue before (call ∷ calls) db auto h =
      run-AllContinue before calls (after round call db) auto.1
        (after-AllContinue before call db auto.0 h)

  -- Any sequence of automatic calls (status results, refunds, refunds of failed orders, completions of
  -- PENDING orders) loses no order, changes neither an order's user and quantity nor its charge, and
  -- moves a status only from PENDING to COMPLETED or from PROCESSING to a result.
  pub automatic_keeps_charges :
      (calls : List OrderCall) (db : Db) (id : ℕ) (o : Order)
      → All IsAutomatic calls
      → find id db.orders ≡ some o
      → (o' : Order) × (find id (after_all round calls db).orders ≡ some o') × Continues o o'
  automatic_keeps_charges calls db id o auto found =
      (run-AllContinue db.orders calls db auto (AllContinue-refl db)).kept id o found

  settled :
      (s t : OrderStatus) → is_pending s ≡ false → is_processing s ≡ false → Follows s t → t ≡ s
  settled s t p q Follows.stays = refl
  settled _ _ p q Follows.placed = absurd (ground (arith, p))
  settled _ _ p q (Follows.result e) = absurd (ground (arith, q))

  -- An order that is neither PENDING nor PROCESSING keeps its status through any sequence of automatic
  -- calls.
  pub settled_stays :
      (calls : List OrderCall) (db : Db) (id : ℕ) (o : Order)
      → All IsAutomatic calls
      → find id db.orders ≡ some o
      → is_pending o.status ≡ false
      → is_processing o.status ≡ false
      → (o' : Order) × (find id (after_all round calls db).orders ≡ some o')
        × (o'.status ≡ o.status)
  settled_stays calls db id o auto found p q =
      let (o', found', c) = automatic_keeps_charges calls db id o auto found in
      (o', found', settled o.status o'.status p q c.status)
