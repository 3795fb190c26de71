-- ===== src/Orders/Results.antt =====
-- What a predicate of the state needs to hold through `processOrderStatusResult` of
-- src/modules/orders/orderFulfillment.service.js: it holds through the transitions out of PROCESSING
-- and through the two refunds.
use kanz_coins_backend.Prelude.{
  ℕ, ◌+◌, ◌<◌, ◌≡◌, ◌⊎◌, inl, inr, refl, Bool, true, false, not, none, some, arith,
}
use kanz_coins_backend.Prelude.Int.{ℤ, pos}
use kanz_coins_backend.Prelude.Tests.{leb}
use kanz_coins_backend.Prelude.Exec.{
  Exec, Keeps, pure, ◌>>=◌, ◌>>◌, Keeps-bind, Keeps-catch, Keeps-if,
}
use kanz_coins_backend.Money.{Amount}
use kanz_coins_backend.Errors.{Error}
use kanz_coins_backend.Db.{Db, Order, OrderStatus, max_retry_count}
use kanz_coins_backend.Providers.Status.{
  Mapped, status, to_internal_status, is_terminal, requires_refund,
}
use kanz_coins_backend.Orders.Refund.{process_order_refund}
use kanz_coins_backend.Orders.Fulfillment.{
  Action, StatusResult, extract_remains, transition_from_processing, is_processing, set_terminal,
  set_partial, set_ended, set_checked, set_manual_review, if_moved, then_refund,
  refund_failed_order, count_retry, complete_terminal, refund_terminal, process_order_status_result,
}

-- The statuses that a result can set.
abbrev pub is_result : OrderStatus → Bool
is_result OrderStatus.pending = false
is_result OrderStatus.processing = false
is_result _ = true

-- An update that a status result may make: the guard of the refunds and the charge stay, the
-- status stays or is a result, and an order that is still PROCESSING has tries left.
pub record IsResult (f : Order → Order) : Type 0 where
  pub status : (o : Order) → ((f o).status ≡ o.status) ⊎ (is_result (f o).status ≡ true)
  pub retries :
      (o : Order) → is_processing (f o).status ≡ true → (f o).retry_count < max_retry_count
  pub refunded : (o : Order) → (f o).refunded ≡ o.refunded
  pub refunded_at : (o : Order) → (f o).refunded_at ≡ o.refunded_at
  pub user_id : (o : Order) → (f o).user_id ≡ o.user_id
  pub quantity : (o : Order) → (f o).quantity ≡ o.quantity
  pub wallet_deducted : (o : Order) → (f o).wallet_deducted ≡ o.wallet_deducted
  pub credit_used_amount : (o : Order) → (f o).credit_used_amount ≡ o.credit_used_amount
  pub charged_amount : (o : Order) → (f o).charged_amount ≡ o.charged_amount

-- A status that is set to a result.
sets-IsResult :
    (f : Order → Order) (s : OrderStatus)
    → is_result s ≡ true
    → ((o : Order)
        → f o ≡ (
            let o' = f o in
            record o {
              status = s;
              provider_status = o'.provider_status;
              last_checked_at = o'.last_checked_at;
              retry_count = o'.retry_count;
              remains = o'.remains;
              failed_at = o'.failed_at;
            }))
    → IsResult f
sets-IsResult f s e h = record {
  status = λ o. inr (ground (arith, h o));
  retries = λ o k. ground (arith, h o, k);
  refunded = λ o. ground (arith, h o);
  refunded_at = λ o. ground (arith, h o);
  user_id = λ o. ground (arith, h o);
  quantity = λ o. ground (arith, h o);
  wallet_deducted = λ o. ground (arith, h o);
  credit_used_amount = λ o. ground (arith, h o);
  charged_amount = λ o. ground (arith, h o);
}

set_checked-IsResult :
    (now n : ℕ) (result : StatusResult) → n < max_retry_count → IsResult (set_checked now n result)
set_checked-IsResult now n result h = record {
  status = λ o. inl refl;
  retries = λ o k. h;
  refunded = λ o. refl;
  refunded_at = λ o. refl;
  user_id = λ o. refl;
  quantity = λ o. refl;
  wallet_deducted = λ o. refl;
  credit_used_amount = λ o. refl;
  charged_amount = λ o. refl;
}

module _ {ℓ} (P : Db → Type ℓ)
    (on_transition : (id : ℕ) (f : Order → Order)
      → IsResult f
      → Keeps P (transition_from_processing id f)) where
  -- A transition and what follows it.
  moved-Keeps :
      (id : ℕ) (f : Order → Order) (next : Order → Exec Db Error Action)
      → IsResult f
      → ((o : Order) → Keeps P (next o))
      → Keeps P (transition_from_processing id f >>= λ moved. if_moved moved next)
  moved-Keeps id f next h keeps =
      Keeps-bind P (transition_from_processing id f) (λ moved. if_moved moved next)
        (on_transition id f h)
        (λ moved. elim moved as (λ k. Keeps P (if_moved k next)) [
          | none ↦ λ db p. p
          | some o ↦ keeps o
        ])

  then_refund-Keeps :
      {A : Type 0} (refund : Exec Db Error A) → Keeps P refund → Keeps P (then_refund refund)
  then_refund-Keeps refund keeps =
      Keeps-catch P (refund >> pure Action.failed) (λ _. pure Action.failed)
        (Keeps-bind P refund (λ _. pure Action.failed) keeps (λ _ db h. h)) (λ _ db h. h)

  complete_terminal-Keeps :
      (now id : ℕ) (result : StatusResult) → Keeps P (complete_terminal now id result)
  unfolding complete_terminal
  complete_terminal-Keeps now id result =
      moved-Keeps id (set_terminal now OrderStatus.completed result) (λ _. pure Action.completed)
        (sets-IsResult _ OrderStatus.completed refl (λ o. refl)) (λ _ db h. h)

  count_retry-Keeps :
      (now id : ℕ) (order : Order) (result : StatusResult)
      → Keeps P (count_retry now id order result)
  unfolding count_retry
  count_retry-Keeps now id order result =
      let n = order.retry_count + 1 in
      Keeps-if P (leb max_retry_count n) _ _
        (λ _.
          moved-Keeps id (set_manual_review now n result) (λ _. pure Action.manual_review)
            (sets-IsResult _ OrderStatus.manual_review refl (λ o. refl)) (λ _ db h. h))
        (λ below.
          moved-Keeps id (set_checked now n result) (λ _. pure Action.pending)
            (set_checked-IsResult now n result (ground arith)) (λ _ db h. h))

  module _ (round : Amount → Amount)
      (on_refund : (tx : Bool) (now id : ℕ) (remains : ℤ)
        → Keeps P (process_order_refund round tx now id remains))
      (on_refund_failed : (now id : ℕ) (order : Order)
        → Keeps P (refund_failed_order round now id order)) where
    refund_terminal-Keeps :
        (tx : Bool) (now id : ℕ) (result : StatusResult) (mapped : Mapped)
        → Keeps P (refund_terminal round tx now id result mapped)
    unfolding refund_terminal
    refund_terminal-Keeps tx now id result mapped =
        elim mapped as (λ m. Keeps P (refund_terminal round tx now id result m)) [
          | status OrderStatus.partial ↦
              moved-Keeps id (set_partial now result)
                (λ _. then_refund (process_order_refund round tx now id (extract_remains result)))
                (sets-IsResult _ OrderStatus.partial refl (λ o. refl))
                (λ _. then_refund-Keeps _ (on_refund tx now id (extract_remains result)))
          | status OrderStatus.canceled ↦
              moved-Keeps id (set_ended now OrderStatus.canceled result)
                (λ _. then_refund (process_order_refund round tx now id (pos 0)))
                (sets-IsResult _ OrderStatus.canceled refl (λ o. refl))
                (λ _. then_refund-Keeps _ (on_refund tx now id (pos 0)))
          | _ ↦
              moved-Keeps id (set_ended now OrderStatus.failed result)
                (λ o. then_refund (refund_failed_order round now id o))
                (sets-IsResult _ OrderStatus.failed refl (λ o. refl))
                (λ o. then_refund-Keeps _ (on_refund_failed now id o))
        ]

    pub status_result-Keeps :
        (tx : Bool) (now id : ℕ) (order : Order) (result : StatusResult)
        → Keeps P (process_order_status_result round tx now id order result)
    unfolding process_order_status_result
    status_result-Keeps tx now id order result =
        Keeps-if P (not (is_processing order.status)) _ _ (λ _ db h. h)
          (λ _.
            Keeps-if P (not (is_terminal result.provider_status)) _ _
              (λ _. count_retry-Keeps now id order result)
              (λ _.
                Keeps-if P (not (requires_refund result.provider_status)) _ _
                  (λ _. complete_terminal-Keeps now id result)
                  (λ _.
                    refund_terminal-Keeps tx now id result
                      (to_internal_status result.provider_status))))
