-- ===== src/Orders/Tests.antt =====
-- Test runs of the order services (orderFulfillment.service.js, orderPolling.service.js), and the
-- properties of their runs at a concrete order; Payments has those of the money they pay back.
mod Payments
use kanz_coins_backend.Prelude.{
  ℕ, ◌+◌, ◌*◌, ◌≤◌, ◌<◌, ◌≡◌, refl, true, false, Option, none, some, List, [], ◌∷◌, arith, ◌⊎◌, inl,
  inr, ◌/◌, ◌-◌,
}
use kanz_coins_backend.Prelude.Int.{pos, pos_part, ◌+ℤ◌, ◌-ℤ◌, ◌≤ℤ◌, max_ℤ, min_ℤ, abs, floor_div}
use kanz_coins_backend.Prelude.Lists.{All, length}
use kanz_coins_backend.Prelude.Tests.{if◌then◌else◌, leb}
use kanz_coins_backend.Prelude.Text.{codes, includes, get}
use kanz_coins_backend.Prelude.Table.{find, modify}
use kanz_coins_backend.Prelude.Exec.{ok}
use kanz_coins_backend.Prelude.Double.{to_double, raise, nearest_even, times, floor}
use kanz_coins_backend.Money.{unit, scale, safe_round, recalculate_credit_used, or_zero}
use kanz_coins_backend.Money.Cents.{IsCents, safe_round-eq}
use kanz_coins_backend.Db.{Db, User, UserStatus, Order, OrderStatus, max_retry_count}
use kanz_coins_backend.Wallet.{
  refund_wallet_atomic, debit_wallet_atomic, create_transaction_record, find_user_and_update,
  set_balance, credit_used_expression, key_taken,
}
use kanz_coins_backend.Wallet.Database.{KeepsCents}
use kanz_coins_backend.Wallet.Accounts.{IsFair, with_balance}
use kanz_coins_backend.Wallet.Charges.{debit_entry, refund_entry, credit_drawn}
use kanz_coins_backend.Wallet.Effects.{refund_count}
use kanz_coins_backend.Providers.Status.{
  is_terminal, requires_refund, to_internal_status, map_key, status_map, inherited_keys,
  full_refund_keys, partial_refund_keys,
}
use kanz_coins_backend.Orders.Refund.{
  mark_order_as_failed, process_order_refund, plan_order_refund, commit_order_refund, set_failed,
  set_refunded, refundable_amount, bills_by_quantity, proportional_refund,
}
use kanz_coins_backend.Orders.Fulfillment.{
  Action, RawValue, StatusResult, process_order_status_result, refund_terminal,
  transition_from_processing, find_order_and_update,
}
use kanz_coins_backend.Orders.Admin.{complete_order, set_completed}
use kanz_coins_backend.Orders.Once.{Once, IsOnce}
use kanz_coins_backend.Orders.Once.Runs.{OrderCall, after_all, refunded_at_most_once}
use kanz_coins_backend.Orders.Graph.{Continues}
use kanz_coins_backend.Orders.Graph.Automatic.{IsAutomatic, automatic_keeps_charges, settled_stays}
use kanz_coins_backend.Orders.Polling.{Waits, check_all, checks_end}
use kanz_coins_backend.Orders.Proportional.{proportional_bounds}
use kanz_coins_backend.Orders.Payments.{
  PaysBack, mark_order_as_failed_pays, process_order_refund_pays, refund_due, money_plan,
}
use kanz_coins_backend.Orders.Lifecycle.{IsCharged, fail_undoes_charge}
use kanz_coins_backend.Orders.Overrides.{complete_order_recharges}

-- An account with 40.00, and an order of 100 pieces that it paid 60.00 for.
abbrev pub carol : User
carol = record {
  status = UserStatus.active;
  wallet_balance = pos 40000000;
  credit_limit = none;
  credit_used = pos 0;
  group_id = none;
  quantity_limit = pos 0;
  quantity_used = pos 0;
  currency = none;
  deleted_at = none;
  referred_by = none;
  referred_at = none;
  referral_eligible_until = none;
  referral_commission_percent_override = none;
  referral_commission_stopped_at = none;
}

abbrev pub coins : Order
coins = record {
  user_id = 7;
  quantity = 100;
  wallet_deducted = pos 60000000;
  credit_used_amount = pos 0;
  charged_amount = some (pos 60000000);
  status = OrderStatus.processing;
  provider_status = none;
  provider_order_id = some (codes "P1");
  retry_count = 118;
  remains = pos 0;
  refunded = false;
  refunded_at = none;
  failed_at = none;
  last_checked_at = none;
}

abbrev pub shop : Db
shop = record {
  users = (7, carol) ∷ [];
  groups = [];
  orders = (1, coins) ∷ [];
  wallet_transactions = [];
}

abbrev partial_30 : StatusResult
partial_30 = record {
  provider_status = some (codes "Partial");
  remains = RawValue.text (codes "30");
  data_remains = RawValue.absent;
}

abbrev partial_unknown : StatusResult
partial_unknown = record {
  provider_status = some (codes "Partial");
  remains = RawValue.absent;
  data_remains = RawValue.absent;
}

abbrev pending_result : StatusResult
pending_result = record {
  provider_status = some (codes "Pending");
  remains = RawValue.absent;
  data_remains = RawValue.absent;
}

-- With 30 of 100 pieces missing, 18.00 of the 60.00 come back.
partial_pays_share :
    let (r, db) = process_order_status_result safe_round true 5 1 coins partial_30 shop in
    (r ≡ ok Action.failed)
    × (find 7 db.users ≡ some (record carol { wallet_balance = pos 58000000 }))
unfolding process_order_status_result refund_terminal transition_from_processing
    find_order_and_update process_order_refund plan_order_refund commit_order_refund
    bills_by_quantity proportional_refund to_double raise nearest_even times floor is_terminal
    requires_refund to_internal_status map_key status_map inherited_keys full_refund_keys
    partial_refund_keys includes get refund_wallet_atomic create_transaction_record
    find_user_and_update find modify set_balance credit_used_expression safe_round scale floor_div
    ◌+ℤ◌ ◌-ℤ◌ abs min_ℤ max_ℤ recalculate_credit_used key_taken
partial_pays_share = (refl, refl)

-- With 29 of 100 pieces missing, only 28.00 of 100.00 come back: the product of the doubles is below 29.
floor_loses_a_unit : proportional_refund (pos 100000000) 29 100 ≡ pos 28000000
unfolding proportional_refund to_double raise nearest_even times floor
floor_loses_a_unit = refl

-- A partial result with no count of the missing pieces gives the whole charge back.
partial_without_remains :
    let (r, db) = process_order_status_result safe_round true 5 1 coins partial_unknown shop in
    (r ≡ ok Action.failed)
    × (find 7 db.users ≡ some (record carol { wallet_balance = pos 100000000 }))
unfolding process_order_status_result refund_terminal transition_from_processing
    find_order_and_update process_order_refund plan_order_refund commit_order_refund
    bills_by_quantity proportional_refund to_double raise nearest_even times floor is_terminal
    requires_refund to_internal_status map_key status_map inherited_keys full_refund_keys
    partial_refund_keys includes get refund_wallet_atomic create_transaction_record
    find_user_and_update find modify set_balance credit_used_expression safe_round scale floor_div
    ◌+ℤ◌ ◌-ℤ◌ abs min_ℤ max_ℤ recalculate_credit_used key_taken
partial_without_remains = (refl, refl)

pub server_round : KeepsCents safe_round
server_round = record { on_cents = safe_round-eq }

pub found_coins : find 1 shop.orders ≡ some coins
unfolding find
found_coins = refl

pub found_carol : find 7 shop.users ≡ some carol
unfolding find
found_carol = refl

pub carol-IsFair : IsFair carol
unfolding recalculate_credit_used safe_round scale floor_div ◌+ℤ◌ abs
carol-IsFair = record {
  cents = record { above = refl; below = refl };
  limit_cents = record { above = refl; below = refl };
  limit_nonneg = omega arith;
  mirror = refl;
}

only_coins : (id : ℕ) → (find id shop.orders ≡ none) ⊎ (find id shop.orders ≡ some coins)
unfolding find
only_coins id = ground arith

unrefunded : (o : Option Order) → (o ≡ none) ⊎ (o ≡ some coins) → Once o 0
unrefunded o (inl e) = rw e refl
unrefunded o (inr e) = rw e (omega arith, λ _. refl, λ c. ground arith)

shop-IsOnce : IsOnce shop
shop-IsOnce = record { once = λ id. unrefunded (find id shop.orders) (only_coins id) }

-- A check that fails the order, the administrator's refund of it, and one more check.
abbrev calls : List OrderCall
calls =
    OrderCall.status_result true 5 1 coins partial_30
    ∷ OrderCall.admin_refund false 6 1 (pos 30)
    ∷ OrderCall.mark_failed false 7 1
    ∷ []

refunded_at_most_once_example :
    refund_count 1 (after_all safe_round calls shop).wallet_transactions ≤ 1
refunded_at_most_once_example = refunded_at_most_once safe_round calls shop 1 shop-IsOnce

abbrev checks : List OrderCall
checks =
    OrderCall.status_result true 5 1 coins partial_30
    ∷ OrderCall.refund false 6 1 (pos 30)
    ∷ OrderCall.mark_completed 1
    ∷ []

checks-IsAutomatic : All IsAutomatic checks
checks-IsAutomatic = (refl, (refl, (refl, tt)))

automatic_keeps_charges_example :
    (o : Order) × (find 1 (after_all safe_round checks shop).orders ≡ some o) × Continues coins o
automatic_keeps_charges_example =
    automatic_keeps_charges safe_round checks shop 1 coins checks-IsAutomatic found_coins

pending_result-Waits : Waits pending_result
unfolding is_terminal to_internal_status map_key status_map get
pending_result-Waits = refl

-- The order has two tries left.
checks_end_example :
    let results = pending_result ∷ pending_result ∷ pending_result ∷ [] in
    let db' = check_all safe_round true 5 1 results shop in
    ((o : Order) × (find 1 db'.orders ≡ some o)
      × (o.status ≡ (
          if leb max_retry_count (118 + length results)
          then OrderStatus.manual_review
          else OrderStatus.processing)))
    × (db'.users ≡ shop.users)
    × (db'.wallet_transactions ≡ shop.wallet_transactions)
checks_end_example =
    checks_end safe_round true 5 1 (pending_result ∷ pending_result ∷ pending_result ∷ []) shop
      coins found_coins refl (omega arith)
      (pending_result-Waits, (pending_result-Waits, (pending_result-Waits, tt)))

proportional_bounds_example :
    let share = 100000000 * 29 / (100 * unit) in
    (proportional_refund (pos 100000000) 29 100 ≡ pos (share * unit))
    ⊎ (100000000 * 29 ≡ share * (100 * unit))
      × (1 ≤ share)
      × (proportional_refund (pos 100000000) 29 100 ≡ pos ((share - 1) * unit))
proportional_bounds_example =
    proportional_bounds 100000000 29 100 (omega arith) (omega arith) (omega arith) (omega arith)
      (omega arith)
