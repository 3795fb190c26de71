-- ===== src/Deposits/Tests.antt =====
-- Test runs of src/modules/deposits/deposit.service.js, and its properties at a concrete store with
-- one deposit that waits.
use kanz_coins_backend.Prelude.{ℕ, ◌≡◌, refl, false, Option, none, some, List, [], ◌∷◌, inl, inr}
use kanz_coins_backend.Prelude.Int.{pos, ◌+ℤ◌, max_ℤ, abs, floor_div}
use kanz_coins_backend.Prelude.Tests.{◌==◌, Bool-cases}
use kanz_coins_backend.Prelude.Text.{Text, codes}
use kanz_coins_backend.Prelude.Table.{find, modify}
use kanz_coins_backend.Prelude.Exec.{ok, err}
use kanz_coins_backend.Money.{safe_round, scale, recalculate_credit_used}
use kanz_coins_backend.Errors.{receipt_required}
use kanz_coins_backend.Db.{User, UserStatus}
use kanz_coins_backend.Wallet.{
  credit_wallet_direct, create_transaction_record, find_user_and_update, set_balance,
  credit_used_expression,
}
use kanz_coins_backend.Store.{
  Store, Currency, DepositRequest, DepositStatus, ProcessingStatus, CommissionOutcome,
}
use kanz_coins_backend.Commissions.{process_deposit_referral_commission}
use kanz_coins_backend.Commissions.Marks.{set_mark, not_applicable, mark_deposit_commission}
use kanz_coins_backend.Commissions.Referrals.{evaluate_referral_eligibility}
use kanz_coins_backend.Payouts.{payable_user}
use kanz_coins_backend.Payouts.Review.{to_cents}
use kanz_coins_backend.Deposits.{
  AdminOverrides, approve_deposit, approve_in_transaction, credit_deposit, review_pending,
  wallet_credit_amount, convert_amount, set_amounts, set_approved, update_pending_read,
  update_pending_save,
}
use kanz_coins_backend.Deposits.Requests.{DepositInput, is_too_small, create_deposit_request}
use kanz_coins_backend.Deposits.Automation.{is_automated_payment_method, find_configured}
use kanz_coins_backend.Deposits.Once.{
  CreditsOnce, credit_count, due_credits, DepositCall, run, credited_once,
}
use kanz_coins_backend.Deposits.Edits.{late_edit_changes_approved}

abbrev usd : Text
usd = codes "USD"

abbrev mona : User
mona = record {
  status = UserStatus.active;
  wallet_balance = pos 40000000;
  credit_limit = none;
  credit_used = pos 0;
  group_id = none;
  quantity_limit = pos 0;
  quantity_used = pos 0;
  currency = none;
  deleted_at = none;
  referred_by = none;
  referred_at = none;
  referral_eligible_until = none;
  referral_commission_percent_override = none;
  referral_commission_stopped_at = none;
}

abbrev waiting : DepositRequest
waiting = record {
  user_id = 2;
  requested_amount = pos 100000000;
  currency = usd;
  exchange_rate = 1000000;
  amount_usd = pos 100000000;
  receipt_image = some (codes "r.png");
  payment_transaction_id = none;
  status = DepositStatus.pending;
  admin_notes = none;
  reviewed_by = none;
  reviewed_at = none;
  review_source = none;
  payment_event_id = none;
  commission_processing_status = ProcessingStatus.not_applicable;
  commission_outcome = none;
  commission_id = none;
  commission_processed_at = none;
  commission_error = none;
}

abbrev desk : Store
desk = record {
  db = record { users = (2, mona) ∷ []; groups = []; orders = []; wallet_transactions = [] };
  deposits = (53, waiting) ∷ [];
  commissions = [];
  payouts = [];
  currencies = [];
  default_percent = none;
}

abbrev quotient : ℕ → ℕ → ℕ
quotient a b = 0

abbrev no_cache : Text → Option Currency
no_cache code = none

abbrev no_overrides : AdminOverrides
no_overrides = record {
  amount = none;
  currency = none;
  admin_notes = none;
  payment_event_id = none;
  review_source = none;
}

abbrev bank_transfer : DepositInput
bank_transfer = record {
  user_id = 2;
  payment_method_id = codes "bank";
  requested_amount = pos 25000000;
  currency = usd;
  exchange_rate = 1000000;
  amount_usd = pos 25000000;
  receipt_image = codes "b.png";
  payment_transaction_id = [];
}

-- 100.00 at a rate of 50 to the dollar, for a wallet at a rate of 3.75.
converted : convert_amount (pos 100000000) 50000000 3750000 ≡ pos 7500000
unfolding convert_amount
converted = refl

no_receipt :
    (create_deposit_request [] 54 (record bank_transfer { receipt_image = codes "  " }) desk).0
    ≡ err receipt_required
unfolding create_deposit_request find is_automated_payment_method find_configured
no_receipt = refl

desk-CreditsOnce : CreditsOnce desk
unfolding find
desk-CreditsOnce = record {
  at = λ j. elim (Bool-cases (j == 53)) [ inl same ↦ rw same refl | inr other ↦ rw other refl ];
}

abbrev calls : List DepositCall
calls =
    DepositCall.request 54 bank_transfer
    ∷ DepositCall.approve 53 61 (some 9) 70 no_overrides
    ∷ DepositCall.save 53 (pos 90000000) waiting
    ∷ DepositCall.approve 53 62 (some 9) 80 no_overrides
    ∷ DepositCall.reject 54 9 90 none
    ∷ []

credited_once_example :
    let s = run [] safe_round quotient no_cache calls desk in
    credit_count 53 s.db.wallet_transactions ≡ due_credits (find 53 s.deposits)
credited_once_example = credited_once [] safe_round quotient no_cache calls desk 53 desk-CreditsOnce

abbrev approved_desk : Store
approved_desk = (approve_deposit safe_round quotient no_cache 53 61 (some 9) 70 no_overrides desk).1

abbrev approved : DepositRequest
approved =
    set_mark (not_applicable CommissionOutcome.not_referred 70)
      (set_approved (some 9) 70 no_overrides (pos 100000000) usd waiting)

found_approved : find 53 approved_desk.deposits ≡ some approved
unfolding approve_deposit approve_in_transaction credit_deposit review_pending wallet_credit_amount
    credit_wallet_direct create_transaction_record find_user_and_update set_balance
    credit_used_expression recalculate_credit_used safe_round scale floor_div abs max_ℤ ◌+ℤ◌
    process_deposit_referral_commission mark_deposit_commission evaluate_referral_eligibility
    payable_user to_cents find modify
found_approved = refl

in_range : is_too_small (set_amounts (pos 90000000) 1000000 waiting) ≡ false
unfolding to_cents
in_range = refl

late_edit_changes_approved_example :
    let changed = set_amounts (pos 90000000) 1000000 waiting in
    let (r, after) = update_pending_save 53 (pos 90000000) waiting approved_desk in
    (update_pending_read 53 desk ≡ (ok waiting, desk))
    × (r ≡ ok changed)
    × (find 53 after.deposits
        ≡ some (record approved {
          requested_amount = changed.requested_amount;
          amount_usd = changed.amount_usd;
        }))
    × (after.db ≡ approved_desk.db)
unfolding find
late_edit_changes_approved_example =
    late_edit_changes_approved 53 (pos 90000000) desk approved_desk waiting approved refl refl
      found_approved refl in_range
