-- ===== src/Commissions/Tests.antt =====
-- Test runs of src/modules/referrals/referralCommission.service.js, and its property at a concrete
-- deposit, of 100.00 dollars by a user whom another brought.
use kanz_coins_backend.Prelude.{false, ℕ, ◌+◌, ◌*◌, ◌/◌, ◌≡◌, refl, true, none, some, [], ◌∷◌}
use kanz_coins_backend.Prelude.Int.{pos}
use kanz_coins_backend.Prelude.Text.{Text, codes, get}
use kanz_coins_backend.Prelude.Table.{find, modify}
use kanz_coins_backend.Prelude.Exec.{ok, err}
use kanz_coins_backend.Errors.{commission_percent_too_high}
use kanz_coins_backend.Db.{User, UserStatus}
use kanz_coins_backend.Store.{
  Store, ReferralCommission, CommissionStatus, CommissionOutcome, DepositRequest, DepositStatus,
  ProcessingStatus, normalize_currency_code,
}
use kanz_coins_backend.Payouts.{payable_user}
use kanz_coins_backend.Payouts.Review.{to_cents}
use kanz_coins_backend.Commissions.{
  process_deposit_referral_commission, record_commission, record_snapshot, create_commission_record,
  find_commission,
}
use kanz_coins_backend.Commissions.Marks.{mark_deposit_commission}
use kanz_coins_backend.Commissions.Referrals.{
  evaluate_referral_eligibility, judge_referral, eligibility_period,
}
use kanz_coins_backend.Commissions.Rates.{
  validate_commission_percent, resolve_commission_percent, build_fx_commission_snapshot,
  platform_rate,
}
use kanz_coins_backend.Prelude.Query.{select_rows}
use kanz_coins_backend.Commissions.Reconcile.{
  reconcile_referral_commissions, matches, reconcile_each, reconcile_one,
}
use kanz_coins_backend.Commissions.Repeat.{process_twice}

abbrev usd : Text
usd = codes "USD"

abbrev egp : Text
egp = codes "EGP"

-- A quotient with a half rounded up.
abbrev quotient : ℕ → ℕ → ℕ
quotient a b = (2 * a + b) / (2 * b)

abbrev omar : User
omar = record {
  status = UserStatus.active;
  wallet_balance = pos 0;
  credit_limit = none;
  credit_used = pos 0;
  group_id = none;
  quantity_limit = pos 0;
  quantity_used = pos 0;
  currency = some egp;
  deleted_at = none;
  referred_by = none;
  referred_at = none;
  referral_eligible_until = none;
  referral_commission_percent_override = some (pos 2500000);
  referral_commission_stopped_at = none;
}

abbrev lina : User
lina = record omar { referred_by = some 1; referred_at = some 1000; currency = none }

abbrev approved : DepositRequest
approved = record {
  user_id = 2;
  requested_amount = pos 100000000;
  currency = usd;
  exchange_rate = 1000000;
  amount_usd = pos 100000000;
  receipt_image = none;
  payment_transaction_id = none;
  status = DepositStatus.approved;
  admin_notes = none;
  reviewed_by = none;
  reviewed_at = some 5000;
  review_source = none;
  payment_event_id = none;
  commission_processing_status = ProcessingStatus.not_applicable;
  commission_outcome = none;
  commission_id = none;
  commission_processed_at = none;
  commission_error = none;
}

abbrev agency : Store
agency = record {
  db = record {
    users = (1, omar) ∷ (2, lina) ∷ [];
    groups = [];
    orders = [];
    wallet_transactions = [];
  };
  deposits = (53, approved) ∷ [];
  commissions = [];
  payouts = [];
  currencies = (egp, record { platform_rate = 50000000; is_active = true }) ∷ [];
  default_percent = none;
}

-- 2.5 percent of 100.00 dollars, at 50 pounds to the dollar.
abbrev commission : ReferralCommission
commission = record {
  referrer_user_id = 1;
  referred_user_id = 2;
  source_id = 53;
  original_amount = pos 100000000;
  original_currency = usd;
  commission_percent = pos 2500000;
  commission_amount_original = pos 2500000;
  referrer_currency = egp;
  commission_amount = pos 125000000;
  source_platform_rate = 1000000;
  target_platform_rate = 50000000;
  status = CommissionStatus.available;
  payout_request_id = none;
  referral_started_at = 1000;
  eligible_until = 1000 + eligibility_period;
  source_completed_at = 5000;
}

too_high : validate_commission_percent (some (pos 50000001)) ≡ err commission_percent_too_high
unfolding validate_commission_percent
too_high = refl

created :
    (process_deposit_referral_commission quotient 61 53 approved
      (pos 100000000)
      usd
      5000
      70
      agency).0
    ≡ ok (record { outcome = CommissionOutcome.created; commission = some (61, commission) })
unfolding process_deposit_referral_commission mark_deposit_commission evaluate_referral_eligibility
    judge_referral payable_user resolve_commission_percent validate_commission_percent
    record_commission build_fx_commission_snapshot platform_rate record_snapshot
    create_commission_record find_commission find modify get normalize_currency_code to_cents
created = refl

-- A reconciliation of all approved deposits creates the commission.
reconciled :
    (reconcile_referral_commissions quotient
      (λ id. 61)
      70
      false
      (record { deposit_id = none; from = none; to = none; failed_only = false })
      agency).0
    ≡ ok (record {
      scanned = 1;
      candidates = 1;
      processed = 1;
      created = 1;
      already_exists = 0;
      failed = 0;
      skipped = 0;
    })
unfolding reconcile_referral_commissions matches reconcile_each reconcile_one select_rows
    process_deposit_referral_commission mark_deposit_commission evaluate_referral_eligibility
    judge_referral payable_user resolve_commission_percent validate_commission_percent
    record_commission build_fx_commission_snapshot platform_rate record_snapshot
    create_commission_record find_commission find modify get normalize_currency_code to_cents
reconciled = refl

process_twice_example :
    let s =
      (process_deposit_referral_commission quotient 61 53 approved
        (pos 100000000)
        usd
        5000
        70
        agency).1 in
    let (r, s') =
      process_deposit_referral_commission quotient 62 53 approved (pos 100000000) usd 5000 80 s in
    (r
      ≡ ok (record {
        outcome = CommissionOutcome.already_exists;
        commission = some (61, commission);
      }))
    × (s'.commissions ≡ s.commissions)
    × (s'.db ≡ s.db)
process_twice_example =
    process_twice quotient 53 approved (pos 100000000) usd 5000 61 62 70 80 commission agency
      created
