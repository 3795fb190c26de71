-- ===== src/Payouts/Tests.antt =====
-- Test runs of src/modules/referralPayouts/referralPayout.service.js, and its properties at a
-- concrete store: a referrer with two commissions that no payout has, and a deposit that waits.
mod Reviews
mod Runs
use kanz_coins_backend.Prelude.{
  ℕ, ◌<◌, ◌≡◌, ◌++◌, refl, true, false, Option, none, some, List, [], ◌∷◌, arith,
}
use kanz_coins_backend.Prelude.Int.{pos, ◌+ℤ◌, ◌≤ℤ◌, max_ℤ, abs, floor_div}
use kanz_coins_backend.Prelude.Lists.{length}
use kanz_coins_backend.Prelude.Text.{Text, codes, trim, to_upper_case, same_text}
use kanz_coins_backend.Prelude.Table.{find, modify}
use kanz_coins_backend.Prelude.Query.{update_in, count_in, select_rows}
use kanz_coins_backend.Prelude.Exec.{ok, err}
use kanz_coins_backend.Money.{safe_round, scale, recalculate_credit_used}
use kanz_coins_backend.Money.Cents.{IsCents, safe_round-eq}
use kanz_coins_backend.Errors.{Error, payout_amount_requires_selection}
use kanz_coins_backend.Db.{Db, User, UserStatus, SourceType, TransactionType, WalletTransaction}
use kanz_coins_backend.Wallet.{key_taken, index_conflict, stored_key}
use kanz_coins_backend.Wallet.Database.{KeepsCents}
use kanz_coins_backend.Wallet.Accounts.{IsFair, Moves}
use kanz_coins_backend.Wallet.Credits.{credit_entry}
use kanz_coins_backend.Store.{
  Store, Currency, ReferralCommission, CommissionStatus, ReferralPayout, PayoutMethod, PayoutStatus,
  DepositRequest, DepositStatus, ProcessingStatus, normalize_currency_code,
}
use kanz_coins_backend.Payouts.{
  PayoutInput, FingerprintPayload, new_payout, create_referral_payout, create_in_transaction,
  payable_user, commission_ids_of, claim_commissions, update_commissions, create_payout, set_locked,
}
use kanz_coins_backend.Payouts.Validation.{load_and_validate_commissions, validate_each}
use kanz_coins_backend.Payouts.Selection.{resolve_amount_only, take_whole}
use kanz_coins_backend.Payouts.Review.{
  normalize_reason, normalize_external_reference, set_rejected, set_commission_paid, set_reviewed,
  set_paid_by_hand, mark_manual_referral_payout_paid, is_locked_by, to_cents, source_key,
  reject_referral_payout, pay_wallet_referral_payout, update_pending, assert_commissions_locked,
  move_commissions,
}
use kanz_coins_backend.Payouts.Invariant.{IsConsistent}
use kanz_coins_backend.Payouts.Earn.{earn-Agrees}
use kanz_coins_backend.Payouts.Keeps.{create_referral_payout-IsConsistent}
use kanz_coins_backend.Payouts.WalletEnds.{pays, has_currency}
use kanz_coins_backend.Payouts.Ends.{reviewed}
use kanz_coins_backend.Payouts.Audit.{
  locked_missing_payout, state_mismatches, amount_mismatches, currency_mismatches,
  rejected_still_locked, audit_blames_rejected,
}
use kanz_coins_backend.Payouts.Reviews.{reject-create, mark_paid_goes_through}
use kanz_coins_backend.Payouts.Payment.{pay_wallet_pays}
use kanz_coins_backend.Payouts.Runs.{PayoutCall, run, audit_stays_clean, paid_once}
use kanz_coins_backend.Deposits.{AdminOverrides}

abbrev pub usd : Text
usd = codes "USD"

-- The referrer and the user whom it brought.
abbrev pub omar : User
omar = record {
  status = UserStatus.active;
  wallet_balance = pos 40000000;
  credit_limit = none;
  credit_used = pos 0;
  group_id = none;
  quantity_limit = pos 0;
  quantity_used = pos 0;
  currency = none;
  deleted_at = none;
  referred_by = none;
  referred_at = none;
  referral_eligible_until = none;
  referral_commission_percent_override = none;
  referral_commission_stopped_at = none;
}

abbrev pub lina : User
lina = record omar { referred_by = some 1; referred_at = some 1000 }

abbrev pub waiting : DepositRequest
waiting = record {
  user_id = 2;
  requested_amount = pos 100000000;
  currency = usd;
  exchange_rate = 1000000;
  amount_usd = pos 100000000;
  receipt_image = none;
  payment_transaction_id = none;
  status = DepositStatus.pending;
  admin_notes = none;
  reviewed_by = none;
  reviewed_at = none;
  review_source = none;
  payment_event_id = none;
  commission_processing_status = ProcessingStatus.not_applicable;
  commission_outcome = none;
  commission_id = none;
  commission_processed_at = none;
  commission_error = none;
}

-- A commission of an earlier deposit.
abbrev pub earned : ℕ → ℕ → ReferralCommission
earned deposit_id amount = record {
  referrer_user_id = 1;
  referred_user_id = 2;
  source_id = deposit_id;
  original_amount = pos 800000000;
  original_currency = usd;
  commission_percent = pos 1000000;
  commission_amount_original = pos amount;
  referrer_currency = usd;
  commission_amount = pos amount;
  source_platform_rate = 1000000;
  target_platform_rate = 1000000;
  status = CommissionStatus.available;
  payout_request_id = none;
  referral_started_at = 1000;
  eligible_until = 2592001000;
  source_completed_at = deposit_id;
}

abbrev pub no_commissions : Store
no_commissions = record {
  db = record {
    users = (1, omar) ∷ (2, lina) ∷ [];
    groups = [];
    orders = [];
    wallet_transactions = [];
  };
  deposits = (53, waiting) ∷ [];
  commissions = [];
  payouts = [];
  currencies = [];
  default_percent = none;
}

abbrev pub office : Store
office = record no_commissions {
  commissions = (22, earned 52 8000000) ∷ (21, earned 51 5000000) ∷ [];
}

no_commissions-IsConsistent : IsConsistent no_commissions
unfolding find
no_commissions-IsConsistent = record {
  payout_ids = tt;
  commission_ids = tt;
  of_payouts = λ id p found. absurd (cc found);
  of_commissions = λ i c found. absurd (cc found);
}

pub office-IsConsistent : IsConsistent office
unfolding find
office-IsConsistent =
    let one = earn-Agrees 21 (earned 51 5000000) [] [] refl refl refl no_commissions-IsConsistent in
    earn-Agrees 22 (earned 52 8000000) ((21, earned 51 5000000) ∷ []) [] refl refl refl one

abbrev pub no_details : PayoutMethod → List ℕ → PayoutInput
no_details method ids = record {
  method = method;
  currency = usd;
  commission_ids = ids;
  requested_amount = none;
  external_details = none;
  idempotency_key = none;
}

abbrev pub no_hash : FingerprintPayload → ℕ
no_hash payload = 0

abbrev pub one_text : ℕ → Text
one_text id = codes "31"

abbrev pub quotient : ℕ → ℕ → ℕ
quotient a b = 0

abbrev pub no_cache : Text → Option Currency
no_cache code = none

abbrev pub no_overrides : AdminOverrides
no_overrides = record {
  amount = none;
  currency = none;
  admin_notes = none;
  payment_event_id = none;
  review_source = none;
}

pub server_round : KeepsCents safe_round
server_round = record { on_cents = safe_round-eq }

pub omar-IsFair : IsFair omar
unfolding recalculate_credit_used safe_round scale floor_div ◌+ℤ◌ abs max_ℤ
omar-IsFair = record {
  cents = record { above = refl; below = refl };
  limit_cents = record { above = refl; below = refl };
  limit_nonneg = omega arith;
  mirror = refl;
}

-- Both commissions make up 13.00; 9.00 cannot be made of whole ones, oldest first.
both_selected : (resolve_amount_only 1 usd (pos 13000000) office).0 ≡ ok (21 ∷ 22 ∷ [])
unfolding resolve_amount_only take_whole select_rows ◌+ℤ◌
both_selected = refl

none_selected :
    (resolve_amount_only 1 usd (pos 9000000) office).0 ≡ err payout_amount_requires_selection
unfolding resolve_amount_only take_whole select_rows ◌+ℤ◌
none_selected = refl

-- A payout of both commissions.
abbrev pub asks : PayoutMethod → PayoutInput
asks method = no_details method (21 ∷ 22 ∷ [])

abbrev pub asked : PayoutMethod → ReferralPayout
asked method = new_payout 1 (asks method) (21 ∷ 22 ∷ []) (pos 13000000) none

abbrev pub requested : PayoutMethod → Store
requested method = (create_referral_payout no_hash 31 1 (asks method) office).1

pub found_asked :
    find 31 (requested PayoutMethod.wallet_credit).payouts ≡ some (asked PayoutMethod.wallet_credit)
unfolding create_referral_payout create_in_transaction payable_user commission_ids_of
    claim_commissions load_and_validate_commissions validate_each update_commissions create_payout
    count_in update_in find ◌+ℤ◌ normalize_currency_code
found_asked = refl
