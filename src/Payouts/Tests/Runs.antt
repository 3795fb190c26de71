-- ===== src/Payouts/Tests/Runs.antt =====
-- The properties of runs of src/modules/referralPayouts/referralPayout.service.js at concrete calls.
use kanz_coins_backend.Prelude.{ℕ, ◌<◌, ◌≡◌, ◌++◌, refl, some, List, [], ◌∷◌}
use kanz_coins_backend.Prelude.Int.{◌+ℤ◌}
use kanz_coins_backend.Prelude.Text.{codes}
use kanz_coins_backend.Prelude.Table.{find, modify}
use kanz_coins_backend.Prelude.Query.{update_in, count_in}
use kanz_coins_backend.Money.{safe_round}
use kanz_coins_backend.Store.{Store, PayoutMethod, PayoutStatus, normalize_currency_code}
use kanz_coins_backend.Payouts.{
  create_referral_payout, create_in_transaction, payable_user, commission_ids_of, claim_commissions,
  update_commissions, create_payout, set_locked,
}
use kanz_coins_backend.Payouts.Validation.{load_and_validate_commissions, validate_each}
use kanz_coins_backend.Payouts.Review.{
  normalize_reason, set_rejected, reject_referral_payout, update_pending, assert_commissions_locked,
  move_commissions,
}
use kanz_coins_backend.Payouts.Audit.{
  locked_missing_payout, state_mismatches, amount_mismatches, currency_mismatches,
  rejected_still_locked, audit_blames_rejected,
}
use kanz_coins_backend.Payouts.Runs.{PayoutCall, run, audit_stays_clean, paid_once}
use kanz_coins_backend.Payouts.Tests.{
  earned, office, no_details, no_hash, one_text, quotient, no_cache, no_overrides, asks, asked,
  office-IsConsistent,
}

-- A payout that is rejected, and its commissions asked for again.
abbrev calls : List PayoutCall
calls =
    PayoutCall.create 31 1 (asks PayoutMethod.wallet_credit)
    ∷ PayoutCall.reject 31 (codes "unclear") 9 70
    ∷ PayoutCall.create 32 1 (asks PayoutMethod.manual_external)
    ∷ []

abbrev later : List PayoutCall
later =
    PayoutCall.mark_paid 32 (codes "TX-1") 9 80
    ∷ PayoutCall.approve 53 23 (some 9) 90 no_overrides
    ∷ PayoutCall.create 33 1 (no_details PayoutMethod.wallet_credit (23 ∷ []))
    ∷ []

abbrev after_calls : Store
after_calls = run no_hash one_text safe_round quotient no_cache calls office

audit_stays_clean_example :
    let s = run no_hash one_text safe_round quotient no_cache (calls ++ later) office in
    (locked_missing_payout s ≡ 0)
    × (state_mismatches PayoutStatus.pending s ≡ 0)
    × (state_mismatches PayoutStatus.paid s ≡ 0)
    × (amount_mismatches s ≡ 0)
    × (currency_mismatches s ≡ 0)
audit_stays_clean_example =
    audit_stays_clean no_hash one_text safe_round quotient no_cache (calls ++ later) office
      office-IsConsistent

found_again : find 32 after_calls.payouts ≡ some (asked PayoutMethod.manual_external)
unfolding create_referral_payout create_in_transaction payable_user commission_ids_of
    claim_commissions load_and_validate_commissions validate_each update_commissions create_payout
    count_in update_in find ◌+ℤ◌ normalize_currency_code reject_referral_payout normalize_reason
    update_pending assert_commissions_locked move_commissions modify
found_again = refl

paid_once_example : ◌≡◌ {A = ℕ} 32 32
paid_once_example =
    paid_once no_hash one_text safe_round quotient no_cache calls office 32 32 21
      (asked PayoutMethod.manual_external) (asked PayoutMethod.manual_external) office-IsConsistent
      found_again found_again refl refl refl refl

found_rejected :
    find 31 after_calls.payouts
    ≡ some (set_rejected 9 70 (codes "unclear") (asked PayoutMethod.wallet_credit))
unfolding create_referral_payout create_in_transaction payable_user commission_ids_of
    claim_commissions load_and_validate_commissions validate_each update_commissions create_payout
    count_in update_in find ◌+ℤ◌ normalize_currency_code reject_referral_payout normalize_reason
    update_pending assert_commissions_locked move_commissions modify
found_rejected = refl

found_locked : find 21 after_calls.commissions ≡ some (set_locked 32 (earned 51 5000000))
unfolding create_referral_payout create_in_transaction payable_user commission_ids_of
    claim_commissions load_and_validate_commissions validate_each update_commissions create_payout
    count_in update_in find ◌+ℤ◌ normalize_currency_code reject_referral_payout normalize_reason
    update_pending assert_commissions_locked move_commissions modify
found_locked = refl

audit_blames_rejected_example : 0 < rejected_still_locked after_calls
audit_blames_rejected_example =
    audit_blames_rejected after_calls 31 21
      (set_rejected 9 70 (codes "unclear") (asked PayoutMethod.wallet_credit))
      (set_locked 32 (earned 51 5000000)) found_rejected refl refl found_locked refl refl refl
