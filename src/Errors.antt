-- ===== src/Errors.antt =====
-- The errors that the services throw: the classes of src/shared/errors/AppError.js, a
-- BusinessRuleError by its machine-readable code, and the errors of the database driver.
use kanz_coins_backend.Prelude.{String}
use kanz_coins_backend.Money.{Amount}

pub data Error : Type 0 where
  not_found : String → Error
  -- required, available
  insufficient_funds : Amount → Amount → Error
  invalid_amount account_inactive : Error
  order_already_failed already_refunded no_refundable_amount invalid_refund_amount : Error
  invalid_status_transition already_completed : Error
  invalid_order_fields : Error
  invalid_adjustment_amount insufficient_balance invalid_percentage : Error
  target_order_already_approved target_order_already_rejected target_order_already_reviewed : Error
  -- a Mongoose ValidationError, and the server's code 11000
  validation_error duplicate_key : Error
  payout_user_not_payable payout_wallet_currency_mismatch payout_commissions_required : Error
  payout_commission_not_found payout_commission_not_available payout_currency_mismatch : Error
  payout_zero_total payout_amount_invalid payout_amount_requires_selection : Error
  payout_commission_lock_conflict payout_commission_state_inconsistent : Error
  payout_idempotency_key_reused payout_idempotency_key_invalid payout_method_invalid : Error
  payout_rejection_reason_required payout_rejection_reason_too_long payout_already_reviewed : Error
  payout_method_action_mismatch payout_external_reference_too_long payout_currency_invalid : Error
  payout_external_details_required payout_external_details_forbidden : Error
  payout_external_details_invalid payout_external_details_too_long : Error
  payout_external_details_not_allowed payout_receipt_invalid : Error
  not_authorized : Error
  deposit_already_approved deposit_already_rejected deposit_not_pending : Error
  receipt_required : Error
  commission_percent_invalid commission_percent_too_high commission_conflict : Error
  currency_configuration_missing currency_inactive invalid_platform_rate : Error
  missing_currency_code : Error
