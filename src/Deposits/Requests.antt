-- ===== src/Deposits/Requests.antt =====
-- createDepositRequest of src/modules/deposits/deposit.service.js, with the conditions of
-- src/modules/deposits/deposit.model.js.
use kanz_coins_backend.Prelude.{
  ℕ, zero, suc, Bool, true, false, ◌&&◌, ◌||◌, not, Option, none, some, List, [], ◌∷◌,
}
use kanz_coins_backend.Prelude.Int.{pos, ltb_ℤ}
use kanz_coins_backend.Prelude.Tests.{◌==◌, leb}
use kanz_coins_backend.Prelude.Text.{Text, trim, to_upper_case}
use kanz_coins_backend.Prelude.Table.{find}
use kanz_coins_backend.Prelude.Exec.{
  Exec, pure, gets, or_throw, throw_if, modify_state, ◌>>=◌, ◌>>◌,
}
use kanz_coins_backend.Money.{Amount, cent}
use kanz_coins_backend.Errors.{Error, not_found, validation_error, duplicate_key, receipt_required}
use kanz_coins_backend.Store.{Store, DepositRequest, DepositStatus, ProcessingStatus}
use kanz_coins_backend.Payouts.Review.{to_cents}
use kanz_coins_backend.Deposits.Automation.{PaymentMethod, is_automated_payment_method}

-- The request of `createDepositRequest`, with amounts that are finite numbers. The transaction id is
-- that of the request, or else that of the sender's details.
pub record DepositInput : Type 0 where
  pub user_id : ℕ
  pub payment_method_id : Text
  pub requested_amount : Amount
  pub currency : Text
  pub exchange_rate : ℕ
  pub amount_usd : Amount
  pub receipt_image : Text
  pub payment_transaction_id : Text

abbrev pub text_or_null : Text → Option Text
text_or_null [] = none
text_or_null (c ∷ s) = some (c ∷ s)

abbrev pub take_text : ℕ → Text → Text
take_text zero s = []
take_text (suc n) [] = []
take_text (suc n) (c ∷ s) = c ∷ take_text n s

-- `normalizePaymentTransactionId`
abbrev pub normalize_payment_transaction_id : Text → Option Text
normalize_payment_transaction_id value = text_or_null (take_text 64 (trim value))

abbrev pub new_deposit : DepositInput → DepositRequest
new_deposit input = record {
  user_id = input.user_id;
  requested_amount = to_cents input.requested_amount;
  currency = to_upper_case (trim input.currency);
  exchange_rate = input.exchange_rate;
  amount_usd = to_cents input.amount_usd;
  receipt_image = text_or_null (trim input.receipt_image);
  payment_transaction_id = normalize_payment_transaction_id input.payment_transaction_id;
  status = DepositStatus.pending;
  admin_notes = none;
  reviewed_by = none;
  reviewed_at = none;
  review_source = none;
  payment_event_id = none;
  commission_processing_status = ProcessingStatus.not_applicable;
  commission_outcome = none;
  commission_id = none;
  commission_processed_at = none;
  commission_error = none;
}

abbrev pub is_missing : {A : Type 0} → Option A → Bool
is_missing none = true
is_missing (some _) = false

-- The schema's lower bounds.
abbrev pub is_too_small : DepositRequest → Bool
is_too_small d =
    ltb_ℤ d.requested_amount (pos cent) || ltb_ℤ d.amount_usd (pos cent) || d.exchange_rate == 0

-- Three capital letters.
abbrev pub is_capital : ℕ → Bool
is_capital c = leb 65 c && leb c 90

abbrev pub is_currency_code : Text → Bool
is_currency_code (a ∷ b ∷ c ∷ []) = is_capital a && is_capital b && is_capital c
is_currency_code _ = false

abbrev pub breaks_schema : DepositRequest → Bool
breaks_schema d = is_too_small d || not (is_currency_code d.currency)

-- Only an automated payment method needs no receipt.
abbrev pub lacks_receipt : List PaymentMethod → DepositInput → Bool
lacks_receipt methods input =
    is_missing (text_or_null (trim input.receipt_image))
    && not (is_automated_payment_method methods input.payment_method_id)

-- `createDepositRequest`, with the id that the deposit gets
unfoldable pub create_deposit_request :
    List PaymentMethod → ℕ → DepositInput → Exec Store Error DepositRequest
create_deposit_request methods id input = do
  user ← or_throw (← gets (λ (s : Store). find input.user_id s.db.users)) (not_found "User")
  let deposit = new_deposit input
  throw_if (lacks_receipt methods input) receipt_required
  throw_if (breaks_schema deposit) validation_error
  used ← gets (λ (s : Store). not (is_missing (find id s.deposits)))
  throw_if used duplicate_key
  modify_state (λ s. record s { deposits = (id, deposit) ∷ s.deposits })
  pure deposit
