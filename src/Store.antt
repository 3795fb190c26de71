-- ===== src/Store.antt =====
-- The collections of the deposit and referral services, beside those of the wallet, as the Mongoose
-- schemas declare them: src/modules/referrals/referralCommission.model.js,
-- src/modules/referralPayouts/referralPayout.model.js, src/modules/deposits/deposit.model.js,
-- src/modules/currency/currency.model.js. A decimal string is the amount that it stands for. The
-- ledger has no ids: a link to one of its entries is the entry. Texts that no condition reads are
-- left out.
use kanz_coins_backend.Prelude.{ℕ, Bool, Option, none, some, List, [], ◌∷◌}
use kanz_coins_backend.Prelude.Table.{Table}
use kanz_coins_backend.Prelude.Text.{Text, codes, trim, to_upper_case}
use kanz_coins_backend.Prelude.Exec.{Exec}
use kanz_coins_backend.Money.{Amount}
use kanz_coins_backend.Errors.{Error}
use kanz_coins_backend.Db.{Db, WalletTransaction}

pub data CommissionStatus : Type 0 where
  available locked paid cancelled : CommissionStatus

pub record ReferralCommission : Type 0 where
  pub referrer_user_id : ℕ
  pub referred_user_id : ℕ
  pub source_id : ℕ
  pub original_amount : Amount
  pub original_currency : Text
  pub commission_percent : Amount
  pub commission_amount_original : Amount
  pub referrer_currency : Text
  pub commission_amount : Amount
  pub source_platform_rate : ℕ
  pub target_platform_rate : ℕ
  pub status : CommissionStatus
  pub payout_request_id : Option ℕ
  pub referral_started_at : ℕ
  pub eligible_until : ℕ
  pub source_completed_at : ℕ

pub data PayoutMethod : Type 0 where
  wallet_credit manual_external : PayoutMethod

pub data PayoutStatus : Type 0 where
  pending paid rejected : PayoutStatus

pub record ExternalDetails : Type 0 where
  pub method_type : Text
  pub account_name : Option Text
  pub phone_number : Option Text
  pub account_number : Option Text
  pub iban : Option Text
  pub wallet_address : Option Text
  pub network : Option Text
  pub notes : Option Text

pub record ReferralPayout : Type 0 where
  pub user_id : ℕ
  pub method : PayoutMethod
  pub currency : Text
  pub amount : Amount
  pub status : PayoutStatus
  pub commission_ids : List ℕ
  pub commission_count : ℕ
  pub external_payment_details : Option ExternalDetails
  pub external_transaction_reference : Option Text
  pub wallet_transaction : Option WalletTransaction
  pub reviewed_by : Option ℕ
  pub reviewed_at : Option ℕ
  pub paid_at : Option ℕ
  pub rejection_reason : Option Text
  pub idempotency_key : Option Text
  pub idempotency_fingerprint : Option ℕ

pub data DepositStatus : Type 0 where
  pending approved rejected : DepositStatus

pub data ProcessingStatus : Type 0 where
  not_applicable pending processed failed : ProcessingStatus

-- `REFERRAL_COMMISSION_OUTCOMES`
pub data CommissionOutcome : Type 0 where
  created already_exists not_referred missing_referral_start expired stopped : CommissionOutcome
  zero_percent invalid_referrer not_approved : CommissionOutcome
  idempotency_conflict failed_configuration : CommissionOutcome

pub data ReviewSource : Type 0 where
  admin vodafone_sms_auto : ReviewSource

pub record DepositRequest : Type 0 where
  pub user_id : ℕ
  pub requested_amount : Amount
  pub currency : Text
  -- millionths
  pub exchange_rate : ℕ
  pub amount_usd : Amount
  pub receipt_image : Option Text
  pub payment_transaction_id : Option Text
  pub status : DepositStatus
  pub admin_notes : Option Text
  pub reviewed_by : Option ℕ
  pub reviewed_at : Option ℕ
  pub review_source : Option ReviewSource
  pub payment_event_id : Option ℕ
  pub commission_processing_status : ProcessingStatus
  pub commission_outcome : Option CommissionOutcome
  pub commission_id : Option ℕ
  pub commission_processed_at : Option ℕ
  pub commission_error : Option Error

pub record Currency : Type 0 where
  -- millionths
  pub platform_rate : ℕ
  pub is_active : Bool

pub record Store : Type 0 where
  pub db : Db
  pub deposits : Table DepositRequest
  pub commissions : Table ReferralCommission
  pub payouts : Table ReferralPayout
  pub currencies : List (Text × Currency)
  -- `referralDefaultCommissionPercent`, if the settings hold a number there
  pub default_percent : Option Amount

-- A call of the wallet service, on the wallet's collections.
abbrev pub on_db : {A : Type 0} → Exec Db Error A → Exec Store Error A
on_db m s = let (r, db') = m s.db in (r, record s { db = db' })

-- `String(currency || 'USD').trim().toUpperCase()` and, where no code is no currency,
-- `String(currency || '').trim().toUpperCase()`
abbrev pub or_usd : Option Text → Text
or_usd none = codes "USD"
or_usd (some []) = codes "USD"
or_usd (some (c ∷ s)) = c ∷ s

unfoldable pub normalize_currency_code : Text → Text
normalize_currency_code code = to_upper_case (trim code)
