-- ===== src/Db.antt =====
-- The collections that the wallet and order services read and write, as the Mongoose schemas
-- declare them: src/modules/users/user.model.js, src/modules/groups/group.model.js,
-- src/modules/wallet/walletTransaction.model.js, src/modules/orders/order.model.js.
-- ObjectIds and dates are numbers. Texts that no condition reads (names, descriptions) are left out.
use kanz_coins_backend.Prelude.{ℕ, Bool, Option, List}
use kanz_coins_backend.Prelude.Int.{ℤ}
use kanz_coins_backend.Prelude.Table.{Table}
use kanz_coins_backend.Prelude.Text.{Text}
use kanz_coins_backend.Money.{Amount}

pub data UserStatus : Type 0 where
  pending active rejected : UserStatus

pub data BillingMode : Type 0 where
  standard quantity_only : BillingMode

pub record Group : Type 0 where
  pub billing_mode : BillingMode

pub record User : Type 0 where
  pub status : UserStatus
  pub wallet_balance : Amount
  -- none: a document from before the field existed
  pub credit_limit : Option Amount
  pub credit_used : Amount
  pub group_id : Option ℕ
  pub quantity_limit : ℤ
  pub quantity_used : ℤ
  -- none: a document from before the field existed
  pub currency : Option Text
  pub deleted_at : Option ℕ
  pub referred_by : Option ℕ
  pub referred_at : Option ℕ
  pub referral_eligible_until : Option ℕ
  -- a percentage, in millionths
  pub referral_commission_percent_override : Option Amount
  pub referral_commission_stopped_at : Option ℕ

pub data TransactionType : Type 0 where
  credit debit refund debt_adjustment : TransactionType

pub data SourceType : Type 0 where
  order deposit referral_payout admin_adjustment : SourceType

pub record WalletTransaction : Type 0 where
  pub user_id : ℕ
  pub type : TransactionType
  pub amount : Amount
  pub balance_before : Amount
  pub balance_after : Amount
  pub reference : Option ℕ
  pub source_type : Option SourceType
  pub source_id : Option ℕ
  pub source_key : Option Text

pub data OrderStatus : Type 0 where
  pending processing completed canceled partial failed manual_review : OrderStatus

pub record Order : Type 0 where
  pub user_id : ℕ
  pub quantity : ℕ
  pub wallet_deducted : Amount
  -- a decimal string in the schema
  pub credit_used_amount : Amount
  pub charged_amount : Option Amount
  pub status : OrderStatus
  pub provider_status : Option Text
  pub provider_order_id : Option Text
  pub retry_count : ℕ
  pub remains : ℤ
  pub refunded : Bool
  pub refunded_at : Option ℕ
  pub failed_at : Option ℕ
  pub last_checked_at : Option ℕ

pub record Db : Type 0 where
  pub users : Table User
  pub groups : Table Group
  pub orders : Table Order
  -- the ledger, newest entry first
  pub wallet_transactions : List WalletTransaction

-- `MAX_RETRY_COUNT`
abbrev pub max_retry_count : ℕ
max_retry_count = 120
