-- ===== src/Deposits.antt =====
-- src/modules/deposits/deposit.service.js: a customer asks for a deposit, and an administrator edits,
-- approves or rejects it. An approval credits the wallet and pays the referral commission in one
-- transaction. Audit entries, notifications, test hooks and the matching of payment events are left
-- out. The rates are those of src/services/currencyConverter.service.js; its cache, which keeps a
-- currency for a minute, is an argument.
pub mod Requests
pub mod Automation
pub mod Ends
pub mod Once
pub mod Edits
mod Tests
use kanz_coins_backend.Prelude.{
  ℕ, zero, suc, ◌+◌, ◌*◌, ◌/◌, Bool, true, false, ◌&&◌, ◌||◌, not, Option, none, some, List, [],
  ◌∷◌,
}
use kanz_coins_backend.Prelude.Int.{pos, pos_part, neg_part, sub_ℕ, leb_ℤ, ltb_ℤ}
use kanz_coins_backend.Prelude.Tests.{if◌then◌else◌, ◌==◌, leb}
use kanz_coins_backend.Prelude.Text.{Text, codes, same_text, trim, to_upper_case, get}
use kanz_coins_backend.Prelude.Table.{Table, find, modify}
use kanz_coins_backend.Prelude.Exec.{
  Exec, Result, ok, err, pure, throw, gets, or_throw, throw_if, modify_state, in_session, ◌>>=◌,
  ◌>>◌,
}
use kanz_coins_backend.Money.{Amount, cent, unit}
use kanz_coins_backend.Errors.{
  Error, not_found, validation_error, duplicate_key, invalid_amount, deposit_already_approved,
  deposit_already_rejected, deposit_not_pending, receipt_required, currency_inactive,
  missing_currency_code,
}
use kanz_coins_backend.Db.{User}
use kanz_coins_backend.Wallet.{credit_wallet_direct}
use kanz_coins_backend.Store.{
  Store, Currency, DepositRequest, DepositStatus, ProcessingStatus, ReviewSource, on_db, or_usd,
}
use kanz_coins_backend.Payouts.Validation.{lift_result}
use kanz_coins_backend.Payouts.Review.{to_cents}
use kanz_coins_backend.Commissions.{process_deposit_referral_commission, is_approved}
use kanz_coins_backend.Deposits.Automation.{PaymentMethod, is_automated_payment_method}
use kanz_coins_backend.Deposits.Requests.{
  DepositInput, text_or_null, take_text, normalize_payment_transaction_id, new_deposit, is_missing,
  is_too_small, is_capital, is_currency_code, breaks_schema, lacks_receipt, create_deposit_request,
}

abbrev pub is_pending : DepositStatus → Bool
is_pending DepositStatus.pending = true
is_pending _ = false

abbrev pub is_rejected : DepositStatus → Bool
is_rejected DepositStatus.rejected = true
is_rejected _ = false

-- What the administrator may set besides.
pub record AdminOverrides : Type 0 where
  pub amount : Option Amount
  pub currency : Option Text
  pub admin_notes : Option Text
  pub payment_event_id : Option ℕ
  pub review_source : Option ReviewSource

abbrev or_else {ℓ} : {A : Type ℓ} → Option A → A → A
or_else none a = a
or_else (some b) a = b

abbrev or_keep {ℓ} : {A : Type ℓ} → Option A → Option A → Option A
or_keep none old = old
or_keep (some b) old = some b

abbrev non_empty : Option Text → Option Text
non_empty (some (c ∷ s)) = some (c ∷ s)
non_empty _ = none

abbrev or_usd_text : Text → Text
or_usd_text code = or_usd (some code)

abbrev pub final_amount_of : AdminOverrides → DepositRequest → Amount
final_amount_of o d = to_cents (or_else o.amount d.requested_amount)

abbrev pub final_currency_of : AdminOverrides → DepositRequest → Text
final_currency_of o d = to_upper_case (or_else (non_empty o.currency) (or_usd_text d.currency))

abbrev trimmed : Option Text → Option Text
trimmed none = none
trimmed (some s) = some (trim s)

-- `$setFields` of an approval
abbrev pub set_approved :
    Option ℕ → ℕ → AdminOverrides → Amount → Text → DepositRequest → DepositRequest
set_approved admin now o final_amount final_currency d = record d {
  status = DepositStatus.approved;
  reviewed_by = admin;
  reviewed_at = some now;
  review_source = some (or_else o.review_source ReviewSource.admin);
  requested_amount = elim o.amount [ none ↦ d.requested_amount | some _ ↦ final_amount ];
  currency = elim (non_empty o.currency) [ none ↦ d.currency | some _ ↦ final_currency ];
  admin_notes = or_keep (trimmed (non_empty o.admin_notes)) d.admin_notes;
  payment_event_id = or_keep o.payment_event_id d.payment_event_id;
}

abbrev pub set_rejected : ℕ → ℕ → Option Text → DepositRequest → DepositRequest
set_rejected admin now notes d = record d {
  status = DepositStatus.rejected;
  reviewed_by = some admin;
  reviewed_at = some now;
  admin_notes = or_keep (trimmed (non_empty notes)) d.admin_notes;
}

abbrev pub pending_or_none : Option DepositRequest → Option DepositRequest
pending_or_none none = none
pending_or_none (some d) = if is_pending d.status then some d else none

-- `DepositRequest.findOneAndUpdate({ _id, status: PENDING }, { $set }, { new: true })`
unfoldable pub review_pending :
    ℕ → (DepositRequest → DepositRequest) → Exec Store Error (Option DepositRequest)
review_pending id set s = elim (pending_or_none (find id s.deposits)) [
  | none ↦ pure none s
  | some d ↦ pure (some (set d)) (record s { deposits = modify id set s.deposits })
]

abbrev pub load_deposit : ℕ → Exec Store Error DepositRequest
load_deposit id = do
  or_throw (← gets (λ (s : Store). find id s.deposits)) (not_found "DepositRequest")

-- `getConversionRate`: the cache first, then the collection
abbrev rate_of : Option Currency → Result Error ℕ
rate_of none = err (not_found "Currency")
rate_of (some c) = if c.is_active then ok c.platform_rate else err currency_inactive

unfoldable pub get_conversion_rate : (Text → Option Currency) → Text → Store → Result Error ℕ
get_conversion_rate cached code s =
    let upper = trim (to_upper_case code) in
    if is_missing (text_or_null upper)
    then err missing_currency_code
    else if same_text upper (codes "USD")
    then ok unit
    else elim (cached upper) [
      | some c ↦ ok c.platform_rate
      | none ↦ rate_of (get upper s.currencies)
    ]

-- A quotient of naturals with a half rounded up.
abbrev round_div : ℕ → ℕ → ℕ
round_div a b = (2 * a + b) / (2 * b)

-- `Number((amount / fromRate).toFixed(6))`, then `Number((usd * toRate).toFixed(2))`
unfoldable pub convert_amount : Amount → ℕ → ℕ → Amount
convert_amount amount from_rate to_rate =
    let usd = round_div (pos_part amount * unit) from_rate in
    pos (round_div (usd * to_rate) (unit * cent) * cent)

abbrev pub wallet_currency : Option User → Text
wallet_currency none = codes "USD"
wallet_currency (some u) = to_upper_case (or_else u.currency (codes "USD"))

-- What an approval credits, in the currency of the wallet.
unfoldable pub wallet_credit_amount :
    (Text → Option Currency) → Amount → Text → Text → Store → Result Error Amount
wallet_credit_amount cached amount final_currency to_currency s =
    if same_text final_currency to_currency
    then ok amount
    else elim (get_conversion_rate cached final_currency s) [
      | err e ↦ err e
      | ok from_rate ↦ elim (get_conversion_rate cached to_currency s) [
        | err e ↦ err e
        | ok to_rate ↦ ok (convert_amount amount from_rate to_rate)
      ]
    ]

module _ (round : Amount → Amount) (divide : ℕ → ℕ → ℕ) (cached : Text → Option Currency) where
  -- The part of `approveDeposit` that follows the compare-and-swap.
  unfoldable pub credit_deposit :
      ℕ → ℕ → ℕ → Amount → Text → DepositRequest → Exec Store Error DepositRequest
  credit_deposit id commission_id now final_amount final_currency updated = do
    user ← gets (λ (s : Store). find updated.user_id s.db.users)
    converted ←
        gets (wallet_credit_amount cached final_amount final_currency (wallet_currency user))
    credit ← lift_result converted
    on_db (credit_wallet_direct round updated.user_id credit (some id) none none none)
    process_deposit_referral_commission divide commission_id id updated final_amount final_currency
        now now
    pure updated

  -- The transaction of `approveDeposit`.
  unfoldable pub approve_in_transaction :
      ℕ → ℕ → Option ℕ → ℕ → AdminOverrides → Exec Store Error DepositRequest
  approve_in_transaction id commission_id admin now o = do
    existing ← load_deposit id
    throw_if (is_approved existing.status) deposit_already_approved
    throw_if (is_rejected existing.status) deposit_already_rejected
    let final_amount = final_amount_of o existing
    let final_currency = final_currency_of o existing
    throw_if (leb_ℤ final_amount (pos 0)) invalid_amount
    updated ←
        or_throw (← review_pending id (set_approved admin now o final_amount final_currency))
          deposit_already_approved
    credit_deposit id commission_id now final_amount final_currency updated

  -- `approveDeposit`
  unfoldable pub approve_deposit :
      ℕ → ℕ → Option ℕ → ℕ → AdminOverrides → Exec Store Error DepositRequest
  approve_deposit id commission_id admin now o =
      in_session true (approve_in_transaction id commission_id admin now o)

-- What `rejectDeposit` throws when the update matched nothing.
unfoldable pub reject_conflict : ℕ → Exec Store Error DepositRequest
reject_conflict id = do
  current ← load_deposit id
  throw_if (is_approved current.status) deposit_already_approved
  throw deposit_already_rejected

abbrev or_reject_conflict : ℕ → Option DepositRequest → Exec Store Error DepositRequest
or_reject_conflict id none = reject_conflict id
or_reject_conflict id (some d) = pure d

-- The update of `rejectDeposit`, which is not in a session with its read.
unfoldable pub reject_write : ℕ → ℕ → ℕ → Option Text → Exec Store Error DepositRequest
reject_write id admin now notes = do
  or_reject_conflict id (← review_pending id (set_rejected admin now notes))

-- `rejectDeposit`
unfoldable pub reject_deposit : ℕ → ℕ → ℕ → Option Text → Exec Store Error DepositRequest
reject_deposit id admin now notes = do
  existing ← load_deposit id
  throw_if (is_rejected existing.status) deposit_already_rejected
  throw_if (is_approved existing.status) deposit_already_approved
  reject_write id admin now notes

-- `updatePendingDeposit` reads and saves in two steps of the server.
unfoldable pub update_pending_read : ℕ → Exec Store Error DepositRequest
update_pending_read id = do
  deposit ← load_deposit id
  throw_if (not (is_pending deposit.status)) deposit_not_pending
  pure deposit

-- `save` writes the two fields that were changed on the document as it was read.
abbrev pub set_amounts : Amount → ℕ → DepositRequest → DepositRequest
set_amounts requested_amount exchange_rate d =
    let amount = to_cents requested_amount in
    record d {
      requested_amount = amount;
      amount_usd = pos (round_div (pos_part amount * unit) (exchange_rate * cent) * cent);
    }

unfoldable pub update_pending_save : ℕ → Amount → DepositRequest → Exec Store Error DepositRequest
update_pending_save id requested_amount deposit = do
  let changed = set_amounts requested_amount deposit.exchange_rate deposit
  throw_if (is_too_small changed) validation_error
  modify_state (λ s. record s {
    deposits =
        modify id
          (λ (d : DepositRequest). record d {
            requested_amount = changed.requested_amount;
            amount_usd = changed.amount_usd;
          })
          s.deposits;
  })
  pure changed

unfoldable pub update_pending_deposit : ℕ → Amount → Exec Store Error DepositRequest
update_pending_deposit id requested_amount = do
  deposit ← update_pending_read id
  update_pending_save id requested_amount deposit
