-- ===== src/Commissions.antt =====
-- src/modules/referrals/referralCommission.service.js: the commission that a referrer earns by an
-- approved deposit of the user whom it brought. Dates count milliseconds. Rates has the percentage
-- and the conversion.
pub mod Marks
pub mod Referrals
pub mod Rates
pub mod Keeps
pub mod Records
pub mod Repeat
pub mod Reconcile
mod Tests
use kanz_coins_backend.Prelude.{
  ℕ, ◌+◌, ◌*◌, Bool, true, false, ◌&&◌, ◌||◌, not, Option, none, some, List, [], ◌∷◌,
}
use kanz_coins_backend.Prelude.Int.{pos, leb_ℤ}
use kanz_coins_backend.Prelude.Tests.{if◌then◌else◌, ◌==◌, ltb, leb}
use kanz_coins_backend.Prelude.Text.{Text, same_text}
use kanz_coins_backend.Prelude.Table.{Table, find, modify}
use kanz_coins_backend.Prelude.Exec.{
  Exec, Result, ok, err, pure, throw, gets, throw_if, modify_state, catch, ◌>>=◌, ◌>>◌,
}
use kanz_coins_backend.Money.{Amount}
use kanz_coins_backend.Errors.{Error, duplicate_key, validation_error, commission_conflict}
use kanz_coins_backend.Db.{User}
use kanz_coins_backend.Store.{
  Store, ReferralCommission, CommissionStatus, CommissionOutcome, DepositRequest, DepositStatus,
  ProcessingStatus, or_usd,
}
use kanz_coins_backend.Payouts.{payable_user}
use kanz_coins_backend.Payouts.Validation.{lift_result}
use kanz_coins_backend.Payouts.Selection.{is_none, equals}
use kanz_coins_backend.Commissions.Rates.{
  FxSnapshot, resolve_commission_percent, build_fx_commission_snapshot,
}
use kanz_coins_backend.Commissions.Referrals.{
  eligibility_period, Eligibility, ends_at, stopped_before, judge_referral, with_referrer,
  of_referred, evaluate_referral_eligibility, eligible, ineligible,
}
use kanz_coins_backend.Commissions.Marks.{
  Mark, set_mark, mark_deposit_commission, not_applicable, in_progress, processed, failed,
}

-- `findOne({ idempotencyKey })`: the key is made of the deposit and the referrer.
unfoldable pub find_commission : ℕ → ℕ → Table ReferralCommission → Option (ℕ × ReferralCommission)
find_commission deposit_id referrer_id [] = none
find_commission deposit_id referrer_id ((id, c) ∷ t) =
    if c.source_id == deposit_id && c.referrer_user_id == referrer_id
    then some (id, c)
    else find_commission deposit_id referrer_id t

abbrev pub new_commission : ℕ → ℕ → ℕ → FxSnapshot → ℕ → ℕ → ℕ → ReferralCommission
new_commission deposit_id user_id referrer_id fx referred_at until completed_at = record {
  referrer_user_id = referrer_id;
  referred_user_id = user_id;
  source_id = deposit_id;
  original_amount = fx.original_amount;
  original_currency = fx.original_currency;
  commission_percent = fx.commission_percent;
  commission_amount_original = fx.commission_amount_original;
  referrer_currency = fx.referrer_currency;
  commission_amount = fx.commission_amount;
  source_platform_rate = fx.source_platform_rate;
  target_platform_rate = fx.target_platform_rate;
  status = CommissionStatus.available;
  payout_request_id = none;
  referral_started_at = referred_at;
  eligible_until = until;
  source_completed_at = completed_at;
}

abbrev pub same_snapshot : ReferralCommission → ReferralCommission → Bool
same_snapshot c d =
    equals c.original_amount d.original_amount
    && same_text c.original_currency d.original_currency
    && equals c.commission_percent d.commission_percent
    && same_text c.referrer_currency d.referrer_currency
    && equals c.commission_amount d.commission_amount

pub record Processed : Type 0 where
  pub outcome : CommissionOutcome
  pub commission : Option (ℕ × ReferralCommission)

-- What `createCommissionRecord` does after a duplicate key.
abbrev pub answer_existing :
    ReferralCommission → Option (ℕ × ReferralCommission) → Exec Store Error Processed
answer_existing payload none =
    pure (record { outcome = CommissionOutcome.already_exists; commission = none })
answer_existing payload (some (id, c)) = do
  throw_if (not (same_snapshot c payload)) commission_conflict
  pure (record { outcome = CommissionOutcome.already_exists; commission = some (id, c) })

abbrev pub is_taken : {A : Type 0} → Option A → Bool
is_taken o = not (is_none o)

-- `createCommissionRecord`, under the unique indexes on the id and on the deposit with the referrer.
-- In a session, a server ends the transaction at a duplicate key; here the call goes on.
unfoldable pub create_commission_record : ℕ → ReferralCommission → Exec Store Error Processed
create_commission_record id payload s =
    let existing = find_commission payload.source_id payload.referrer_user_id s.commissions in
    if is_taken existing || is_taken (find id s.commissions)
    then answer_existing payload existing s
    else pure (record { outcome = CommissionOutcome.created; commission = some (id, payload) })
        (record s { commissions = (id, payload) ∷ s.commissions })

-- `err.isOperational`: an error of the application's own classes
abbrev pub is_operational : Error → Bool
is_operational validation_error = false
is_operational duplicate_key = false
is_operational _ = true

abbrev pub id_of : Option (ℕ × ReferralCommission) → Option ℕ
id_of none = none
id_of (some (id, c)) = some id

-- Another error of the application is a fault of the configuration.
unfoldable pub configuration_failed : ℕ → ℕ → Error → Exec Store Error Processed
configuration_failed deposit_id now e =
    if is_operational e
    then (do
      mark_deposit_commission deposit_id (failed CommissionOutcome.failed_configuration e now)
      pure (record { outcome = CommissionOutcome.failed_configuration; commission = none }))
    else throw e

-- The handler of `processDepositReferralCommission`.
unfoldable pub commission_failed : ℕ → ℕ → Error → Exec Store Error Processed
commission_failed deposit_id now commission_conflict = do
  mark_deposit_commission deposit_id
      (failed CommissionOutcome.idempotency_conflict commission_conflict now)
  throw commission_conflict
commission_failed deposit_id now e = configuration_failed deposit_id now e

abbrev pub or_now : Option ℕ → ℕ
or_now none = 0
or_now (some date) = date

-- A deposit that earns nothing, and why.
abbrev pub without_commission : ℕ → ℕ → CommissionOutcome → Exec Store Error Processed
without_commission deposit_id now outcome = do
  mark_deposit_commission deposit_id (not_applicable outcome now)
  pure (record { outcome = outcome; commission = none })

abbrev pub is_zero : Amount → Bool
is_zero a = equals a (pos 0)

abbrev pub is_approved : DepositStatus → Bool
is_approved DepositStatus.approved = true
is_approved _ = false

-- The guarded part: the snapshot, the commission and the mark.
unfoldable pub record_snapshot : ℕ → ℕ → ReferralCommission → ℕ → Exec Store Error Processed
record_snapshot id deposit_id payload now = do
  result ← create_commission_record id payload
  mark_deposit_commission deposit_id (processed result.outcome (id_of result.commission) now)
  pure result

module _ (divide : ℕ → ℕ → ℕ) where
  unfoldable pub record_commission :
      ℕ
      → ℕ
      → DepositRequest
      → Amount
      → Text
      → ℕ
      → ℕ
      → User
      → ℕ
      → User
      → ℕ
      → Amount
      → Exec Store Error Processed
  record_commission id deposit_id d amount currency completed_at now referred referrer_id referrer
        until percent =
      do
        fx ←
            gets (
              build_fx_commission_snapshot divide amount currency (or_usd referrer.currency)
                percent)
        snapshot ← lift_result fx
        record_snapshot id deposit_id
            (new_commission deposit_id d.user_id referrer_id snapshot (or_now referred.referred_at)
              until completed_at)
            now

  abbrev pub process_eligible :
      ℕ → ℕ → DepositRequest → Amount → Text → ℕ → ℕ → Eligibility → Exec Store Error Processed
  process_eligible id deposit_id d amount currency completed_at now (ineligible outcome) =
      without_commission deposit_id now outcome
  process_eligible id deposit_id d amount currency completed_at now
        (eligible referred referrer_id referrer until) =
      do
        resolved ← gets (resolve_commission_percent referrer)
        percent ← lift_result resolved
        if is_zero percent
            then without_commission deposit_id now CommissionOutcome.zero_percent
            else catch
                (record_commission id deposit_id d amount currency completed_at now referred
                  referrer_id referrer until percent)
                (commission_failed deposit_id now)

  -- `processDepositReferralCommission`, with the id that a new commission gets
  unfoldable pub process_deposit_referral_commission :
      ℕ → ℕ → DepositRequest → Amount → Text → ℕ → ℕ → Exec Store Error Processed
  process_deposit_referral_commission id deposit_id d amount currency completed_at now =
      if is_approved d.status
      then (do
        mark_deposit_commission deposit_id in_progress
        eligibility ← gets (evaluate_referral_eligibility d.user_id completed_at)
        process_eligible id deposit_id d amount currency completed_at now eligibility)
      else without_commission deposit_id now CommissionOutcome.not_approved
