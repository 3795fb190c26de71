-- ===== src/Commissions/Referrals.antt =====
-- evaluateReferralEligibility of src/modules/referrals/referralCommission.service.js.
use kanz_coins_backend.Prelude.{ℕ, ◌+◌, ◌*◌, Bool, false, Option, none, some}
use kanz_coins_backend.Prelude.Tests.{if◌then◌else◌, ltb, leb}
use kanz_coins_backend.Prelude.Table.{find}
use kanz_coins_backend.Db.{User}
use kanz_coins_backend.Store.{Store, CommissionOutcome}
use kanz_coins_backend.Payouts.{payable_user}

-- `calculateReferralEligibleUntil`: thirty days
abbrev pub eligibility_period : ℕ
eligibility_period = 30 * 24 * 60 * 60 * 1000

pub data Eligibility : Type 0 where
  -- the user who was brought, the referrer with its id, and the end of the period
  eligible : User → ℕ → User → ℕ → Eligibility
  ineligible : CommissionOutcome → Eligibility

abbrev pub ends_at : Option ℕ → ℕ → ℕ
ends_at none referred_at = referred_at + eligibility_period
ends_at (some until) referred_at = until

abbrev pub stopped_before : Option ℕ → ℕ → Bool
stopped_before none completed_at = false
stopped_before (some stopped_at) completed_at = leb stopped_at completed_at

-- `evaluateReferralEligibility`
unfoldable pub judge_referral : User → ℕ → ℕ → ℕ → User → Eligibility
judge_referral referred referred_at completed_at referrer_id referrer =
    let until = ends_at referred.referral_eligible_until referred_at in
    if ltb until completed_at
    then ineligible CommissionOutcome.expired
    else if stopped_before referred.referral_commission_stopped_at completed_at
    then ineligible CommissionOutcome.stopped
    else eligible referred referrer_id referrer until

abbrev pub with_referrer : User → ℕ → ℕ → ℕ → Option User → Eligibility
with_referrer referred referred_at completed_at referrer_id none =
    ineligible CommissionOutcome.invalid_referrer
with_referrer referred referred_at completed_at referrer_id (some referrer) =
    judge_referral referred referred_at completed_at referrer_id referrer

abbrev pub of_referred : Option User → ℕ → Store → Eligibility
of_referred none completed_at s = ineligible CommissionOutcome.not_referred
of_referred (some referred) completed_at s = elim referred.referred_by [
  | none ↦ ineligible CommissionOutcome.not_referred
  | some referrer_id ↦ elim referred.referred_at [
    | none ↦ ineligible CommissionOutcome.missing_referral_start
    | some referred_at ↦
        with_referrer referred referred_at completed_at referrer_id (payable_user referrer_id s)
  ]
]

unfoldable pub evaluate_referral_eligibility : ℕ → ℕ → Store → Eligibility
evaluate_referral_eligibility user_id completed_at s =
    of_referred (find user_id s.db.users) completed_at s
