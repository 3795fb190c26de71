-- ===== src/Commissions/Records.antt =====
-- createCommissionRecord of src/modules/referrals/referralCommission.service.js, first and again, and
-- what a commission depends on.
use kanz_coins_backend.Prelude.{ℕ, true, Option, none, some, ◌∷◌, ◌≡◌, refl, inl, inr, arith}
use kanz_coins_backend.Prelude.Tests.{Bool-cases, Option-cases}
use kanz_coins_backend.Prelude.Text.{Text, same_text_refl}
use kanz_coins_backend.Prelude.Table.{Table, find}
use kanz_coins_backend.Prelude.Exec.{ok, Result-cases}
use kanz_coins_backend.Money.{Amount}
use kanz_coins_backend.Db.{User}
use kanz_coins_backend.Store.{
  Store, ReferralCommission, CommissionOutcome, DepositRequest, normalize_currency_code,
}
use kanz_coins_backend.Payouts.{payable_user}
use kanz_coins_backend.Payouts.Selection.{equals}
use kanz_coins_backend.Commissions.{
  Processed, find_commission, create_commission_record, same_snapshot,
}
use kanz_coins_backend.Commissions.Referrals.{evaluate_referral_eligibility, of_referred}
use kanz_coins_backend.Commissions.Rates.{
  resolve_commission_percent, resolve_default_commission_percent, build_fx_commission_snapshot,
  platform_rate,
}

equals_refl : (a : Amount) → equals a a ≡ true
equals_refl a = ground arith

same_snapshot_refl : (c : ReferralCommission) → same_snapshot c c ≡ true
same_snapshot_refl c = ground (
  arith,
  equals_refl c.original_amount,
  same_text_refl c.original_currency,
  equals_refl c.commission_percent,
  same_text_refl c.referrer_currency,
  equals_refl c.commission_amount,
)

abbrev pub made : ℕ → ReferralCommission → Processed
made id c = record { outcome = CommissionOutcome.created; commission = some (id, c) }

abbrev pub was_made : ℕ → ReferralCommission → Processed
was_made id c = record { outcome = CommissionOutcome.already_exists; commission = some (id, c) }

-- A store with marks on deposits and other commissions.
abbrev pub with_marks : Table DepositRequest → Table ReferralCommission → Store → Store
with_marks deposits commissions s = record s { deposits = deposits; commissions = commissions }

-- A new commission that was created.
pub create_made :
    (id : ℕ) (payload : ReferralCommission) (s : Store) (c : ReferralCommission)
    → (create_commission_record id payload s).0 ≡ ok (made id c)
    → (payload ≡ c)
      × ((create_commission_record id payload s).1
          ≡ record s { commissions = (id, payload) ∷ s.commissions })
unfolding create_commission_record
create_made id payload s c h =
    elim (Option-cases (find_commission payload.source_id payload.referrer_user_id s.commissions)) [
      | inr ((i, e), found) ↦ elim (Bool-cases (same_snapshot e payload)) [
        | inl same ↦ absurd (ground (arith, found, same, h))
        | inr other ↦ absurd (ground (arith, found, other, h))
      ]
      | inl missing ↦ elim (Option-cases (find id s.commissions)) [
        | inr (e, used) ↦ absurd (ground (arith, missing, used, h))
        | inl fresh ↦ (ground (arith, missing, fresh, h), ground (arith, missing, fresh))
      ]
    ]

-- One that is there already is answered.
pub create_again :
    (id i : ℕ) (payload : ReferralCommission) (s : Store)
    → find_commission payload.source_id payload.referrer_user_id s.commissions ≡ some (i, payload)
    → create_commission_record id payload s ≡ (ok (was_made i payload), s)
unfolding create_commission_record
create_again id i payload s found = rw (found, same_snapshot_refl payload) refl

-- Users, rates and settings decide what is earned, not deposits and commissions.
module _ (deposits : Table DepositRequest) (commissions : Table ReferralCommission)
    (s : Store) where
  of_referred_with :
      (o : Option User) (completed_at : ℕ)
      → of_referred o completed_at (with_marks deposits commissions s)
        ≡ of_referred o completed_at s
  unfolding payable_user
  of_referred_with none completed_at = refl
  of_referred_with (some u) completed_at = elim (Option-cases u.referred_by) [
    | inl nobody ↦ rw nobody refl
    | inr (r, by) ↦ elim (Option-cases u.referred_at) [
      | inl undated ↦ rw (by, undated) refl
      | inr (date, at) ↦ rw (by, at) refl
    ]
  ]

  pub evaluate_with :
      (user_id completed_at : ℕ)
      → evaluate_referral_eligibility user_id completed_at (with_marks deposits commissions s)
        ≡ evaluate_referral_eligibility user_id completed_at s
  unfolding evaluate_referral_eligibility
  evaluate_with user_id completed_at = of_referred_with (find user_id s.db.users) completed_at

  pub percent_with :
      (u : User)
      → resolve_commission_percent u (with_marks deposits commissions s)
        ≡ resolve_commission_percent u s
  unfolding resolve_commission_percent resolve_default_commission_percent
  percent_with u = elim (Option-cases u.referral_commission_percent_override) [
    | inl nothing ↦ rw nothing refl
    | inr (percent, set) ↦ rw set refl
  ]

  rate_with :
      (code : Text) → platform_rate code (with_marks deposits commissions s) ≡ platform_rate code s
  unfolding platform_rate
  rate_with code = refl

  pub fx_with :
      (divide : ℕ → ℕ → ℕ) (amount : Amount) (from to : Text) (percent : Amount)
      → build_fx_commission_snapshot divide amount from to percent
          (with_marks deposits commissions s)
        ≡ build_fx_commission_snapshot divide amount from to percent s
  unfolding build_fx_commission_snapshot
  fx_with divide amount from to percent =
      let source = normalize_currency_code from in
      let target = normalize_currency_code to in
      elim (Result-cases (platform_rate source s)) [
        | inr (x, e) ↦ ground (arith, e, rate_with source)
        | inl (rate, e) ↦ ground (arith, e, rate_with source, rate_with target)
      ]
