-- ===== src/Commissions/Keeps.antt =====
-- What a predicate of the store needs to hold through processDepositReferralCommission.
use kanz_coins_backend.Prelude.{ℕ, Option, none, some, ◌∷◌, ◌≡◌, refl, inl, inr}
use kanz_coins_backend.Prelude.Tests.{Bool-cases, Option-cases}
use kanz_coins_backend.Prelude.Text.{Text}
use kanz_coins_backend.Prelude.Table.{find, modify}
use kanz_coins_backend.Prelude.Exec.{
  Keeps, Result, ok, err, pure, ◌>>◌, Keeps-bind, Keeps-catch, Keeps-if, Result-cases, catch,
}
use kanz_coins_backend.Money.{Amount}
use kanz_coins_backend.Errors.{Error, commission_conflict}
use kanz_coins_backend.Db.{User}
use kanz_coins_backend.Store.{
  Store, ReferralCommission, CommissionOutcome, CommissionStatus, DepositRequest, or_usd,
}
use kanz_coins_backend.Payouts.Validation.{lift_result}
use kanz_coins_backend.Commissions.{
  find_commission, new_commission, create_commission_record, same_snapshot, is_operational,
  commission_failed, configuration_failed, without_commission, is_zero, is_approved,
  record_commission, record_snapshot, process_eligible, process_deposit_referral_commission, id_of,
  or_now, answer_existing,
}
use kanz_coins_backend.Commissions.Marks.{
  Mark, set_mark, mark_deposit_commission, processed, failed,
}
use kanz_coins_backend.Commissions.Referrals.{Eligibility, eligible, ineligible}
use kanz_coins_backend.Commissions.Rates.{resolve_commission_percent, build_fx_commission_snapshot}

-- It holds through a mark on a deposit and through a new commission.
pub record Stable (P : Store → Type 0) : Type 0 where
  pub marks :
      (s : Store) (id : ℕ) (m : Mark)
      → P s
      → P (record s { deposits = modify id (set_mark m) s.deposits })
  pub earns :
      (s : Store) (id : ℕ) (c : ReferralCommission)
      → find id s.commissions ≡ none
      → find_commission c.source_id c.referrer_user_id s.commissions ≡ none
      → c.status ≡ CommissionStatus.available
      → c.payout_request_id ≡ none
      → P s
      → P (record s { commissions = (id, c) ∷ s.commissions })

module _ (P : Store → Type 0) (stable : Stable P) where
  pub lift_result-Keeps : {A : Type 0} (r : Result Error A) → Keeps P (lift_result r)
  lift_result-Keeps (ok a) s h = h
  lift_result-Keeps (err e) s h = h

  mark-Keeps : (id : ℕ) (m : Mark) → Keeps P (mark_deposit_commission id m)
  unfolding mark_deposit_commission
  mark-Keeps id m s h = stable.marks s _ _ h

  answer-Keeps :
      (payload : ReferralCommission) (o : Option (ℕ × ReferralCommission))
      → Keeps P (answer_existing payload o)
  answer-Keeps payload none s h = h
  answer-Keeps payload (some (id, c)) s h = elim (Bool-cases (same_snapshot c payload)) [
    | inl same ↦ rw same h
    | inr other ↦ rw other h
  ]

  create-Keeps :
      (id : ℕ) (payload : ReferralCommission)
      → payload.status ≡ CommissionStatus.available
      → payload.payout_request_id ≡ none
      → Keeps P (create_commission_record id payload)
  unfolding create_commission_record
  create-Keeps id payload status unclaimed s h =
      elim (Option-cases
        (find_commission payload.source_id payload.referrer_user_id s.commissions)) [
          | inr (c, found) ↦ rw found (answer-Keeps payload (some c) s h)
          | inl missing ↦ elim (Option-cases (find id s.commissions)) [
            | inr (c, used) ↦ rw (missing, used) h
            | inl fresh ↦
                rw (missing, fresh) (stable.earns s id payload fresh missing status unclaimed h)
          ]
        ]

  mark_pure-Keeps :
      {A : Type 0} (id : ℕ) (m : Mark) (a : A) → Keeps P (mark_deposit_commission id m >> pure a)
  unfolding mark_deposit_commission
  mark_pure-Keeps id m a s h = stable.marks s _ _ h

  without-Keeps :
      (id now : ℕ) (outcome : CommissionOutcome) → Keeps P (without_commission id now outcome)
  without-Keeps id now outcome = mark_pure-Keeps id _ _

  configuration-Keeps : (id now : ℕ) (e : Error) → Keeps P (configuration_failed id now e)
  unfolding configuration_failed mark_deposit_commission
  configuration-Keeps id now e s h = elim (Bool-cases (is_operational e)) [
    | inl yes_it_is ↦
        rw yes_it_is (mark-Keeps id (failed CommissionOutcome.failed_configuration e now) s h)
    | inr no_it_is ↦ rw no_it_is h
  ]

  failed-Keeps : (id now : ℕ) (e : Error) → Keeps P (commission_failed id now e)
  unfolding commission_failed mark_deposit_commission
  failed-Keeps id now commission_conflict s h = stable.marks s _ _ h
  failed-Keeps id now e s h = configuration-Keeps id now e s h

  snapshot-Keeps :
      (id deposit_id : ℕ) (payload : ReferralCommission) (now : ℕ)
      → payload.status ≡ CommissionStatus.available
      → payload.payout_request_id ≡ none
      → Keeps P (record_snapshot id deposit_id payload now)
  unfolding record_snapshot
  snapshot-Keeps id deposit_id payload now status unclaimed =
      Keeps-bind P (create_commission_record id payload)
        (λ result.
          mark_deposit_commission deposit_id
            (processed result.outcome (id_of result.commission) now)
          >> pure result)
        (create-Keeps id payload status unclaimed) (λ result. mark_pure-Keeps deposit_id _ result)

  module _ (divide : ℕ → ℕ → ℕ) (id deposit_id : ℕ) (d : DepositRequest) (amount : Amount)
      (currency : Text) (completed_at now : ℕ) where
    record-Keeps :
        (referred : User) (referrer_id : ℕ) (referrer : User) (until : ℕ) (percent : Amount)
        → Keeps P (
            record_commission divide id deposit_id d amount currency completed_at now referred
              referrer_id referrer until percent)
    unfolding record_commission
    record-Keeps referred referrer_id referrer until percent s h =
        elim (Result-cases (
          build_fx_commission_snapshot divide amount currency (or_usd referrer.currency) percent
            s)) [
              | inl (fx, e) ↦ rw e (
                  snapshot-Keeps id deposit_id
                    (new_commission deposit_id d.user_id referrer_id fx
                      (or_now referred.referred_at) until completed_at)
                    now refl refl s h)
              | inr (x, e) ↦ rw e h
            ]

    eligible-Keeps :
        (e : Eligibility)
        → Keeps P (process_eligible divide id deposit_id d amount currency completed_at now e)
    eligible-Keeps (ineligible outcome) s h = without-Keeps deposit_id now outcome s h
    eligible-Keeps (eligible referred referrer_id referrer until) s h =
        elim (Result-cases (resolve_commission_percent referrer s)) [
          | inr (x, e) ↦ rw e h
          | inl (percent, e) ↦ rw e (
              Keeps-if P (is_zero percent)
                (without_commission deposit_id now CommissionOutcome.zero_percent)
                (catch
                  (record_commission divide id deposit_id d amount currency completed_at now
                    referred referrer_id referrer until percent)
                  (commission_failed deposit_id now))
                (λ _. without-Keeps deposit_id now CommissionOutcome.zero_percent)
                (λ _.
                  Keeps-catch P
                    (record_commission divide id deposit_id d amount currency completed_at now
                      referred referrer_id referrer until percent)
                    (commission_failed deposit_id now)
                    (record-Keeps referred referrer_id referrer until percent)
                    (failed-Keeps deposit_id now))
                s h)
        ]

    pub process_deposit_referral_commission-Keeps : Keeps P (
        process_deposit_referral_commission divide id deposit_id d amount currency completed_at now)
    unfolding process_deposit_referral_commission mark_deposit_commission
    process_deposit_referral_commission-Keeps s h = elim (Bool-cases (is_approved d.status)) [
      | inl approved ↦ rw approved (eligible-Keeps _ _ (stable.marks s _ _ h))
      | inr other ↦ rw other (without-Keeps deposit_id now CommissionOutcome.not_approved s h)
    ]
