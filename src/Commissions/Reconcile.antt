-- ===== src/Commissions/Reconcile.antt =====
-- The administrator's side of src/modules/referrals/referralCommission.service.js:
-- reconcileReferralCommissions processes approved deposits again, and setReferralCommissionOverride
-- sets a referrer's percentage. The cursor's documents are those of its start.
use kanz_coins_backend.Prelude.{
  ℕ, ◌+◌, Bool, true, false, ◌&&◌, ◌||◌, not, Option, none, some, [], ◌∷◌, inl, inr,
}
use kanz_coins_backend.Prelude.Tests.{if◌then◌else◌, ◌==◌, leb, Bool-cases}
use kanz_coins_backend.Prelude.Table.{Table, find, modify}
use kanz_coins_backend.Prelude.Query.{select_rows}
use kanz_coins_backend.Prelude.Exec.{
  Exec, Result, ok, err, pure, gets, or_throw, modify_state, Keeps, Keeps-bind, ◌>>=◌, ◌>>◌,
}
use kanz_coins_backend.Money.{Amount}
use kanz_coins_backend.Errors.{Error, not_found}
use kanz_coins_backend.Db.{User}
use kanz_coins_backend.Payouts.Validation.{lift_result}
use kanz_coins_backend.Payouts.Selection.{is_none}
use kanz_coins_backend.Store.{Store, DepositRequest, ProcessingStatus, CommissionOutcome}
use kanz_coins_backend.Commissions.{
  is_approved, Processed, process_deposit_referral_commission, or_now,
}
use kanz_coins_backend.Commissions.Keeps.{Stable, process_deposit_referral_commission-Keeps}
use kanz_coins_backend.Commissions.Rates.{validate_commission_percent}

pub record ReconciliationFilter : Type 0 where
  pub deposit_id : Option ℕ
  pub from : Option ℕ
  pub to : Option ℕ
  pub failed_only : Bool

-- `RETRYABLE_COMMISSION_STATUSES`
abbrev is_retryable : ProcessingStatus → Bool
is_retryable ProcessingStatus.failed = true
is_retryable _ = false

abbrev is_id : Option ℕ → ℕ → Bool
is_id none id = true
is_id (some wanted) id = id == wanted

-- A date that is missing is in no period with an end.
abbrev is_from : Option ℕ → Option ℕ → Bool
is_from none date = true
is_from (some from) none = false
is_from (some from) (some date) = leb from date

abbrev is_to : Option ℕ → Option ℕ → Bool
is_to none date = true
is_to (some to) none = false
is_to (some to) (some date) = leb date to

-- `buildReconciliationFilter`
unfoldable pub matches : ReconciliationFilter → ℕ → DepositRequest → Bool
matches filter id d =
    is_approved d.status
    && is_id filter.deposit_id id
    && (not filter.failed_only || is_retryable d.commission_processing_status)
    && is_from filter.from d.reviewed_at
    && is_to filter.to d.reviewed_at

-- `.sort({ _id: 1 })`
abbrev insert_deposit : ℕ × DepositRequest → Table DepositRequest → Table DepositRequest
insert_deposit (i, d) [] = (i, d) ∷ []
insert_deposit (i, d) ((j, e) ∷ rows) =
    if leb i j then (i, d) ∷ (j, e) ∷ rows else (j, e) ∷ insert_deposit (i, d) rows

abbrev pub by_id : Table DepositRequest → Table DepositRequest
by_id [] = []
by_id (row ∷ rows) = insert_deposit row (by_id rows)

pub record Reconciliation : Type 0 where
  pub scanned : ℕ
  pub candidates : ℕ
  pub processed : ℕ
  pub created : ℕ
  pub already_exists : ℕ
  pub failed : ℕ
  pub skipped : ℕ

abbrev counted : CommissionOutcome → Reconciliation → Reconciliation
counted CommissionOutcome.created r = record r { created = r.created + 1 }
counted CommissionOutcome.already_exists r = record r { already_exists = r.already_exists + 1 }
counted CommissionOutcome.failed_configuration r = record r { failed = r.failed + 1 }
counted _ r = r

abbrev scan : Reconciliation → Reconciliation
scan r = record r { scanned = r.scanned + 1 }

abbrev nothing_yet : Reconciliation
nothing_yet = record {
  scanned = 0;
  candidates = 0;
  processed = 0;
  created = 0;
  already_exists = 0;
  failed = 0;
  skipped = 0;
}

-- `new_id` is the id that a new commission of a deposit gets.
module _ (divide : ℕ → ℕ → ℕ) (new_id : ℕ → ℕ) (now : ℕ) where
  unfoldable pub reconcile_one :
      ℕ → DepositRequest → Reconciliation → Exec Store Error Reconciliation
  reconcile_one id d r = do
    outcome ←
        process_deposit_referral_commission divide (new_id id) id d d.requested_amount d.currency
          (or_now d.reviewed_at) now
    pure (counted outcome.outcome (record r { processed = r.processed + 1 }))

  -- The loop. A deposit that is not approved is skipped; a dry run only counts.
  unfoldable pub reconcile_each :
      Bool → Table DepositRequest → Reconciliation → Exec Store Error Reconciliation
  reconcile_each dry_run [] r = pure r
  reconcile_each dry_run ((id, d) ∷ rows) r =
      let seen = scan r in
      elim (is_approved d.status) [
        | false ↦ reconcile_each dry_run rows (record seen { skipped = seen.skipped + 1 })
        | true ↦
            let candidate = record seen { candidates = seen.candidates + 1 } in
            elim dry_run [
              | true ↦ reconcile_each dry_run rows candidate
              | false ↦ reconcile_one id d candidate >>= reconcile_each dry_run rows
            ]
      ]

  -- `reconcileReferralCommissions`
  unfoldable pub reconcile_referral_commissions :
      Bool → ReconciliationFilter → Exec Store Error Reconciliation
  reconcile_referral_commissions dry_run filter = do
    rows ← gets (λ (s : Store). by_id (select_rows (matches filter) s.deposits))
    reconcile_each dry_run rows nothing_yet

  module _ (P : Store → Type 0) (stable : Stable P) where
    reconcile_one-Keeps :
        (id : ℕ) (d : DepositRequest) (r : Reconciliation) → Keeps P (reconcile_one id d r)
    unfolding reconcile_one
    reconcile_one-Keeps id d r s h =
        let m =
          process_deposit_referral_commission divide (new_id id) id d d.requested_amount d.currency
            (or_now d.reviewed_at) now in
        Keeps-bind P m
          (λ (o : Processed). pure (counted o.outcome (record r { processed = r.processed + 1 })))
          (process_deposit_referral_commission-Keeps P stable divide (new_id id) id d
            d.requested_amount d.currency (or_now d.reviewed_at) now)
          (λ o s h. h) s h

    reconcile_each-Keeps :
        (dry_run : Bool) (rows : Table DepositRequest) (r : Reconciliation)
        → Keeps P (reconcile_each dry_run rows r)
    unfolding reconcile_each
    reconcile_each-Keeps dry_run [] r s h = h
    reconcile_each-Keeps true ((id, d) ∷ rows) r s h = elim (Bool-cases (is_approved d.status)) [
      | inl approved ↦ rw (approved, reconcile_each) (reconcile_each-Keeps true rows _ s h)
      | inr other ↦ rw (other, reconcile_each) (reconcile_each-Keeps true rows _ s h)
    ]
    reconcile_each-Keeps false ((id, d) ∷ rows) r s h = elim (Bool-cases (is_approved d.status)) [
      | inr other ↦ rw (other, reconcile_each) (reconcile_each-Keeps false rows _ s h)
      | inl approved ↦
          let seen = scan r in
          rw (approved, reconcile_each)
            (Keeps-bind P (reconcile_one id d (record seen { candidates = seen.candidates + 1 }))
              (reconcile_each false rows) (reconcile_one-Keeps id d _)
              (λ next. reconcile_each-Keeps false rows next) s h)
    ]

    pub reconcile_referral_commissions-Keeps :
        (dry_run : Bool) (filter : ReconciliationFilter)
        → Keeps P (reconcile_referral_commissions dry_run filter)
    unfolding reconcile_referral_commissions
    reconcile_referral_commissions-Keeps dry_run filter s h =
        reconcile_each-Keeps dry_run (by_id (select_rows (matches filter) s.deposits)) nothing_yet s
          h

-- `setReferralCommissionOverride`: no percentage, or one that is valid. `save` writes the field that
-- was changed.
abbrev with_override : Option Amount → User → User
with_override percent u = record u { referral_commission_percent_override = percent }

abbrev checked_override : Option Amount → Result Error (Option Amount)
checked_override none = ok none
checked_override (some percent) = elim (validate_commission_percent (some percent)) [
  | ok valid ↦ ok (some valid)
  | err e ↦ err e
]

abbrev undeleted : Option User → Option User
undeleted none = none
undeleted (some u) = if is_none u.deleted_at then some u else none

unfoldable pub set_referral_commission_override :
    ℕ → Option Amount → Exec Store Error (Option Amount)
set_referral_commission_override user_id percent = do
  next ← lift_result (checked_override percent)
  user ← or_throw (← gets (λ (s : Store). undeleted (find user_id s.db.users))) (not_found "User")
  modify_state (λ s. record s {
    db = record s.db { users = modify user_id (with_override next) s.db.users };
  })
  pure next
