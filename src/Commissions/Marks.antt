-- ===== src/Commissions/Marks.antt =====
-- markDepositCommission of src/modules/referrals/referralCommission.service.js, and the marks.
use kanz_coins_backend.Prelude.{ℕ, Option, none, some}
use kanz_coins_backend.Prelude.Table.{modify}
use kanz_coins_backend.Prelude.Exec.{Exec, modify_state}
use kanz_coins_backend.Errors.{Error}
use kanz_coins_backend.Store.{Store, CommissionOutcome, DepositRequest, ProcessingStatus}

-- The five fields that `markDepositCommission` sets.
pub record Mark : Type 0 where
  pub status : ProcessingStatus
  pub outcome : Option CommissionOutcome
  pub commission_id : Option ℕ
  pub processed_at : Option ℕ
  pub error : Option Error

abbrev pub set_mark : Mark → DepositRequest → DepositRequest
set_mark m d = record d {
  commission_processing_status = m.status;
  commission_outcome = m.outcome;
  commission_id = m.commission_id;
  commission_processed_at = m.processed_at;
  commission_error = m.error;
}

-- `markDepositCommission`
unfoldable pub mark_deposit_commission : ℕ → Mark → Exec Store Error (Unit {0})
mark_deposit_commission deposit_id m =
    modify_state (λ s. record s { deposits = modify deposit_id (set_mark m) s.deposits })

abbrev pub not_applicable : CommissionOutcome → ℕ → Mark
not_applicable outcome now = record {
  status = ProcessingStatus.not_applicable;
  outcome = some outcome;
  commission_id = none;
  processed_at = some now;
  error = none;
}

abbrev pub in_progress : Mark
in_progress = record {
  status = ProcessingStatus.pending;
  outcome = none;
  commission_id = none;
  processed_at = none;
  error = none;
}

abbrev pub processed : CommissionOutcome → Option ℕ → ℕ → Mark
processed outcome commission_id now = record {
  status = ProcessingStatus.processed;
  outcome = some outcome;
  commission_id = commission_id;
  processed_at = some now;
  error = none;
}

abbrev pub failed : CommissionOutcome → Error → ℕ → Mark
failed outcome e now = record {
  status = ProcessingStatus.failed;
  outcome = some outcome;
  commission_id = none;
  processed_at = some now;
  error = some e;
}
