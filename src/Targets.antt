-- ===== src/Targets.antt =====
-- src/modules/targets/target.service.js: the review of a target order, by approveTargetOrder and
-- rejectTargetOrder. Each reads the order, looks at its status, and writes in a step of its own.
-- Audit entries, notifications and the populated document that is returned are left out.
pub mod Reviews
mod Tests
use kanz_coins_backend.Prelude.{ℕ, Bool, true, false, Option, none, some, [], ◌∷◌}
use kanz_coins_backend.Prelude.Tests.{if◌then◌else◌}
use kanz_coins_backend.Prelude.Text.{Text, trim}
use kanz_coins_backend.Prelude.Table.{Table, find, modify}
use kanz_coins_backend.Prelude.Exec.{Exec, pure, throw, gets, or_throw, throw_if, ◌>>=◌, ◌>>◌}
use kanz_coins_backend.Money.{Amount}
use kanz_coins_backend.Errors.{
  Error, not_found, target_order_already_approved, target_order_already_rejected,
  target_order_already_reviewed,
}

pub data TargetOrderStatus : Type 0 where
  pending approved rejected : TargetOrderStatus

pub record TargetOrder : Type 0 where
  pub user_id : ℕ
  pub coin_amount : ℕ
  pub total_price : Amount
  pub status : TargetOrderStatus
  pub reviewed_by : Option ℕ
  pub reviewed_at : Option ℕ
  pub admin_notes : Option Text

abbrev pub Targets : Type 0
Targets = Table TargetOrder

abbrev pub is_pending : TargetOrderStatus → Bool
is_pending TargetOrderStatus.pending = true
is_pending _ = false

abbrev pub is_approved : TargetOrderStatus → Bool
is_approved TargetOrderStatus.approved = true
is_approved _ = false

abbrev pub is_rejected : TargetOrderStatus → Bool
is_rejected TargetOrderStatus.rejected = true
is_rejected _ = false

-- `adminNotes || null`, which the schema trims.
abbrev pub notes_or_null : Option Text → Option Text
notes_or_null (some (c ∷ s)) = some (trim (c ∷ s))
notes_or_null _ = none

-- The documents that the two reviews write.
abbrev pub set_approved : ℕ → ℕ → TargetOrder → TargetOrder
set_approved admin now o = record o {
  status = TargetOrderStatus.approved;
  reviewed_by = some admin;
  reviewed_at = some now;
}

abbrev pub set_rejected : ℕ → ℕ → Option Text → TargetOrder → TargetOrder
set_rejected admin now notes o = record o {
  status = TargetOrderStatus.rejected;
  reviewed_by = some admin;
  reviewed_at = some now;
  admin_notes = notes_or_null notes;
}

abbrev pub load_target : ℕ → Exec Targets Error TargetOrder
load_target id = do or_throw (← gets (λ (t : Targets). find id t)) (not_found "TargetOrder")

-- `findOneAndUpdate({ _id, status: PENDING }, { $set }, { new: true })`, and the error when it
-- matched nothing.
unfoldable pub write_review : ℕ → (TargetOrder → TargetOrder) → Exec Targets Error TargetOrder
write_review id set t = elim (find id t) [
  | none ↦ (throw target_order_already_reviewed t)
  | some o ↦
      if is_pending o.status
      then pure (set o) (modify id set t)
      else throw target_order_already_reviewed t
]

-- What each review looks at before it writes.
unfoldable pub read_approval : ℕ → Exec Targets Error (Unit {0})
read_approval id = do
  existing ← load_target id
  throw_if (is_approved existing.status) target_order_already_approved
  throw_if (is_rejected existing.status) target_order_already_rejected

unfoldable pub read_rejection : ℕ → Exec Targets Error (Unit {0})
read_rejection id = do
  existing ← load_target id
  throw_if (is_rejected existing.status) target_order_already_rejected
  throw_if (is_approved existing.status) target_order_already_approved

-- `approveTargetOrder` and `rejectTargetOrder`
unfoldable pub approve_target_order : ℕ → ℕ → ℕ → Exec Targets Error TargetOrder
approve_target_order id admin now = do read_approval id; write_review id (set_approved admin now)

unfoldable pub reject_target_order : ℕ → ℕ → ℕ → Option Text → Exec Targets Error TargetOrder
reject_target_order id admin now notes = do
  read_rejection id
  write_review id (set_rejected admin now notes)
