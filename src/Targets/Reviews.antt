-- ===== src/Targets/Reviews.antt =====
-- What the reviews of src/modules/targets/target.service.js do to a target order, alone and
-- interleaved: a step of a run is one read or one write of one of the calls.
use kanz_coins_backend.Prelude.{ℕ, ◌≡◌, inl, inr, false, Option, none, some, List, [], ◌∷◌, arith}
use kanz_coins_backend.Prelude.Tests.{◌==◌, ==_iff, Bool-cases}
use kanz_coins_backend.Prelude.Text.{Text}
use kanz_coins_backend.Prelude.Table.{find, modify, find-modify_self, find-modify_ne}
use kanz_coins_backend.Prelude.Exec.{Exec, ok, err}
use kanz_coins_backend.Errors.{
  Error, not_found, target_order_already_approved, target_order_already_rejected,
  target_order_already_reviewed,
}
use kanz_coins_backend.Targets.{
  TargetOrder, TargetOrderStatus, Targets, is_pending, set_approved, set_rejected, write_review,
  read_approval, read_rejection, approve_target_order, reject_target_order,
}

-- A review in one step: the verdict on the order that is there.
abbrev pub verdict : ℕ → (TargetOrder → TargetOrder) → Exec Targets Error TargetOrder
verdict id set t = elim (find id t) [
  | none ↦ (err (not_found "TargetOrder"), t)
  | some o ↦ elim o.status [
    | TargetOrderStatus.pending ↦ (ok (set o), modify id set t)
    | TargetOrderStatus.approved ↦ (err target_order_already_approved, t)
    | TargetOrderStatus.rejected ↦ (err target_order_already_rejected, t)
  ]
]

-- Both reviews, with no other writer between their read and their write, are the one-step verdict:
-- a missing order is not found, a reviewed one is refused by its own status, and a PENDING one is
-- written and returned.
pub review-verdict :
    (id admin now : ℕ) (notes : Option Text) (t : Targets)
    → (approve_target_order id admin now t ≡ verdict id (set_approved admin now) t)
      × (reject_target_order id admin now notes t ≡ verdict id (set_rejected admin now notes) t)
unfolding approve_target_order reject_target_order read_approval read_rejection write_review
review-verdict id admin now notes t = (ground arith, ground arith)

-- One step of a call that is under way.
pub data Step : Type 0 where
  read_to_approve read_to_reject : ℕ → Step
  approve : (id admin now : ℕ) → Step
  reject : (id admin now : ℕ) → Option Text → Step

abbrev pub step : Step → Targets → Targets
step (read_to_approve id) t = (read_approval id t).1
step (read_to_reject id) t = (read_rejection id t).1
step (approve id admin now) t = (write_review id (set_approved admin now) t).1
step (reject id admin now notes) t = (write_review id (set_rejected admin now notes) t).1

abbrev pub steps : List Step → Targets → Targets
steps [] t = t
steps (s ∷ ss) t = steps ss (step s t)

write_review-reviewed :
    (j id : ℕ) (set : TargetOrder → TargetOrder) (t : Targets) (o : TargetOrder)
    → find id t ≡ some o
    → is_pending o.status ≡ false
    → find id (write_review j set t).1 ≡ some o
unfolding write_review
write_review-reviewed j id set t o found reviewed = elim (Bool-cases (id == j)) [
  | inl same ↦ ground (arith, found, (==_iff id j).0 same)
  | inr other ↦ ground (arith, found, find-modify_ne id j set t (ground arith))
]

read_approval-same : (j : ℕ) (t : Targets) → (read_approval j t).1 ≡ t
unfolding read_approval
read_approval-same j t = ground arith

read_rejection-same : (j : ℕ) (t : Targets) → (read_rejection j t).1 ≡ t
unfolding read_rejection
read_rejection-same j t = ground arith

step-reviewed :
    (s : Step) (id : ℕ) (t : Targets) (o : TargetOrder)
    → find id t ≡ some o
    → is_pending o.status ≡ false
    → find id (step s t) ≡ some o
step-reviewed (read_to_approve j) id t o found reviewed = rw (read_approval-same j t) found
step-reviewed (read_to_reject j) id t o found reviewed = rw (read_rejection-same j t) found
step-reviewed (approve j admin now) id t o found reviewed =
    write_review-reviewed j id (set_approved admin now) t o found reviewed
step-reviewed (reject j admin now notes) id t o found reviewed =
    write_review-reviewed j id (set_rejected admin now notes) t o found reviewed

-- A reviewed order keeps its whole document, whatever reads and writes of reviews follow, in any
-- interleaving.
pub reviewed_stays :
    (ss : List Step) (id : ℕ) (t : Targets) (o : TargetOrder)
    → find id t ≡ some o
    → is_pending o.status ≡ false
    → find id (steps ss t) ≡ some o
reviewed_stays [] id t o found reviewed = found
reviewed_stays (s ∷ ss) id t o found reviewed =
    reviewed_stays ss id (step s t) o (step-reviewed s id t o found reviewed) reviewed

-- Two reviews that both read a PENDING order before either wrote, the first with any document that
-- is not PENDING: the first write wins, and the second throws and changes nothing.
pub second_review_loses :
    (id : ℕ) (first second : TargetOrder → TargetOrder) (t : Targets) (o : TargetOrder)
    → find id t ≡ some o
    → o.status ≡ TargetOrderStatus.pending
    → is_pending (first o).status ≡ false
    → let (r, t') = write_review id first t in
      let (r', t'') = write_review id second t' in
      (r ≡ ok (first o))
      × (r' ≡ err target_order_already_reviewed)
      × (t'' ≡ t')
      × (find id t' ≡ some (first o))
unfolding write_review
second_review_loses id first second t o found here reviewed =
    let here' : find id (modify id first t) ≡ some (first o) = find-modify_self id first t found in
    ground (arith, found, here, reviewed, here')
