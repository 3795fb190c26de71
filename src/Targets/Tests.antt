-- ===== src/Targets/Tests.antt =====
-- The reviews of src/modules/targets/target.service.js at concrete target orders.
use kanz_coins_backend.Prelude.{◌≡◌, refl, none, some, [], ◌∷◌}
use kanz_coins_backend.Prelude.Int.{pos}
use kanz_coins_backend.Prelude.Text.{codes}
use kanz_coins_backend.Prelude.Table.{find}
use kanz_coins_backend.Targets.{
  TargetOrder, TargetOrderStatus, Targets, set_approved, set_rejected, approve_target_order,
  reject_target_order,
}
use kanz_coins_backend.Targets.Reviews.{verdict, review-verdict, Step, steps, reviewed_stays}

abbrev waiting : TargetOrder
waiting = record {
  user_id = 7;
  coin_amount = 100;
  total_price = pos 5000000;
  status = TargetOrderStatus.pending;
  reviewed_by = none;
  reviewed_at = none;
  admin_notes = none;
}

abbrev targets : Targets
targets = (1, waiting) ∷ (2, set_approved 9 3 waiting) ∷ []

found_1 : find 1 targets ≡ some waiting
unfolding find
found_1 = refl

found_2 : find 2 targets ≡ some (set_approved 9 3 waiting)
unfolding find
found_2 = refl

review-verdict_example :
    (approve_target_order 1 9 4 targets ≡ verdict 1 (set_approved 9 4) targets)
    × (reject_target_order 1 9 4 (some (codes "no")) targets
        ≡ verdict 1 (set_rejected 9 4 (some (codes "no"))) targets)
review-verdict_example = review-verdict 1 9 4 (some (codes "no")) targets

reviewed_stays_example :
    find 2
      (steps (Step.reject 2 8 5 none ∷ Step.read_to_approve 2 ∷ Step.approve 1 8 6 ∷ []) targets)
    ≡ some (set_approved 9 3 waiting)
reviewed_stays_example =
    reviewed_stays (Step.reject 2 8 5 none ∷ Step.read_to_approve 2 ∷ Step.approve 1 8 6 ∷ []) 2
      targets (set_approved 9 3 waiting) found_2 refl
