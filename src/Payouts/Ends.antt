-- ===== src/Payouts/Ends.antt =====
-- How a call of the payout service ends: it leaves the store as it was, or it makes the one change
-- that it is for.
use kanz_coins_backend.Prelude.{ℕ, Bool, true, false, ◌&&◌, Option, some, ◌≡◌, inl, inr, ◌⊎◌, arith}
use kanz_coins_backend.Prelude.Tests.{◌==◌, Bool-cases, Option-cases}
use kanz_coins_backend.Prelude.Text.{Text, same_text}
use kanz_coins_backend.Prelude.Table.{find, modify, find-modify_self, modify-modify}
use kanz_coins_backend.Prelude.Query.{update_in, count_in}
use kanz_coins_backend.Prelude.Exec.{ok, Result-cases}
use kanz_coins_backend.Store.{Store, ReferralCommission, ReferralPayout}
use kanz_coins_backend.Payouts.{is_wallet_credit, update_commissions}
use kanz_coins_backend.Payouts.Review.{
  is_pending, is_locked_by, update_pending, throw_reviewed_conflict, assert_commissions_locked,
  move_commissions, set_released, set_commission_paid, set_reviewed, set_rejected, set_paid_by_hand,
  normalize_reason, normalize_external_reference, reject_referral_payout, finish_payment,
  mark_manual_referral_payout_paid,
}

-- The store after a review: the payout is rewritten, and its commissions go along.
abbrev pub reviewed :
    ℕ
    → ReferralPayout
    → (ReferralPayout → ReferralPayout)
    → (ReferralCommission → ReferralCommission)
    → Store
    → Store
reviewed id p f g s = record s {
  payouts = modify id f s.payouts;
  commissions = update_in p.commission_ids (is_locked_by id p.user_id) g s.commissions;
}

-- The commissions of the payout are all locked by it, in its currency.
abbrev pub all_locked : ℕ → ReferralPayout → Store → Bool
all_locked id p s =
    count_in p.commission_ids
      (λ c. is_locked_by id p.user_id c && same_text c.referrer_currency p.currency) s.commissions
    == p.commission_count

abbrev pub all_moved : ℕ → ReferralPayout → Store → Bool
all_moved id p s =
    count_in p.commission_ids (is_locked_by id p.user_id) s.commissions == p.commission_count

pub reject_ends :
    (id : ℕ) (reason : Text) (admin now : ℕ) (s : Store)
    → let (r, s') = reject_referral_payout id reason admin now s in
      (s' ≡ s)
      ⊎ ((p : ReferralPayout) × (x : Text) × (find id s.payouts ≡ some p)
          × (is_pending p.status ≡ true)
          × (r ≡ ok (set_rejected admin now x p))
          × (s' ≡ reviewed id p (set_rejected admin now x) set_released s))
unfolding reject_referral_payout update_pending throw_reviewed_conflict assert_commissions_locked
    move_commissions update_commissions
reject_ends id reason admin now s = elim (Result-cases (normalize_reason reason)) [
  | inr (e, bad) ↦ inl (ground (arith, bad))
  | inl (x, good) ↦ elim (Option-cases (find id s.payouts)) [
    | inl missing ↦ inl (ground (arith, good, missing))
    | inr (p, found) ↦ elim (Bool-cases (is_pending p.status)) [
      | inr over ↦ inl (ground (arith, good, found, over))
      | inl waits ↦ elim (Bool-cases (all_locked id p s)) [
        | inr unlocked ↦ inl (ground (arith, good, found, waits, unlocked))
        | inl locked ↦ elim (Bool-cases (all_moved id p s)) [
          | inr short ↦ inl (ground (arith, good, found, waits, locked, short))
          | inl moved ↦ inr (
            p,
            x,
            found,
            waits,
            ground (arith, good, found, waits, locked, moved),
            ground (arith, good, found, waits, locked, moved),
          )
        ]
      ]
    ]
  ]
]

pub mark_paid_ends :
    (id : ℕ) (external_reference : Text) (admin now : ℕ) (s : Store)
    → let (r, s') = mark_manual_referral_payout_paid id external_reference admin now s in
      (s' ≡ s)
      ⊎ ((p : ReferralPayout) × (x : Option Text) × (find id s.payouts ≡ some p)
          × (is_pending p.status ≡ true)
          × (is_wallet_credit p.method ≡ false)
          × (r ≡ ok (set_paid_by_hand admin now x (set_reviewed admin now p)))
          × (s'
              ≡ reviewed id p
                  (λ q. set_paid_by_hand admin now x (set_reviewed admin now q))
                  set_commission_paid
                  s))
unfolding mark_manual_referral_payout_paid update_pending throw_reviewed_conflict
    assert_commissions_locked move_commissions update_commissions finish_payment
mark_paid_ends id external_reference admin now s =
    elim (Result-cases (normalize_external_reference external_reference)) [
      | inr (e, bad) ↦ inl (ground (arith, bad))
      | inl (x, good) ↦ elim (Option-cases (find id s.payouts)) [
        | inl missing ↦ inl (ground (arith, good, missing))
        | inr (p, found) ↦ elim (Bool-cases (is_pending p.status)) [
          | inr over ↦ inl (ground (arith, good, found, over))
          | inl waits ↦ elim (Bool-cases (is_wallet_credit p.method)) [
            | inl wrong ↦ inl (ground (arith, good, found, waits, wrong))
            | inr manual ↦ elim (Bool-cases (all_locked id p s)) [
              | inr unlocked ↦ inl (ground (arith, good, found, waits, manual, unlocked))
              | inl locked ↦ elim (Bool-cases (all_moved id p s)) [
                | inr short ↦ inl (ground (arith, good, found, waits, manual, locked, short))
                | inl moved ↦
                    let again = find-modify_self id (set_reviewed admin now) s.payouts found in
                    let fused =
                      modify-modify id (set_paid_by_hand admin now x) (set_reviewed admin now)
                        s.payouts in
                    inr (
                      p,
                      x,
                      found,
                      waits,
                      manual,
                      ground (arith, good, found, waits, manual, locked, moved, again, fused),
                      ground (arith, good, found, waits, manual, locked, moved, again, fused),
                    )
              ]
            ]
          ]
        ]
      ]
    ]
