-- ===== src/Payouts/Reviews.antt =====
-- What a review does where payouts and commissions agree: it goes through, and a rejection gives the
-- commissions back.
use kanz_coins_backend.Prelude.{
  ℕ, true, false, ◌&&◌, Option, none, some, List, [], ◌∷◌, ◌≡◌, refl, sym, ap, subst, inl, inr,
  arith,
}
use kanz_coins_backend.Prelude.Tests.{Bool-cases, ==_refl}
use kanz_coins_backend.Prelude.Lists.{length}
use kanz_coins_backend.Prelude.Text.{Text, same_text}
use kanz_coins_backend.Prelude.Table.{Table, find, modify, find-modify_self, modify-modify}
use kanz_coins_backend.Prelude.Query.{
  member, update_in, Has, AllRows, All-map, rows_found, count_in_complete,
}
use kanz_coins_backend.Prelude.Exec.{ok}
use kanz_coins_backend.Money.{Amount}
use kanz_coins_backend.Store.{Store, ReferralCommission, CommissionStatus, ReferralPayout}
use kanz_coins_backend.Payouts.{
  PayoutInput, FingerprintPayload, is_wallet_credit, update_commissions, is_claimable, set_locked,
  new_payout, create_referral_payout, fingerprint_of,
}
use kanz_coins_backend.Payouts.Review.{
  is_pending, is_locked_by, update_pending, assert_commissions_locked, move_commissions,
  set_released, set_commission_paid, set_reviewed, set_rejected, set_paid_by_hand, normalize_reason,
  normalize_external_reference, reject_referral_payout, mark_manual_referral_payout_paid,
  finish_payment,
}
use kanz_coins_backend.Payouts.Invariant.{IsConsistent, is_named_by}
use kanz_coins_backend.Payouts.Claim.{claim-Agrees}
use kanz_coins_backend.Payouts.Ends.{reviewed, all_locked, all_moved}
use kanz_coins_backend.Payouts.CreateEnds.{Claims, create_ends, with_payout}

reject_runs :
    (id : ℕ) (reason x : Text) (admin now : ℕ) (s : Store) (p : ReferralPayout)
    → normalize_reason reason ≡ ok x
    → find id s.payouts ≡ some p
    → is_pending p.status ≡ true
    → all_locked id p s ≡ true
    → all_moved id p s ≡ true
    → reject_referral_payout id reason admin now s
      ≡ (ok (set_rejected admin now x p), reviewed id p (set_rejected admin now x) set_released s)
unfolding reject_referral_payout update_pending assert_commissions_locked move_commissions
    update_commissions
reject_runs id reason x admin now s p good found waits locked moved =
    ground (arith, good, found, waits, locked, moved)

mark_paid_runs :
    (id : ℕ) (text : Text) (x : Option Text) (admin now : ℕ) (s : Store) (p : ReferralPayout)
    → normalize_external_reference text ≡ ok x
    → find id s.payouts ≡ some p
    → is_pending p.status ≡ true
    → is_wallet_credit p.method ≡ false
    → all_locked id p s ≡ true
    → all_moved id p s ≡ true
    → mark_manual_referral_payout_paid id text admin now s ≡ (
      ok (set_paid_by_hand admin now x (set_reviewed admin now p)),
      reviewed id p
          (λ q. set_paid_by_hand admin now x (set_reviewed admin now q))
          set_commission_paid
          s,
    )
unfolding mark_manual_referral_payout_paid update_pending assert_commissions_locked move_commissions
    update_commissions finish_payment
mark_paid_runs id text x admin now s p good found waits manual locked moved =
    let again = find-modify_self id (set_reviewed admin now) s.payouts found in
    let fused =
      modify-modify id (set_paid_by_hand admin now x) (set_reviewed admin now) s.payouts in
    ground (arith, good, found, waits, manual, locked, moved, again, fused)

module _ (s : Store) (h : IsConsistent s) (id : ℕ) (p : ReferralPayout)
    (found : find id s.payouts ≡ some p) (waits : is_pending p.status ≡ true) where
  pub commissions_locked : all_locked id p s ≡ true
  commissions_locked =
      let a = h.of_payouts id p found in
      let test = λ (c : ReferralCommission).
        is_locked_by id p.user_id c && same_text c.referrer_currency p.currency in
      let all = count_in_complete p.commission_ids test s.commissions a.distinct (
        All-map (Has (is_named_by id p) s.commissions) (Has test s.commissions) p.commission_ids
          (λ i _ (c, there, named). (c, there, ground arith)) a.named) in
      rw (all, a.counted, ==_refl (length p.commission_ids))

  pub commissions_moved : all_moved id p s ≡ true
  commissions_moved =
      let a = h.of_payouts id p found in
      let test = is_locked_by id p.user_id in
      let all = count_in_complete p.commission_ids test s.commissions a.distinct (
        All-map (Has (is_named_by id p) s.commissions) (Has test s.commissions) p.commission_ids
          (λ i _ (c, there, named). (c, there, ground arith)) a.named) in
      rw (all, a.counted, ==_refl (length p.commission_ids))

  -- Where payouts and commissions agree a pending payout can always be rejected with a reason that
  -- is not blank and not too long.
  pub reject_goes_through :
      (reason x : Text) (admin now : ℕ)
      → normalize_reason reason ≡ ok x
      → reject_referral_payout id reason admin now s
        ≡ (ok (set_rejected admin now x p), reviewed id p (set_rejected admin now x) set_released s)
  reject_goes_through reason x admin now good =
      reject_runs id reason x admin now s p good found waits commissions_locked commissions_moved

  -- Where payouts and commissions agree a pending payout that is to be paid by hand can always be
  -- marked as paid, with a reference that is not too long.
  pub mark_paid_goes_through :
      (text : Text) (x : Option Text) (admin now : ℕ)
      → is_wallet_credit p.method ≡ false
      → normalize_external_reference text ≡ ok x
      → mark_manual_referral_payout_paid id text admin now s ≡ (
        ok (set_paid_by_hand admin now x (set_reviewed admin now p)),
        reviewed id p
            (λ q. set_paid_by_hand admin now x (set_reviewed admin now q))
            set_commission_paid
            s,
      )
  mark_paid_goes_through text x admin now manual good =
      mark_paid_runs id text x admin now s p good found waits manual commissions_locked
        commissions_moved

claimable_is :
    (c : ReferralCommission) (u : ℕ) (currency : Text)
    → is_claimable u currency c ≡ true
    → (c.status ≡ CommissionStatus.available) × (c.payout_request_id ≡ none)
claimable_is c u currency claimable = ground arith

-- Releasing what was just locked restores every row.
restored :
    (c : ReferralCommission) (id u : ℕ) (currency : Text)
    → is_claimable u currency c ≡ true
    → set_released (set_locked id c) ≡ c
restored c id u currency claimable =
    let (free, unclaimed) = claimable_is c u currency claimable in rw (← free, ← unclaimed) refl

release-claim :
    (id u : ℕ) (currency : Text) (ids : List ℕ) (t : Table ReferralCommission)
    → AllRows (λ _ c. is_locked_by id u c ≡ false) t
    → update_in ids
        (is_locked_by id u)
        set_released
        (update_in ids (is_claimable u currency) (set_locked id) t)
      ≡ t
unfolding update_in
release-claim id u currency ids [] h = refl
release-claim id u currency ids ((i, c) ∷ t) h =
    let rest = release-claim id u currency ids t h.1 in
    elim (Bool-cases (member i ids)) [
      | inr unlisted ↦ rw unlisted (ap (λ r. (i, c) ∷ r) rest)
      | inl listed ↦ elim (Bool-cases (is_claimable u currency c)) [
        | inr kept ↦ rw (listed, kept, h.0) (ap (λ r. (i, c) ∷ r) rest)
        | inl claimable ↦
            let locked : is_locked_by id u (set_locked id c) ≡ true = ground (arith, ==_refl id) in
            rw (listed, claimable, locked, restored c id u currency claimable)
              (ap (λ r. (i, c) ∷ r) rest)
      ]
    ]

-- No commission is locked by a payout that is not there.
none_locked :
    (id u : ℕ) (s : Store)
    → IsConsistent s
    → find id s.payouts ≡ none
    → AllRows (λ _ c. is_locked_by id u c ≡ false) s.commissions
none_locked id u s h fresh =
    rows_found (λ _ c. is_locked_by id u c ≡ false) s.commissions h.commission_ids
      (λ i c there. elim (Bool-cases (is_locked_by id u c)) [
        | inr free ↦ free
        | inl locked ↦
            let (p, found, _, _) = (h.of_commissions i c there).holder id (ground arith) in
            absurd (ground (arith, fresh, found))
      ])

abbrev Undone : ℕ → Text → Text → ℕ → ℕ → Store → Store → ReferralPayout → Type 0
Undone id reason x admin now s s' p =
    let (r, s'') = reject_referral_payout id reason admin now s' in
    (r ≡ ok (set_rejected admin now x p))
    × (s''.commissions ≡ s.commissions)
    × (s''.payouts ≡ (id, set_rejected admin now x p) ∷ s.payouts)
    × (s''.db ≡ s.db)

rejected_at_once :
    (id u : ℕ) (input : PayoutInput) (ids : List ℕ) (total : Amount) (fingerprint : Option ℕ)
    (s : Store)
    → IsConsistent s
    → Claims id u input ids total s
    → (reason x : Text) (admin now : ℕ) → normalize_reason reason ≡ ok x
    → Undone id reason x admin now s
        (with_payout id u input ids total fingerprint s)
        (new_payout u input ids total fingerprint)
unfolding find modify
rejected_at_once id u input ids total fingerprint s h claims reason x admin now good =
    let s' = with_payout id u input ids total fingerprint s in
    let created = new_payout u input ids total fingerprint in
    let h' : IsConsistent s' =
      claim-Agrees id u input ids total fingerprint s.commissions s.payouts claims.fresh
        claims.summed claims.claimable h in
    let e = reject_goes_through s' h' id created (rw (==_refl id)) refl reason x admin now good in
    rw e (
      refl,
      release-claim id u input.currency ids s.commissions (none_locked id u s h claims.fresh),
      rw (==_refl id),
      refl,
    )

made_is :
    (id u : ℕ) (input : PayoutInput) (ids : List ℕ) (total : Amount) (fingerprint : Option ℕ)
    (s : Store) (p : ReferralPayout)
    → find id (with_payout id u input ids total fingerprint s).payouts ≡ some p
    → p ≡ new_payout u input ids total fingerprint
unfolding find
made_is id u input ids total fingerprint s p made = ground (arith, ==_refl id)

-- In a store where payouts and commissions agree, a request that makes a new payout, followed by the
-- rejection of that payout, gives back every commission as it was, moves no money, and leaves the
-- payout as rejected beside the others.
pub reject-create :
    (hash : FingerprintPayload → ℕ) (id u : ℕ) (input : PayoutInput) (s : Store)
    (p : ReferralPayout) (reason x : Text) (admin now : ℕ)
    → IsConsistent s
    → find id s.payouts ≡ none
    → find id (create_referral_payout hash id u input s).1.payouts ≡ some p
    → normalize_reason reason ≡ ok x
    → let s' = (create_referral_payout hash id u input s).1 in
      let (r, s'') = reject_referral_payout id reason admin now s' in
      (r ≡ ok (set_rejected admin now x p))
      × (s''.commissions ≡ s.commissions)
      × (s''.payouts ≡ (id, set_rejected admin now x p) ∷ s.payouts)
      × (s''.db ≡ s.db)
reject-create hash id u input s p reason x admin now h fresh made good =
    elim (create_ends hash id u input s) [
      | inl same ↦ absurd (ground (arith, same, made, fresh))
      | inr (ids, total, claims, ends) ↦
          let fingerprint = fingerprint_of hash input in
          let created = new_payout u input ids total fingerprint in
          let is : p ≡ created =
            made_is id u input ids total fingerprint s p
              (subst (λ (s' : Store). find id s'.payouts ≡ some p) ends made) in
          subst (λ s'. Undone id reason x admin now s s' p) (sym ends)
            (subst (Undone id reason x admin now s (with_payout id u input ids total fingerprint s))
              (sym is)
              (rejected_at_once id u input ids total fingerprint s h claims reason x admin now
                good))
    ]
