-- ===== src/Commissions/Repeat.antt =====
-- processDepositReferralCommission of src/modules/referrals/referralCommission.service.js, once and
-- again for the same deposit.
use kanz_coins_backend.Prelude.{
  ℕ, true, false, some, ◌∷◌, ◌≡◌, ◌≢◌, refl, sym, subst, ap, ◌∙◌, inl, inr, arith,
}
use kanz_coins_backend.Prelude.Tests.{Bool-cases, ==_refl}
use kanz_coins_backend.Prelude.Text.{Text}
use kanz_coins_backend.Prelude.Table.{Table, modify}
use kanz_coins_backend.Prelude.Exec.{ok, Result-cases}
use kanz_coins_backend.Money.{Amount}
use kanz_coins_backend.Errors.{Error, commission_conflict}
use kanz_coins_backend.Db.{User}
use kanz_coins_backend.Store.{Store, ReferralCommission, CommissionOutcome, DepositRequest, or_usd}
use kanz_coins_backend.Commissions.{
  find_commission, new_commission, create_commission_record, commission_failed,
  configuration_failed, is_zero, is_approved, record_commission, record_snapshot, process_eligible,
  process_deposit_referral_commission, or_now, is_operational,
}
use kanz_coins_backend.Commissions.Marks.{
  Mark, set_mark, mark_deposit_commission, in_progress, processed,
}
use kanz_coins_backend.Commissions.Referrals.{
  Eligibility, eligible, ineligible, evaluate_referral_eligibility,
}
use kanz_coins_backend.Commissions.Rates.{
  FxSnapshot, resolve_commission_percent, build_fx_commission_snapshot,
}
use kanz_coins_backend.Commissions.Records.{
  made, was_made, with_marks, create_made, create_again, evaluate_with, percent_with, fx_with,
}

module _ (divide : ℕ → ℕ → ℕ) (deposit_id : ℕ) (d : DepositRequest) (amount : Amount)
    (currency : Text) (completed_at : ℕ) where
  -- What held where a commission was created.
  record Earned (s : Store) (c : ReferralCommission) : Type 0 where
    referred : User
    referrer_id : ℕ
    referrer : User
    until : ℕ
    percent : Amount
    fx : FxSnapshot
    judged :
        evaluate_referral_eligibility d.user_id completed_at s
        ≡ eligible referred referrer_id referrer until
    resolved : resolve_commission_percent referrer s ≡ ok percent
    nonzero : is_zero percent ≡ false
    rates :
        build_fx_commission_snapshot divide amount currency (or_usd referrer.currency) percent s
        ≡ ok fx
    is :
        new_commission deposit_id d.user_id referrer_id fx
          (or_now referred.referred_at)
          until
          completed_at
        ≡ c

  Earned-with :
      (deposits : Table DepositRequest) (commissions : Table ReferralCommission) (s : Store)
      (c : ReferralCommission)
      → Earned s c
      → Earned (with_marks deposits commissions s) c
  Earned-with deposits commissions s c h = record {
    referred = h.referred;
    referrer_id = h.referrer_id;
    referrer = h.referrer;
    until = h.until;
    percent = h.percent;
    fx = h.fx;
    judged = evaluate_with deposits commissions s d.user_id completed_at ∙ h.judged;
    resolved = percent_with deposits commissions s h.referrer ∙ h.resolved;
    nonzero = h.nonzero;
    rates =
        fx_with deposits commissions s divide amount currency (or_usd h.referrer.currency) h.percent
        ∙ h.rates;
    is = h.is;
  }

  module _ (id now : ℕ) where
    abbrev after_made : ReferralCommission → Store → Store
    after_made c s = record s {
      deposits =
          modify deposit_id (set_mark (processed CommissionOutcome.created (some id) now))
            s.deposits;
      commissions = (id, c) ∷ s.commissions;
    }

    snapshot_made :
        (payload c : ReferralCommission) (s : Store)
        → (record_snapshot id deposit_id payload now s).0 ≡ ok (made id c)
        → (payload ≡ c) × ((record_snapshot id deposit_id payload now s).1 ≡ after_made payload s)
    unfolding record_snapshot mark_deposit_commission
    snapshot_made payload c s h = elim (Result-cases (create_commission_record id payload s).0) [
      | inr (x, e) ↦ absurd (ground (arith, e, h))
      | inl (result, e) ↦
          let is : result ≡ made id c = ground (arith, e, h) in
          let (same, ends) = create_made id payload s c (rw e (rw is refl)) in
          (same, ground (arith, e, ends, is))
    ]

    failed_not_made :
        (e : Error) (c : ReferralCommission) (s : Store)
        → (commission_failed deposit_id now e s).0 ≢ ok (made id c)
    unfolding commission_failed configuration_failed mark_deposit_commission
    failed_not_made commission_conflict c s h = cc h
    failed_not_made e c s h = elim (Bool-cases (is_operational e)) [
      | inl known ↦ ground (arith, known, h)
      | inr unknown ↦ ground (arith, unknown, h)
    ]

    module _ (referred : User) (referrer_id : ℕ) (referrer : User) (until : ℕ) where
      abbrev payload_of : FxSnapshot → ReferralCommission
      payload_of fx =
          new_commission deposit_id d.user_id referrer_id fx (or_now referred.referred_at) until
            completed_at

      Recorded : Amount → Store → Store → ReferralCommission → Type 0
      Recorded percent s s' c =
          (fx : FxSnapshot) × (build_fx_commission_snapshot divide amount currency
              (or_usd referrer.currency) percent s
            ≡ ok fx)
          × (payload_of fx ≡ c)
          × (s' ≡ after_made c s)

      record_made :
          (percent : Amount) (c : ReferralCommission) (s : Store)
          → let (r, s') =
              record_commission divide id deposit_id d amount currency completed_at now referred
                referrer_id referrer until percent s in
            r ≡ ok (made id c) → Recorded percent s s' c
      unfolding record_commission Recorded
      record_made percent c s h =
          elim (Result-cases (
            build_fx_commission_snapshot divide amount currency (or_usd referrer.currency) percent
              s)) [
                | inr (x, e) ↦ absurd (ground (arith, e, h))
                | inl (fx, e) ↦
                    let (same, ends) = snapshot_made (payload_of fx) c s (ground (arith, e, h)) in
                    (fx, e, same, ground (arith, e, ends, same))
              ]

    eligible_made :
        (e : Eligibility) (c : ReferralCommission) (s s' : Store)
        → evaluate_referral_eligibility d.user_id completed_at s ≡ e
        → process_eligible divide id deposit_id d amount currency completed_at now e s
          ≡ (ok (made id c), s')
        → Earned s c × (s' ≡ after_made c s)
    unfolding Recorded mark_deposit_commission
    eligible_made (ineligible outcome) c s s' judged h = absurd (cc h)
    eligible_made (eligible referred referrer_id referrer until) c s s' judged h =
        elim (Result-cases (resolve_commission_percent referrer s)) [
          | inr (x, e) ↦ absurd (ground (arith, e, h))
          | inl (percent, e) ↦ elim (Bool-cases (is_zero percent)) [
            | inl zero ↦ absurd (ground (arith, e, zero, h))
            | inr nonzero ↦
                let m =
                  record_commission divide id deposit_id d amount currency completed_at now referred
                    referrer_id referrer until percent in
                elim (Result-cases (m s).0) [
                  | inr (x, threw) ↦
                      absurd (failed_not_made x c (m s).1 (ground (arith, e, nonzero, threw, h)))
                  | inl (result, done) ↦
                      let (fx, rates, is, ends) =
                        record_made referred referrer_id referrer until percent c s
                          (ground (arith, e, nonzero, done, h)) in
                      (
                        record {
                          referred = referred;
                          referrer_id = referrer_id;
                          referrer = referrer;
                          until = until;
                          percent = percent;
                          fx = fx;
                          judged = judged;
                          resolved = e;
                          nonzero = nonzero;
                          rates = rates;
                          is = is;
                        },
                        ground (arith, e, nonzero, done, h, ends),
                      )
                ]
          ]
        ]

    abbrev marked : Mark → Store → Store
    marked m s = record s { deposits = modify deposit_id (set_mark m) s.deposits }

    process_made :
        (c : ReferralCommission) (s s' : Store)
        → process_deposit_referral_commission divide id deposit_id d amount currency completed_at
            now s
          ≡ (ok (made id c), s')
        → (is_approved d.status ≡ true)
          × Earned (marked in_progress s) c
          × (s' ≡ after_made c (marked in_progress s))
    unfolding process_deposit_referral_commission mark_deposit_commission
    process_made c s s' h = elim (Bool-cases (is_approved d.status)) [
      | inr other ↦ absurd (ground (arith, other, h))
      | inl approved ↦
          let s0 = marked in_progress s in
          let (earned, ends) =
            eligible_made (evaluate_referral_eligibility d.user_id completed_at s0) c s0 s' refl
              (ground (arith, approved, h)) in
          (approved, earned, ends)
    ]

    snapshot_again :
        (i : ℕ) (payload : ReferralCommission) (s : Store)
        → find_commission payload.source_id payload.referrer_user_id s.commissions
          ≡ some (i, payload)
        → record_snapshot id deposit_id payload now s ≡ (
          ok (was_made i payload),
          marked (processed CommissionOutcome.already_exists (some i) now) s,
        )
    unfolding record_snapshot mark_deposit_commission
    snapshot_again i payload s found = ground (arith, create_again id i payload s found)

    eligible_again :
        (i : ℕ) (c : ReferralCommission) (s : Store) (h : Earned s c)
        → find_commission deposit_id c.referrer_user_id s.commissions ≡ some (i, c)
        → process_eligible divide id deposit_id d amount currency completed_at now
            (eligible h.referred h.referrer_id h.referrer h.until)
            s
          ≡ (ok (was_made i c), marked (processed CommissionOutcome.already_exists (some i) now) s)
    unfolding record_commission
    eligible_again i c s h found =
        let payload = payload_of h.referred h.referrer_id h.referrer h.until h.fx in
        let same : payload ≡ c = h.is in
        let found' : find_commission deposit_id h.referrer_id s.commissions ≡ some (i, payload) =
          subst (λ e. find_commission deposit_id e.referrer_user_id s.commissions ≡ some (i, e))
            (sym same) found in
        let e = snapshot_again i payload s found' in
        ground (arith, h.resolved, h.nonzero, h.rates, e, same)

    process_again :
        (i : ℕ) (c : ReferralCommission) (s : Store)
        → is_approved d.status ≡ true
        → (h : Earned s c)
        → find_commission deposit_id c.referrer_user_id s.commissions ≡ some (i, c)
        → let (r, s') =
            process_deposit_referral_commission divide id deposit_id d amount currency completed_at
              now s in
          (r ≡ ok (was_made i c)) × (s'.commissions ≡ s.commissions) × (s'.db ≡ s.db)
    unfolding process_deposit_referral_commission mark_deposit_commission
    process_again i c s approved h found =
        let s0 = marked in_progress s in
        let h0 = Earned-with s0.deposits s.commissions s c h in
        let e = eligible_again i c s0 h0 found in
        (
          ground (arith, approved, h0.judged, e),
          ground (arith, approved, h0.judged, e),
          ground (arith, approved, h0.judged, e),
        )

  Earned-found :
      (id : ℕ) (c : ReferralCommission) (s : Store) (t : Table ReferralCommission)
      → Earned s c
      → find_commission deposit_id c.referrer_user_id ((id, c) ∷ t) ≡ some (id, c)
  unfolding find_commission
  Earned-found id c s t h =
      let source : c.source_id ≡ deposit_id = ground (arith, h.is) in
      ground (arith, source, ==_refl deposit_id, ==_refl c.referrer_user_id)

  Again : ℕ → ℕ → ℕ → ReferralCommission → Store → Type 0
  Again id id' now' c s =
      let (r, s') =
        process_deposit_referral_commission divide id' deposit_id d amount currency completed_at
          now' s in
      (r ≡ ok (was_made id c)) × (s'.commissions ≡ s.commissions) × (s'.db ≡ s.db)

  -- Where the processing of a deposit has created a commission, processing it again with the same
  -- document, amount, currency and date finds that commission: it answers already_exists with it, and
  -- changes neither commissions nor accounts nor ledger.
  pub process_twice :
      (id id' now now' : ℕ) (c : ReferralCommission) (s : Store)
      → (process_deposit_referral_commission divide id deposit_id d amount currency completed_at now
          s).0
        ≡ ok (record { outcome = CommissionOutcome.created; commission = some (id, c) })
      → let s' =
          (process_deposit_referral_commission divide id deposit_id d amount currency completed_at
            now s).1 in
        let (r, s'') =
          process_deposit_referral_commission divide id' deposit_id d amount currency completed_at
            now' s' in
        (r ≡ ok (record { outcome = CommissionOutcome.already_exists; commission = some (id, c) }))
        × (s''.commissions ≡ s'.commissions)
        × (s''.db ≡ s'.db)
  unfolding Again
  process_twice id id' now now' c s h =
      let s' =
        (process_deposit_referral_commission divide id deposit_id d amount currency completed_at now
          s).1 in
      let s0 = marked id now in_progress s in
      let (approved, earned, ends) = process_made id now c s s' (ap (λ r. (r, s')) h) in
      subst (λ u. Again id id' now' c u) (sym ends)
        (process_again id' now' id c (after_made id now c s0) approved
          (Earned-with (after_made id now c s0).deposits ((id, c) ∷ s0.commissions) s0 c earned)
          (Earned-found id c s0 s0.commissions earned))
