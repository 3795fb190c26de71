-- ===== src/Payouts/Keeps.antt =====
-- Every call of the payout service keeps the agreement between payouts and commissions.
use kanz_coins_backend.Prelude.{ℕ, ◌≡◌, refl, subst, sym, inl, inr, arith}
use kanz_coins_backend.Prelude.Text.{Text}
use kanz_coins_backend.Money.{Amount}
use kanz_coins_backend.Store.{Store, ReferralPayout, PayoutStatus}
use kanz_coins_backend.Payouts.{
  PayoutInput, FingerprintPayload, fingerprint_of, create_referral_payout,
}
use kanz_coins_backend.Payouts.Review.{
  set_released, set_commission_paid, set_reviewed, set_rejected, set_paid_by_hand,
  reject_referral_payout, mark_manual_referral_payout_paid, pay_wallet_referral_payout,
}
use kanz_coins_backend.Payouts.Invariant.{IsConsistent}
use kanz_coins_backend.Payouts.Settle.{Settles, settle-Agrees}
use kanz_coins_backend.Payouts.Claim.{claim-Agrees}
use kanz_coins_backend.Payouts.Ends.{reject_ends, mark_paid_ends}
use kanz_coins_backend.Payouts.WalletEnds.{pay_ends, pays}
use kanz_coins_backend.Payouts.CreateEnds.{create_ends}

rejects :
    (admin now : ℕ) (x : Text)
    → Settles PayoutStatus.rejected (set_rejected admin now x) set_released
rejects admin now x = record {
  status = λ p. refl;
  user_id = λ p. refl;
  currency = λ p. refl;
  amount = λ p. refl;
  ids = λ p. refl;
  count = λ p. refl;
  commission_currency = λ c. refl;
  commission_amount = λ c. refl;
  held = λ id u c h. refl;
  linked = λ id u c h. refl;
  holder = λ id c h. absurd (cc h);
}

-- A payment, by whatever it writes on the payout besides the status.
payments :
    (f : ReferralPayout → ReferralPayout)
    → ((p : ReferralPayout) → (f p).status ≡ PayoutStatus.paid)
    → ((p : ReferralPayout) → (f p).user_id ≡ p.user_id)
    → ((p : ReferralPayout) → (f p).currency ≡ p.currency)
    → ((p : ReferralPayout) → (f p).amount ≡ p.amount)
    → ((p : ReferralPayout) → (f p).commission_ids ≡ p.commission_ids)
    → ((p : ReferralPayout) → (f p).commission_count ≡ p.commission_count)
    → Settles PayoutStatus.paid f set_commission_paid
payments f status user_id currency amount ids count = record {
  status = status;
  user_id = user_id;
  currency = currency;
  amount = amount;
  ids = ids;
  count = count;
  commission_currency = λ c. refl;
  commission_amount = λ c. refl;
  held = λ id u c h. ground arith;
  linked = λ id u c h. ground arith;
  holder = λ id c h. (h, refl);
}

pub reject_referral_payout-IsConsistent :
    (id : ℕ) (reason : Text) (admin now : ℕ) (s : Store)
    → IsConsistent s
    → IsConsistent (reject_referral_payout id reason admin now s).1
reject_referral_payout-IsConsistent id reason admin now s h =
    elim (reject_ends id reason admin now s) [
      | inl same ↦ subst IsConsistent (sym same) h
      | inr (p, x, found, waits, _, ends) ↦ subst IsConsistent (sym ends) (
          settle-Agrees PayoutStatus.rejected (set_rejected admin now x) set_released
            (rejects admin now x) id s.commissions s.payouts p found waits h)
    ]

pub mark_manual_referral_payout_paid-IsConsistent :
    (id : ℕ) (reference : Text) (admin now : ℕ) (s : Store)
    → IsConsistent s
    → IsConsistent (mark_manual_referral_payout_paid id reference admin now s).1
mark_manual_referral_payout_paid-IsConsistent id reference admin now s h =
    elim (mark_paid_ends id reference admin now s) [
      | inl same ↦ subst IsConsistent (sym same) h
      | inr (p, x, found, waits, _, _, ends) ↦
          let f = λ (q : ReferralPayout). set_paid_by_hand admin now x (set_reviewed admin now q) in
          subst IsConsistent (sym ends) (
            settle-Agrees PayoutStatus.paid f set_commission_paid
              (payments f (λ _. refl) (λ _. refl) (λ _. refl) (λ _. refl) (λ _. refl) (λ _. refl))
              id s.commissions s.payouts p found waits h)
    ]

pub pay_wallet_referral_payout-IsConsistent :
    (id_text : ℕ → Text) (round : Amount → Amount) (id admin now : ℕ) (s : Store)
    → IsConsistent s
    → IsConsistent (pay_wallet_referral_payout id_text round id admin now s).1
pay_wallet_referral_payout-IsConsistent id_text round id admin now s h =
    elim (pay_ends id_text round id admin now s) [
      | inl same ↦ subst IsConsistent (sym same) h
      | inr (p, u, t, ok_to_pay, _, ends) ↦
          let f = pays id_text round admin now t in
          subst IsConsistent (sym ends) (
            settle-Agrees PayoutStatus.paid f set_commission_paid
              (payments f (λ _. refl) (λ _. refl) (λ _. refl) (λ _. refl) (λ _. refl) (λ _. refl))
              id s.commissions s.payouts p ok_to_pay.found ok_to_pay.waits h)
    ]

pub create_referral_payout-IsConsistent :
    (hash : FingerprintPayload → ℕ) (id u : ℕ) (input : PayoutInput) (s : Store)
    → IsConsistent s
    → IsConsistent (create_referral_payout hash id u input s).1
create_referral_payout-IsConsistent hash id u input s h = elim (create_ends hash id u input s) [
  | inl same ↦ subst IsConsistent (sym same) h
  | inr (ids, total, claims, ends) ↦ subst IsConsistent (sym ends) (
      claim-Agrees id u input ids total (fingerprint_of hash input) s.commissions s.payouts
        claims.fresh claims.summed claims.claimable h)
]
