-- ===== src/Payouts/Payment.antt =====
-- A payment into the wallet by payWalletReferralPayout of
-- src/modules/referralPayouts/referralPayout.service.js.
use kanz_coins_backend.Prelude.{ℕ, true, false, none, some, ◌≡◌, refl, inl, inr, arith}
use kanz_coins_backend.Prelude.Int.{pos, negsuc, ◌+ℤ◌, ◌≤ℤ◌}
use kanz_coins_backend.Prelude.Tests.{Option-cases}
use kanz_coins_backend.Prelude.Text.{Text}
use kanz_coins_backend.Prelude.Table.{find, modify}
use kanz_coins_backend.Prelude.Query.{update_in}
use kanz_coins_backend.Prelude.Exec.{ok}
use kanz_coins_backend.Money.{Amount}
use kanz_coins_backend.Money.Cents.{IsCents}
use kanz_coins_backend.Db.{User, SourceType}
use kanz_coins_backend.Wallet.{index_conflict, stored_key}
use kanz_coins_backend.Wallet.Database.{KeepsCents}
use kanz_coins_backend.Wallet.Accounts.{IsFair, Moves}
use kanz_coins_backend.Wallet.Credits.{credit_entry, credit_pays}
use kanz_coins_backend.Store.{Store, ReferralPayout}
use kanz_coins_backend.Payouts.{is_wallet_credit, payable_user}
use kanz_coins_backend.Payouts.Review.{
  is_pending, is_locked_by, to_cents, source_key, set_commission_paid, pay_wallet_referral_payout,
}
use kanz_coins_backend.Payouts.Invariant.{IsConsistent}
use kanz_coins_backend.Payouts.WalletEnds.{pays, has_currency, payment_runs}
use kanz_coins_backend.Payouts.Reviews.{commissions_locked, commissions_moved}

pub to_cents-IsCents : (a : Amount) → IsCents (to_cents a)
unfolding to_cents
to_cents-IsCents (pos n) = ground arith
to_cents-IsCents (negsuc n) = ground arith

payable_found :
    (id : ℕ) (s : Store) (u : User) → payable_user id s ≡ some u → find id s.db.users ≡ some u
unfolding payable_user
payable_found id s u h = elim (Option-cases (find id s.db.users)) [
  | inl missing ↦ absurd (ground (arith, missing, h))
  | inr (v, found) ↦ ground (arith, found, h)
]

module _ (id_text : ℕ → Text) (round : Amount → Amount) (keeps : KeepsCents round) where
  -- Where payouts and commissions agree, paying a pending wallet payout of an active user with a
  -- fair account in the payout's currency, whose amount rounds to at least a cent and whose key the
  -- ledger does not have, adds exactly the rounded amount to the balance, puts one entry on the
  -- ledger, marks the payout and every commission of it as paid, and touches no other account.
  pub pay_wallet_pays :
      (id admin now : ℕ) (s : Store) (p : ReferralPayout) (u : User)
      → IsConsistent s
      → find id s.payouts ≡ some p
      → is_pending p.status ≡ true
      → is_wallet_credit p.method ≡ true
      → payable_user p.user_id s ≡ some u
      → has_currency id_text round u p ≡ true
      → IsFair u
      → pos 1 ≤ℤ to_cents p.amount
      → index_conflict (stored_key (some (source_key id_text round id))) s.db.wallet_transactions
        ≡ false
      → let t =
          credit_entry p.user_id u
            (to_cents p.amount)
            none
            (some SourceType.referral_payout)
            (some id)
            (some (source_key id_text round id)) in
        let (r, s') = pay_wallet_referral_payout id_text round id admin now s in
        (r ≡ ok (pays id_text round admin now t p))
        × Moves p.user_id u (u.wallet_balance +ℤ to_cents p.amount) t s.db s'.db
        × (s'.payouts ≡ modify id (pays id_text round admin now t) s.payouts)
        × (s'.commissions
            ≡ update_in p.commission_ids
                (is_locked_by id p.user_id)
                set_commission_paid
                s.commissions)
  pay_wallet_pays id admin now s p u h found waits method user currency fair positive free =
      let t =
        credit_entry p.user_id u (to_cents p.amount) none (some SourceType.referral_payout)
          (some id) (some (source_key id_text round id)) in
      let (credited, moves) =
        credit_pays round keeps p.user_id (to_cents p.amount) none (some SourceType.referral_payout)
          (some id) (some (source_key id_text round id)) s.db u (payable_found p.user_id s u user)
          fair (to_cents-IsCents p.amount) positive free in
      let e = payment_runs id_text round id admin now s p u t (record {
        found = found;
        waits = waits;
        method = method;
        user = user;
        currency = currency;
        locked = commissions_locked s h id p found waits;
        moved = commissions_moved s h id p found waits;
        credited = credited;
      }) in
      rw e (refl, moves, refl, refl)
