-- ===== src/Payouts/WalletEnds.antt =====
-- How payWalletReferralPayout ends: the store as it was, or the payout paid into the wallet.
use kanz_coins_backend.Prelude.{ℕ, Bool, true, none, some, ◌≡◌, ap, inl, inr, ◌⊎◌, arith}
use kanz_coins_backend.Prelude.Tests.{Bool-cases, Option-cases}
use kanz_coins_backend.Prelude.Text.{Text, same_text}
use kanz_coins_backend.Prelude.Table.{find, modify, find-modify_self, modify-modify}
use kanz_coins_backend.Prelude.Exec.{Exec, ok, Result-cases}
use kanz_coins_backend.Money.{Amount}
use kanz_coins_backend.Errors.{Error}
use kanz_coins_backend.Db.{Db, User, WalletTransaction, SourceType}
use kanz_coins_backend.Wallet.{credit_wallet_direct}
use kanz_coins_backend.Store.{Store, ReferralPayout, or_usd, normalize_currency_code}
use kanz_coins_backend.Payouts.{is_wallet_credit, payable_user, update_commissions}
use kanz_coins_backend.Payouts.Review.{
  is_pending, update_pending, throw_reviewed_conflict, assert_commissions_locked, move_commissions,
  set_commission_paid, set_reviewed, set_paid_to_wallet, finish_payment, to_cents, source_key,
  pay_wallet_referral_payout, check_wallet_payment, write_wallet_payment,
}
use kanz_coins_backend.Payouts.Ends.{reviewed, all_locked, all_moved}

module _ (id_text : ℕ → Text) (round : Amount → Amount) where
  -- The credit that a payment calls for.
  abbrev pub credit_of : ℕ → ReferralPayout → Exec Db Error WalletTransaction
  credit_of id p =
      credit_wallet_direct round p.user_id (to_cents p.amount) none
        (some SourceType.referral_payout) (some id) (some (source_key id_text round id))

  abbrev pub pays : ℕ → ℕ → WalletTransaction → ReferralPayout → ReferralPayout
  pays admin now t p = set_paid_to_wallet admin now t (set_reviewed admin now p)

  abbrev pub has_currency : User → ReferralPayout → Bool
  has_currency u p = same_text (normalize_currency_code (or_usd u.currency)) p.currency

  -- What held where a payment went through.
  pub record Payable (id : ℕ) (p : ReferralPayout) (u : User) (t : WalletTransaction) (s : Store)
      : Type 0 where
    pub found : find id s.payouts ≡ some p
    pub waits : is_pending p.status ≡ true
    pub method : is_wallet_credit p.method ≡ true
    pub user : payable_user p.user_id s ≡ some u
    pub currency : has_currency u p ≡ true
    pub locked : all_locked id p s ≡ true
    pub moved : all_moved id p s ≡ true
    pub credited : (credit_of id p s.db).0 ≡ ok t

  abbrev pub paid_store : ℕ → ReferralPayout → ℕ → ℕ → WalletTransaction → Store → Store
  paid_store id p admin now t s = record (reviewed id p (pays admin now t) set_commission_paid s) {
    db = (credit_of id p s.db).1;
  }

  -- Where all this holds the payment goes through.
  pub payment_runs :
      (id admin now : ℕ) (s : Store) (p : ReferralPayout) (u : User) (t : WalletTransaction)
      → Payable id p u t s
      → pay_wallet_referral_payout id_text round id admin now s
        ≡ (ok (pays admin now t p), paid_store id p admin now t s)
  unfolding pay_wallet_referral_payout check_wallet_payment write_wallet_payment update_pending
      assert_commissions_locked move_commissions update_commissions finish_payment payable_user
  payment_runs id admin now s p u t h =
      let again = find-modify_self id (set_reviewed admin now) s.payouts h.found in
      let fused =
        modify-modify id (set_paid_to_wallet admin now t) (set_reviewed admin now) s.payouts in
      ground (
        arith, h.found, h.waits, h.method, h.user, h.currency, h.locked, h.moved, h.credited, again,
        fused,
      )

  -- The state in which the guards run.
  abbrev opened : ℕ → ℕ → ℕ → Store → Store
  opened id admin now s = record s { payouts = modify id (set_reviewed admin now) s.payouts }

  check_reads : (id : ℕ) (p : ReferralPayout) (s : Store) → (check_wallet_payment id p s).1 ≡ s
  unfolding check_wallet_payment assert_commissions_locked
  check_reads id p s = elim (Option-cases (payable_user p.user_id s)) [
    | inl away ↦ ground (arith, away)
    | inr (u, user) ↦ ground (arith, user)
  ]

  -- What the guards make sure of.
  abbrev Checked : ℕ → ReferralPayout → Store → Type 0
  Checked id p s =
      (u : User) × (is_wallet_credit p.method ≡ true)
      × (payable_user p.user_id s ≡ some u)
      × (has_currency u p ≡ true)
      × (all_locked id p s ≡ true)

  check_passes :
      (id : ℕ) (p : ReferralPayout) (s : Store)
      → (check_wallet_payment id p s).0 ≡ ok tt
      → Checked id p s
  unfolding check_wallet_payment assert_commissions_locked
  check_passes id p s h = elim (Option-cases (payable_user p.user_id s)) [
    | inl away ↦ absurd (ground (arith, away, h))
    | inr (u, user) ↦
        (u, ground (arith, user, h), user, ground (arith, user, h), ground (arith, user, h))
  ]

  abbrev Written : ℕ → ReferralPayout → Store → Type 0
  Written id p s =
      (t : WalletTransaction) × ((credit_of id p s.db).0 ≡ ok t) × (all_moved id p s ≡ true)

  write_passes :
      (id admin now : ℕ) (p : ReferralPayout) (s : Store) (r : ReferralPayout)
      → (write_wallet_payment id_text round id admin now p s).0 ≡ ok r
      → Written id p s
  unfolding write_wallet_payment move_commissions update_commissions
  write_passes id admin now p s r h = elim (Result-cases (credit_of id p s.db).0) [
    | inr (e, uncredited) ↦ absurd (ground (arith, uncredited, h))
    | inl (t, credited) ↦ elim (Bool-cases (all_moved id p s)) [
      | inr short ↦ absurd (ground (arith, credited, short, h))
      | inl moved ↦ (t, credited, moved)
    ]
  ]

  pub pay_ends :
      (id admin now : ℕ) (s : Store)
      → let (r, s') = pay_wallet_referral_payout id_text round id admin now s in
        (s' ≡ s)
        ⊎ ((p : ReferralPayout) × (u : User) × (t : WalletTransaction) × Payable id p u t s
            × (r ≡ ok (pays admin now t p))
            × (s' ≡ paid_store id p admin now t s))
  unfolding pay_wallet_referral_payout update_pending throw_reviewed_conflict payable_user
  pay_ends id admin now s = elim (Option-cases (find id s.payouts)) [
    | inl missing ↦ inl (ground (arith, missing))
    | inr (p, found) ↦ elim (Bool-cases (is_pending p.status)) [
      | inr over ↦ inl (ground (arith, found, over))
      | inl waits ↦
          let p' = set_reviewed admin now p in
          let s' = opened id admin now s in
          elim (Result-cases (check_wallet_payment id p' s').0) [
            | inr (e, refused) ↦ inl (ground (arith, found, waits, refused))
            | inl (_, checked) ↦
                elim (Result-cases (write_wallet_payment id_text round id admin now p' s').0) [
                  | inr (e, failed) ↦
                      inl (ground (arith, found, waits, checked, check_reads id p' s', failed))
                  | inl (r, written) ↦
                      let (u, method, user, currency, locked) = check_passes id p' s' checked in
                      let (t, credited, moved) = write_passes id admin now p' s' r written in
                      let h : Payable id p u t s = record {
                        found = found;
                        waits = waits;
                        method = method;
                        user = user;
                        currency = currency;
                        locked = locked;
                        moved = moved;
                        credited = credited;
                      } in
                      inr (
                        p,
                        u,
                        t,
                        h,
                        ap (λ x. x.0) (payment_runs id admin now s p u t h),
                        ap (λ x. x.1) (payment_runs id admin now s p u t h),
                      )
                ]
          ]
    ]
  ]
