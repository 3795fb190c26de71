-- ===== src/Payouts/Runs.antt =====
-- Any sequence of calls of the payout, commission and deposit services, each in a transaction of its
-- own.
use kanz_coins_backend.Prelude.{
  Bool, ℕ, true, false, Option, some, List, [], ◌∷◌, ◌≡◌, sym, ◌∙◌, arith,
}
use kanz_coins_backend.Prelude.Text.{Text}
use kanz_coins_backend.Prelude.Table.{Table, find}
use kanz_coins_backend.Prelude.Query.{member, Has, All-member}
use kanz_coins_backend.Money.{Amount}
use kanz_coins_backend.Store.{
  Store, Currency, DepositRequest, ReferralCommission, ReferralPayout, PayoutStatus,
}
use kanz_coins_backend.Payouts.{PayoutInput, FingerprintPayload, create_referral_payout}
use kanz_coins_backend.Payouts.Review.{
  is_payout, reject_referral_payout, mark_manual_referral_payout_paid, pay_wallet_referral_payout,
}
use kanz_coins_backend.Payouts.Invariant.{IsConsistent, is_rejected, is_named_by}
use kanz_coins_backend.Payouts.Earn.{earn-Agrees}
use kanz_coins_backend.Payouts.Keeps.{
  create_referral_payout-IsConsistent, reject_referral_payout-IsConsistent,
  mark_manual_referral_payout_paid-IsConsistent, pay_wallet_referral_payout-IsConsistent,
}
use kanz_coins_backend.Payouts.Audit.{
  audit_finds_nothing, locked_missing_payout, state_mismatches, amount_mismatches,
  currency_mismatches,
}
use kanz_coins_backend.Commissions.{process_deposit_referral_commission}
use kanz_coins_backend.Commissions.Keeps.{Stable, process_deposit_referral_commission-Keeps}
use kanz_coins_backend.Commissions.Reconcile.{
  ReconciliationFilter, reconcile_referral_commissions, reconcile_referral_commissions-Keeps,
}
use kanz_coins_backend.Deposits.{AdminOverrides, approve_deposit}
use kanz_coins_backend.Deposits.Ends.{approve_deposit-lands}

pub data PayoutCall : Type 0 where
  create : ℕ → ℕ → PayoutInput → PayoutCall
  reject : ℕ → Text → ℕ → ℕ → PayoutCall
  pay_wallet : ℕ → ℕ → ℕ → PayoutCall
  mark_paid : ℕ → Text → ℕ → ℕ → PayoutCall
  approve : ℕ → ℕ → Option ℕ → ℕ → AdminOverrides → PayoutCall
  -- the reconciliation of a deposit, from the document that it read
  reconcile : ℕ → ℕ → DepositRequest → Amount → Text → ℕ → ℕ → PayoutCall
  -- a whole reconciliation, with the ids that new commissions get
  reconcile_all : (ℕ → ℕ) → ℕ → Bool → ReconciliationFilter → PayoutCall

IsConsistent-Stable : Stable IsConsistent
IsConsistent-Stable = record {
  marks = λ s id m h. h;
  earns = λ s id c fresh _ status unclaimed h.
      earn-Agrees id c s.commissions s.payouts fresh status unclaimed h;
}

same_payout :
    (j k : ℕ) (c d : ReferralCommission) (t : Table ReferralCommission) (i : ℕ)
    → find i t ≡ some c
    → find i t ≡ some d
    → is_payout j c.payout_request_id ≡ true
    → is_payout k d.payout_request_id ≡ true
    → j ≡ k
same_payout j k c d t i there there' by_j by_k =
    let same : some c ≡ some d = sym there ∙ there' in
    let same' : c ≡ d = cc same in
    let by_k' : is_payout k c.payout_request_id ≡ true = rw same' by_k in ground arith

module _ (hash : FingerprintPayload → ℕ) (id_text : ℕ → Text) (round : Amount → Amount)
    (divide : ℕ → ℕ → ℕ) (cached : Text → Option Currency) where
  abbrev pub step : PayoutCall → Store → Store
  step (PayoutCall.create id user input) s = (create_referral_payout hash id user input s).1
  step (PayoutCall.reject id reason admin now) s = (reject_referral_payout id reason admin now s).1
  step (PayoutCall.pay_wallet id admin now) s =
      (pay_wallet_referral_payout id_text round id admin now s).1
  step (PayoutCall.mark_paid id reference admin now) s =
      (mark_manual_referral_payout_paid id reference admin now s).1
  step (PayoutCall.approve id commission_id admin now o) s =
      (approve_deposit round divide cached id commission_id admin now o s).1
  step (PayoutCall.reconcile id deposit_id d amount currency completed_at now) s =
      (process_deposit_referral_commission divide id deposit_id d amount currency completed_at now
        s).1
  step (PayoutCall.reconcile_all new_id now dry_run filter) s =
      (reconcile_referral_commissions divide new_id now dry_run filter s).1

  abbrev pub run : List PayoutCall → Store → Store
  run [] s = s
  run (call ∷ calls) s = run calls (step call s)

  pub step-IsConsistent :
      (call : PayoutCall) (s : Store) → IsConsistent s → IsConsistent (step call s)
  step-IsConsistent (PayoutCall.create id user input) s h =
      create_referral_payout-IsConsistent hash id user input s h
  step-IsConsistent (PayoutCall.reject id reason admin now) s h =
      reject_referral_payout-IsConsistent id reason admin now s h
  step-IsConsistent (PayoutCall.pay_wallet id admin now) s h =
      pay_wallet_referral_payout-IsConsistent id_text round id admin now s h
  step-IsConsistent (PayoutCall.mark_paid id reference admin now) s h =
      mark_manual_referral_payout_paid-IsConsistent id reference admin now s h
  step-IsConsistent (PayoutCall.approve id commission_id admin now o) s h =
      approve_deposit-lands round divide cached id commission_id admin now o IsConsistent
        IsConsistent-Stable s h (λ _ _ _ _. h)
  step-IsConsistent (PayoutCall.reconcile id deposit_id d amount currency completed_at now) s h =
      process_deposit_referral_commission-Keeps IsConsistent IsConsistent-Stable divide id
        deposit_id d amount currency completed_at now s h
  step-IsConsistent (PayoutCall.reconcile_all new_id now dry_run filter) s h =
      reconcile_referral_commissions-Keeps divide new_id now IsConsistent IsConsistent-Stable
        dry_run filter s h

  pub run-IsConsistent :
      (calls : List PayoutCall) (s : Store) → IsConsistent s → IsConsistent (run calls s)
  run-IsConsistent [] s h = h
  run-IsConsistent (call ∷ calls) s h =
      run-IsConsistent calls (step call s) (step-IsConsistent call s h)

  -- After any sequence of payout requests, reviews and payments, deposit approvals and commission
  -- reconciliations, of any arguments, the audit finds no locked commission without a payout, no
  -- pending or paid payout whose commissions are in another state, and no payout whose amount or
  -- currency is not that of its commissions, if payouts and commissions agreed before.
  pub audit_stays_clean :
      (calls : List PayoutCall) (s : Store)
      → IsConsistent s
      → let s' = run calls s in
        (locked_missing_payout s' ≡ 0)
        × (state_mismatches PayoutStatus.pending s' ≡ 0)
        × (state_mismatches PayoutStatus.paid s' ≡ 0)
        × (amount_mismatches s' ≡ 0)
        × (currency_mismatches s' ≡ 0)
  audit_stays_clean calls s h = audit_finds_nothing (run calls s) (run-IsConsistent calls s h)

  holder_is :
      (id : ℕ) (p : ReferralPayout) (s : Store) (i : ℕ)
      → IsConsistent s
      → find id s.payouts ≡ some p
      → is_rejected p.status ≡ false
      → member i p.commission_ids ≡ true
      → Has (λ c. is_payout id c.payout_request_id) s.commissions i
  holder_is id p s i h found kept listed =
      let a = h.of_payouts id p found in
      let (c, there, named) =
        All-member (Has (is_named_by id p) s.commissions) p.commission_ids i a.named listed in
      (c, there, ground arith)

  -- After any such sequence no commission is listed by two payouts that are pending or paid, so none
  -- is paid twice.
  pub paid_once :
      (calls : List PayoutCall) (s : Store) (j k i : ℕ) (p q : ReferralPayout)
      → IsConsistent s
      → find j (run calls s).payouts ≡ some p
      → find k (run calls s).payouts ≡ some q
      → is_rejected p.status ≡ false
      → is_rejected q.status ≡ false
      → member i p.commission_ids ≡ true
      → member i q.commission_ids ≡ true
      → j ≡ k
  paid_once calls s j k i p q h fp fq kp kq lp lq =
      let h' = run-IsConsistent calls s h in
      let (c, there, by_j) = holder_is j p (run calls s) i h' fp kp lp in
      let (d, there', by_k) = holder_is k q (run calls s) i h' fq kq lq in
      same_payout j k c d (run calls s).commissions i there there' by_j by_k
