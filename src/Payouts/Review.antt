-- ===== src/Payouts/Review.antt =====
-- The reviews of a payout: rejectReferralPayout, payWalletReferralPayout and
-- markManualReferralPayoutPaid of src/modules/referralPayouts/referralPayout.service.js. The
-- receipt file, which is checked before the transaction, is left out.
use kanz_coins_backend.Prelude.{
  ℕ, Bool, true, false, ◌&&◌, not, Option, none, some, ◌++◌, ◌/◌, ◌*◌, ◌+◌,
}
use kanz_coins_backend.Prelude.Int.{pos, negsuc, sub_ℕ}
use kanz_coins_backend.Prelude.Tests.{if◌then◌else◌, ◌==◌, ltb}
use kanz_coins_backend.Prelude.Lists.{length}
use kanz_coins_backend.Prelude.Text.{Text, codes, same_text, trim}
use kanz_coins_backend.Prelude.Table.{find, modify}
use kanz_coins_backend.Prelude.Query.{count_in}
use kanz_coins_backend.Prelude.Exec.{
  Exec, Result, ok, err, pure, throw, gets, or_throw, throw_if, in_session, ◌>>=◌, ◌>>◌,
}
use kanz_coins_backend.Money.{Amount}
use kanz_coins_backend.Errors.{
  Error, not_found, payout_already_reviewed, payout_commission_state_inconsistent,
  payout_rejection_reason_required, payout_rejection_reason_too_long, payout_method_action_mismatch,
  payout_user_not_payable, payout_wallet_currency_mismatch, payout_external_reference_too_long,
}
use kanz_coins_backend.Db.{WalletTransaction, SourceType}
use kanz_coins_backend.Wallet.{credit_wallet_direct}
use kanz_coins_backend.Store.{
  Store, ReferralCommission, CommissionStatus, ReferralPayout, PayoutStatus, on_db, or_usd,
  normalize_currency_code,
}
use kanz_coins_backend.Payouts.{is_wallet_credit, payable_user, update_commissions}
use kanz_coins_backend.Payouts.Validation.{lift_result}

abbrev pub is_pending : PayoutStatus → Bool
is_pending PayoutStatus.pending = true
is_pending _ = false

abbrev pub is_locked : CommissionStatus → Bool
is_locked CommissionStatus.locked = true
is_locked _ = false

abbrev pub is_payout : ℕ → Option ℕ → Bool
is_payout payout_id none = false
is_payout payout_id (some id) = id == payout_id

-- The filter of the updates: a commission that the payout has locked.
abbrev pub is_locked_by : ℕ → ℕ → ReferralCommission → Bool
is_locked_by payout_id user_id c =
    c.referrer_user_id == user_id && is_locked c.status && is_payout payout_id c.payout_request_id

-- `throwReviewedConflict`
unfoldable pub throw_reviewed_conflict : {A : Type 0} → ℕ → Exec Store Error A
throw_reviewed_conflict payout_id = do
  existing ←
      or_throw (← gets (λ (s : Store). find payout_id s.payouts)) (not_found "ReferralPayout")
  throw payout_already_reviewed

abbrev pending_or_none : Option ReferralPayout → Option ReferralPayout
pending_or_none none = none
pending_or_none (some p) = if is_pending p.status then some p else none

-- `ReferralPayout.findOneAndUpdate({ _id, status: PENDING }, { $set }, { new: true })`
unfoldable pub update_pending :
    ℕ → (ReferralPayout → ReferralPayout) → Exec Store Error (Option ReferralPayout)
update_pending payout_id set s = elim (pending_or_none (find payout_id s.payouts)) [
  | none ↦ pure none s
  | some p ↦ pure (some (set p)) (record s { payouts = modify payout_id set s.payouts })
]

abbrev or_conflict : ℕ → Option ReferralPayout → Exec Store Error ReferralPayout
or_conflict payout_id none = throw_reviewed_conflict payout_id
or_conflict payout_id (some p) = pure p

-- `assertPayoutCommissionsLocked`
unfoldable pub assert_commissions_locked : ℕ → ReferralPayout → Exec Store Error (Unit {0})
assert_commissions_locked payout_id p = do
  count ← gets (λ (s : Store).
      count_in p.commission_ids
        (λ c. is_locked_by payout_id p.user_id c && same_text c.referrer_currency p.currency)
        s.commissions)
  throw_if (not (count == p.commission_count)) payout_commission_state_inconsistent

-- The update of a payout's commissions, which must reach all of them.
unfoldable pub move_commissions :
    ℕ → ReferralPayout → (ReferralCommission → ReferralCommission) → Exec Store Error (Unit {0})
move_commissions payout_id p set = do
  modified ← update_commissions p.commission_ids (is_locked_by payout_id p.user_id) set
  throw_if (not (modified == p.commission_count)) payout_commission_state_inconsistent

abbrev pub set_released : ReferralCommission → ReferralCommission
set_released c = record c { status = CommissionStatus.available; payout_request_id = none }

abbrev pub set_commission_paid : ReferralCommission → ReferralCommission
set_commission_paid c = record c { status = CommissionStatus.paid }

abbrev pub set_reviewed : ℕ → ℕ → ReferralPayout → ReferralPayout
set_reviewed admin now p = record p { reviewed_by = some admin; reviewed_at = some now }

abbrev pub set_rejected : ℕ → ℕ → Text → ReferralPayout → ReferralPayout
set_rejected admin now reason p = record p {
  status = PayoutStatus.rejected;
  rejection_reason = some reason;
  reviewed_by = some admin;
  reviewed_at = some now;
}

abbrev pub set_paid : ℕ → ℕ → ReferralPayout → ReferralPayout
set_paid admin now p = record p {
  status = PayoutStatus.paid;
  reviewed_by = some admin;
  reviewed_at = some now;
  paid_at = some now;
}

abbrev pub set_paid_to_wallet : ℕ → ℕ → WalletTransaction → ReferralPayout → ReferralPayout
set_paid_to_wallet admin now t p = record (set_paid admin now p) { wallet_transaction = some t }

abbrev pub set_paid_by_hand : ℕ → ℕ → Option Text → ReferralPayout → ReferralPayout
set_paid_by_hand admin now reference p = record (set_paid admin now p) {
  external_transaction_reference = reference;
}

-- `normalizeReason`
unfoldable pub normalize_reason : Text → Result Error Text
normalize_reason value =
    let reason = trim value in
    if length reason == 0
    then err payout_rejection_reason_required
    else if ltb 500 (length reason)
    then err payout_rejection_reason_too_long
    else ok reason

-- `normalizeExternalReference`
unfoldable pub normalize_external_reference : Text → Result Error (Option Text)
normalize_external_reference value =
    let text = trim value in
    if length text == 0
    then ok none
    else if ltb 160 (length text)
    then err payout_external_reference_too_long
    else ok (some text)

-- `rejectReferralPayout`
unfoldable pub reject_referral_payout : ℕ → Text → ℕ → ℕ → Exec Store Error ReferralPayout
reject_referral_payout payout_id reason admin now = do
  rejection_reason ← lift_result (normalize_reason reason)
  in_session true (do
    p ← or_conflict payout_id (← update_pending payout_id (set_rejected admin now rejection_reason))
    assert_commissions_locked payout_id p
    move_commissions payout_id p set_released
    pure p)

-- The last write of a payment, which must find the payout still pending.
unfoldable pub finish_payment :
    ℕ → (ReferralPayout → ReferralPayout) → Exec Store Error ReferralPayout
finish_payment payout_id set = do or_throw (← update_pending payout_id set) payout_already_reviewed

-- `new Decimal(amount).toDecimalPlaces(2, ROUND_HALF_UP)`, which takes a half away from zero
unfoldable pub to_cents : Amount → Amount
to_cents (pos n) = pos ((n + 5000) / 10000 * 10000)
to_cents (negsuc n) = sub_ℕ 0 ((n + 5001) / 10000 * 10000)

-- `markManualReferralPayoutPaid`
unfoldable pub mark_manual_referral_payout_paid : ℕ → Text → ℕ → ℕ → Exec Store Error ReferralPayout
mark_manual_referral_payout_paid payout_id external_reference admin now = do
  reference ← lift_result (normalize_external_reference external_reference)
  in_session true (do
    p ← or_conflict payout_id (← update_pending payout_id (set_reviewed admin now))
    throw_if (is_wallet_credit p.method) payout_method_action_mismatch
    assert_commissions_locked payout_id p
    move_commissions payout_id p set_commission_paid
    finish_payment payout_id (set_paid_by_hand admin now reference))

-- The guards of `payWalletReferralPayout` on the payout and its user, up to the credit.
unfoldable pub check_wallet_payment : ℕ → ReferralPayout → Exec Store Error (Unit {0})
check_wallet_payment payout_id p = do
  throw_if (not (is_wallet_credit p.method)) payout_method_action_mismatch
  user ← or_throw (← gets (payable_user p.user_id)) payout_user_not_payable
  throw_if (not (same_text (normalize_currency_code (or_usd user.currency)) p.currency))
      payout_wallet_currency_mismatch
  assert_commissions_locked payout_id p

module _ (id_text : ℕ → Text) (round : Amount → Amount) where
  -- The key under which the wallet's ledger has a payout: once at most.
  abbrev pub source_key : ℕ → Text
  source_key payout_id = codes "referral:payout:" ++ (id_text payout_id ++ codes ":wallet-credit")

  -- Its writes from the credit on.
  unfoldable pub write_wallet_payment : ℕ → ℕ → ℕ → ReferralPayout → Exec Store Error ReferralPayout
  write_wallet_payment payout_id admin now p = do
    transaction ← on_db (
        credit_wallet_direct round p.user_id (to_cents p.amount) none
          (some SourceType.referral_payout) (some payout_id) (some (source_key payout_id)))
    move_commissions payout_id p set_commission_paid
    finish_payment payout_id (set_paid_to_wallet admin now transaction)

  -- `payWalletReferralPayout`
  unfoldable pub pay_wallet_referral_payout : ℕ → ℕ → ℕ → Exec Store Error ReferralPayout
  pay_wallet_referral_payout payout_id admin now = in_session true (do
    p ← or_conflict payout_id (← update_pending payout_id (set_reviewed admin now))
    check_wallet_payment payout_id p
    write_wallet_payment payout_id admin now p)
