-- ===== src/Payouts/Tests/Reviews.antt =====
-- The properties of single reviews of src/modules/referralPayouts/referralPayout.service.js at a
-- concrete payout.
use kanz_coins_backend.Prelude.{◌≡◌, refl, true, false, none, some, [], ◌∷◌, arith}
use kanz_coins_backend.Prelude.Int.{pos, ◌+ℤ◌, ◌≤ℤ◌}
use kanz_coins_backend.Prelude.Text.{codes}
use kanz_coins_backend.Prelude.Table.{find, modify}
use kanz_coins_backend.Prelude.Query.{update_in, count_in}
use kanz_coins_backend.Prelude.Exec.{ok}
use kanz_coins_backend.Money.{safe_round}
use kanz_coins_backend.Db.{SourceType}
use kanz_coins_backend.Wallet.{key_taken, index_conflict, stored_key}
use kanz_coins_backend.Wallet.Accounts.{Moves}
use kanz_coins_backend.Wallet.Credits.{credit_entry}
use kanz_coins_backend.Store.{PayoutMethod, normalize_currency_code}
use kanz_coins_backend.Payouts.{
  create_referral_payout, create_in_transaction, payable_user, commission_ids_of, claim_commissions,
  update_commissions, create_payout,
}
use kanz_coins_backend.Payouts.Validation.{load_and_validate_commissions, validate_each}
use kanz_coins_backend.Payouts.Review.{
  normalize_reason, normalize_external_reference, set_rejected, set_commission_paid, set_reviewed,
  set_paid_by_hand, mark_manual_referral_payout_paid, is_locked_by, to_cents, source_key,
  reject_referral_payout, pay_wallet_referral_payout,
}
use kanz_coins_backend.Payouts.Invariant.{IsConsistent}
use kanz_coins_backend.Payouts.Keeps.{create_referral_payout-IsConsistent}
use kanz_coins_backend.Payouts.WalletEnds.{pays, has_currency}
use kanz_coins_backend.Payouts.Ends.{reviewed}
use kanz_coins_backend.Payouts.Reviews.{reject-create, mark_paid_goes_through}
use kanz_coins_backend.Payouts.Payment.{pay_wallet_pays}
use kanz_coins_backend.Payouts.Tests.{
  omar, office, no_hash, one_text, asks, asked, requested, office-IsConsistent, server_round,
  omar-IsFair, found_asked,
}

requested-IsConsistent : (method : PayoutMethod) → IsConsistent (requested method)
requested-IsConsistent method =
    create_referral_payout-IsConsistent no_hash 31 1 (asks method) office office-IsConsistent

found_by_hand :
    find 31 (requested PayoutMethod.manual_external).payouts
    ≡ some (asked PayoutMethod.manual_external)
unfolding create_referral_payout create_in_transaction payable_user commission_ids_of
    claim_commissions load_and_validate_commissions validate_each update_commissions create_payout
    count_in update_in find ◌+ℤ◌ normalize_currency_code
found_by_hand = refl

unclear : normalize_reason (codes "unclear ") ≡ ok (codes "unclear")
unfolding normalize_reason
unclear = refl

reject-create_example :
    let (r, after) =
      reject_referral_payout 31 (codes "unclear ") 9 70 (requested PayoutMethod.wallet_credit) in
    (r ≡ ok (set_rejected 9 70 (codes "unclear") (asked PayoutMethod.wallet_credit)))
    × (after.commissions ≡ office.commissions)
    × (after.payouts
        ≡ (31, set_rejected 9 70 (codes "unclear") (asked PayoutMethod.wallet_credit)) ∷ [])
    × (after.db ≡ office.db)
unfolding find
reject-create_example =
    reject-create no_hash 31 1 (asks PayoutMethod.wallet_credit) office
      (asked PayoutMethod.wallet_credit) (codes "unclear ") (codes "unclear") 9 70
      office-IsConsistent refl found_asked unclear

bank_reference : normalize_external_reference (codes "TX-1") ≡ ok (some (codes "TX-1"))
unfolding normalize_external_reference
bank_reference = refl

mark_paid_goes_through_example :
    mark_manual_referral_payout_paid 31 (codes "TX-1") 9 70 (requested PayoutMethod.manual_external)
    ≡ (
      ok (
          set_paid_by_hand 9 70
            (some (codes "TX-1"))
            (set_reviewed 9 70 (asked PayoutMethod.manual_external))),
      reviewed 31
          (asked PayoutMethod.manual_external)
          (λ q. set_paid_by_hand 9 70 (some (codes "TX-1")) (set_reviewed 9 70 q))
          set_commission_paid
          (requested PayoutMethod.manual_external),
    )
mark_paid_goes_through_example =
    mark_paid_goes_through (requested PayoutMethod.manual_external)
      (requested-IsConsistent PayoutMethod.manual_external) 31 (asked PayoutMethod.manual_external)
      found_by_hand refl (codes "TX-1") (some (codes "TX-1")) 9 70 refl bank_reference

payable_omar : payable_user 1 (requested PayoutMethod.wallet_credit) ≡ some omar
unfolding create_referral_payout create_in_transaction payable_user commission_ids_of
    claim_commissions load_and_validate_commissions validate_each update_commissions create_payout
    count_in update_in find ◌+ℤ◌ normalize_currency_code
payable_omar = refl

new_key :
    index_conflict
      (stored_key (some (source_key one_text safe_round 31)))
      (requested PayoutMethod.wallet_credit).db.wallet_transactions
    ≡ false
unfolding create_referral_payout create_in_transaction payable_user commission_ids_of
    claim_commissions load_and_validate_commissions validate_each update_commissions create_payout
    count_in update_in find ◌+ℤ◌ normalize_currency_code key_taken
new_key = refl

omar_in_usd : has_currency one_text safe_round omar (asked PayoutMethod.wallet_credit) ≡ true
unfolding normalize_currency_code
omar_in_usd = refl

thirteen : pos 1 ≤ℤ to_cents (pos 13000000)
unfolding to_cents
thirteen = omega arith

pay_wallet_pays_example :
    let t =
      credit_entry 1 omar
        (to_cents (pos 13000000))
        none
        (some SourceType.referral_payout)
        (some 31)
        (some (source_key one_text safe_round 31)) in
    let before = requested PayoutMethod.wallet_credit in
    let p = asked PayoutMethod.wallet_credit in
    let (r, after) = pay_wallet_referral_payout one_text safe_round 31 9 70 before in
    (r ≡ ok (pays one_text safe_round 9 70 t p))
    × Moves 1 omar (omar.wallet_balance +ℤ to_cents (pos 13000000)) t before.db after.db
    × (after.payouts ≡ modify 31 (pays one_text safe_round 9 70 t) before.payouts)
    × (after.commissions
        ≡ update_in (21 ∷ 22 ∷ []) (is_locked_by 31 1) set_commission_paid before.commissions)
pay_wallet_pays_example =
    pay_wallet_pays one_text safe_round server_round 31 9 70 (requested PayoutMethod.wallet_credit)
      (asked PayoutMethod.wallet_credit) omar (requested-IsConsistent PayoutMethod.wallet_credit)
      found_asked refl refl payable_omar omar_in_usd omar-IsFair thirteen new_key
