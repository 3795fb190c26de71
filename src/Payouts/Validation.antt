-- ===== src/Payouts/Validation.antt =====
-- loadAndValidateCommissions of src/modules/referralPayouts/referralPayout.service.js.
use kanz_coins_backend.Prelude.{ℕ, Bool, true, false, ◌||◌, not, none, some, List, [], ◌∷◌}
use kanz_coins_backend.Prelude.Int.{pos, ◌+ℤ◌, leb_ℤ}
use kanz_coins_backend.Prelude.Tests.{if◌then◌else◌, ◌==◌}
use kanz_coins_backend.Prelude.Lists.{length}
use kanz_coins_backend.Prelude.Text.{Text, same_text}
use kanz_coins_backend.Prelude.Table.{Table, find}
use kanz_coins_backend.Prelude.Query.{count_in}
use kanz_coins_backend.Prelude.Exec.{
  Exec, Result, ok, err, pure, throw, gets, throw_if, ◌>>=◌, ◌>>◌,
}
use kanz_coins_backend.Money.{Amount}
use kanz_coins_backend.Errors.{
  Error, not_authorized, payout_commissions_required, payout_commission_not_found,
  payout_commission_not_available, payout_currency_mismatch, payout_zero_total,
}
use kanz_coins_backend.Store.{Store, ReferralCommission, normalize_currency_code}
use kanz_coins_backend.Payouts.Selection.{is_available, is_none}

-- What `loadAndValidateCommissions` asks of each commission.
abbrev pub check_commission : ℕ → Text → ReferralCommission → Result Error (Unit {0})
check_commission user_id currency c =
    if not (c.referrer_user_id == user_id)
    then err not_authorized
    else if not (is_available c.status) || not (is_none c.payout_request_id)
    then err payout_commission_not_available
    else if not (same_text (normalize_currency_code c.referrer_currency) currency)
    then err payout_currency_mismatch
    else ok tt

-- Its loop. The documents were counted before, so none is missing.
unfoldable pub validate_each :
    ℕ → Text → Table ReferralCommission → List ℕ → Amount → Result Error Amount
validate_each user_id currency t [] total = ok total
validate_each user_id currency t (id ∷ ids) total = elim (find id t) [
  | none ↦ err payout_commission_not_found
  | some c ↦ elim (check_commission user_id currency c) [
    | ok _ ↦ validate_each user_id currency t ids (total +ℤ c.commission_amount)
    | err e ↦ err e
  ]
]

abbrev pub is_empty : List ℕ → Bool
is_empty [] = true
is_empty (id ∷ ids) = false

abbrev pub lift_result : {A : Type 0} → Result Error A → Exec Store Error A
lift_result (ok a) = pure a
lift_result (err e) = throw e

-- `loadAndValidateCommissions`
unfoldable pub load_and_validate_commissions : ℕ → Text → List ℕ → Exec Store Error Amount
load_and_validate_commissions user_id currency ids = do
  throw_if (is_empty ids) payout_commissions_required
  t ← gets (λ (s : Store). s.commissions)
  throw_if (not (count_in ids (λ _. true) t == length ids)) payout_commission_not_found
  total ← lift_result (validate_each user_id currency t ids (pos 0))
  throw_if (leb_ℤ total (pos 0)) payout_zero_total
  pure total
