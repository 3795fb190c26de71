-- ===== src/Payouts/Selection.antt =====
-- `resolveAmountOnlyCommissionIds`: a request that names an amount takes the oldest available
-- commissions, each as a whole, as long as they fit.
use kanz_coins_backend.Prelude.{
  ℕ, Bool, true, false, ◌&&◌, ◌||◌, not, Option, none, some, List, [], ◌∷◌,
}
use kanz_coins_backend.Prelude.Int.{pos, ◌+ℤ◌, leb_ℤ, ltb_ℤ}
use kanz_coins_backend.Prelude.Tests.{if◌then◌else◌, ◌==◌, ltb, leb}
use kanz_coins_backend.Prelude.Text.{Text, same_text}
use kanz_coins_backend.Prelude.Table.{Table}
use kanz_coins_backend.Prelude.Query.{select_rows}
use kanz_coins_backend.Prelude.Exec.{Exec, pure, gets, throw_if, ◌>>=◌, ◌>>◌}
use kanz_coins_backend.Money.{Amount}
use kanz_coins_backend.Errors.{Error, payout_amount_invalid, payout_amount_requires_selection}
use kanz_coins_backend.Store.{Store, ReferralCommission, CommissionStatus}

abbrev pub is_available : CommissionStatus → Bool
is_available CommissionStatus.available = true
is_available _ = false

abbrev pub is_none {ℓ} : {A : Type ℓ} → Option A → Bool
is_none none = true
is_none (some _) = false

-- The filter of the query.
abbrev pub is_selectable : ℕ → Text → ReferralCommission → Bool
is_selectable user_id currency c =
    c.referrer_user_id == user_id
    && is_available c.status
    && is_none c.payout_request_id
    && same_text c.referrer_currency currency

-- `.sort({ sourceCompletedAt: 1, _id: 1 })`
abbrev comes_before : ℕ × ReferralCommission → ℕ × ReferralCommission → Bool
comes_before (i, c) (j, d) =
    ltb c.source_completed_at d.source_completed_at
    || (c.source_completed_at == d.source_completed_at && leb i j)

abbrev insert_row : ℕ × ReferralCommission → Table ReferralCommission → Table ReferralCommission
insert_row row [] = row ∷ []
insert_row row (other ∷ rows) =
    if comes_before row other then row ∷ other ∷ rows else other ∷ insert_row row rows

abbrev pub sort_rows : Table ReferralCommission → Table ReferralCommission
sort_rows [] = []
sort_rows (row ∷ rows) = insert_row row (sort_rows rows)

abbrev pub equals : Amount → Amount → Bool
equals a b = leb_ℤ a b && leb_ℤ b a

-- The loop: the total that was reached, and the ids that make it up.
unfoldable pub take_whole : Amount → Amount → Table ReferralCommission → Amount × List ℕ
take_whole target total [] = (total, [])
take_whole target total ((id, c) ∷ rows) =
    let more = take_whole target (total +ℤ c.commission_amount) rows in
    if equals total target
    then (total, [])
    else if ltb_ℤ target (total +ℤ c.commission_amount)
    then (total, [])
    else (more.0, id ∷ more.1)

abbrev pub no_ids : List ℕ → Bool
no_ids [] = true
no_ids (id ∷ ids) = false

unfoldable pub resolve_amount_only : ℕ → Text → Amount → Exec Store Error (List ℕ)
resolve_amount_only user_id currency target = do
  throw_if (leb_ℤ target (pos 0)) payout_amount_invalid
  available ←
      gets
        (λ (s : Store). sort_rows (select_rows (λ _. is_selectable user_id currency) s.commissions))
  let (total, ids) = take_whole target (pos 0) available
  throw_if (not (equals total target) || no_ids ids) payout_amount_requires_selection
  pure ids
