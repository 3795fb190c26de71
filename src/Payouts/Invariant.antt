-- ===== src/Payouts/Invariant.antt =====
-- The agreement between the payouts and the commissions that they name, which
-- auditReferralPayouts of src/modules/referralPayouts/referralPayout.service.js looks for.
use kanz_coins_backend.Prelude.{ℕ, Bool, true, false, ◌&&◌, Option, none, some, List, [], ◌∷◌, ◌≡◌}
use kanz_coins_backend.Prelude.Int.{pos, ◌+ℤ◌}
use kanz_coins_backend.Prelude.Tests.{◌==◌}
use kanz_coins_backend.Prelude.Lists.{All, length}
use kanz_coins_backend.Prelude.Text.{same_text}
use kanz_coins_backend.Prelude.Table.{Table, find}
use kanz_coins_backend.Prelude.Query.{Distinct, Has, HasUniqueIds, member}
use kanz_coins_backend.Money.{Amount}
use kanz_coins_backend.Store.{
  Store, ReferralCommission, CommissionStatus, ReferralPayout, PayoutStatus,
}
use kanz_coins_backend.Payouts.Selection.{is_none}
use kanz_coins_backend.Payouts.Review.{is_payout}

-- The status of the commissions of a payout that is pending or paid.
abbrev pub goes_with : PayoutStatus → CommissionStatus → Bool
goes_with PayoutStatus.pending CommissionStatus.locked = true
goes_with PayoutStatus.paid CommissionStatus.paid = true
goes_with _ _ = false

abbrev pub is_rejected : PayoutStatus → Bool
is_rejected PayoutStatus.rejected = true
is_rejected _ = false

-- A commission that no payout has.
abbrev pub is_free : CommissionStatus → Bool
is_free CommissionStatus.available = true
is_free CommissionStatus.cancelled = true
is_free _ = false

-- A pending or paid payout has the commission for itself.
abbrev pub is_held_by : ℕ → ℕ → PayoutStatus → ReferralCommission → Bool
is_held_by payout_id user_id PayoutStatus.rejected c = true
is_held_by payout_id user_id status c =
    c.referrer_user_id == user_id
    && goes_with status c.status
    && is_payout payout_id c.payout_request_id

abbrev pub is_named_by : ℕ → ReferralPayout → ReferralCommission → Bool
is_named_by payout_id p c =
    same_text c.referrer_currency p.currency && is_held_by payout_id p.user_id p.status c

abbrev pub plus : Option ReferralCommission → Option Amount → Option Amount
plus (some c) (some total) = some (c.commission_amount +ℤ total)
plus _ _ = none

-- The sum of the commissions that a list names, if all of them are there.
unfoldable pub sum_of : List ℕ → Table ReferralCommission → Option Amount
sum_of [] t = some (pos 0)
sum_of (i ∷ is) t = plus (find i t) (sum_of is t)

pub record PayoutAgrees (t : Table ReferralCommission) (id : ℕ) (p : ReferralPayout) : Type 0 where
  pub counted : p.commission_count ≡ length p.commission_ids
  pub distinct : Distinct p.commission_ids
  pub total : sum_of p.commission_ids t ≡ some p.amount
  pub named : All (Has (is_named_by id p) t) p.commission_ids

-- The payout that has a commission: it lists it, and is pending or paid as the commission is.
abbrev pub Holder : Table ReferralPayout → ℕ → ReferralCommission → ℕ → Type 0
Holder payouts i c id =
    (p : ReferralPayout) × (find id payouts ≡ some p)
    × (member i p.commission_ids ≡ true)
    × (goes_with p.status c.status ≡ true)

pub record CommissionAgrees (payouts : Table ReferralPayout) (i : ℕ) (c : ReferralCommission)
    : Type 0 where
  pub linked : is_none c.payout_request_id ≡ is_free c.status
  pub holder : (id : ℕ) → c.payout_request_id ≡ some id → Holder payouts i c id

pub record Agrees (t : Table ReferralCommission) (payouts : Table ReferralPayout) : Type 0 where
  pub payout_ids : HasUniqueIds payouts
  pub commission_ids : HasUniqueIds t
  pub of_payouts : (id : ℕ) (p : ReferralPayout) → find id payouts ≡ some p → PayoutAgrees t id p
  pub of_commissions :
      (i : ℕ) (c : ReferralCommission) → find i t ≡ some c → CommissionAgrees payouts i c

abbrev pub IsConsistent : Store → Type 0
IsConsistent s = Agrees s.commissions s.payouts
