-- ===== src/Payouts/Audit.antt =====
-- auditReferralPayouts of src/modules/referralPayouts/referralPayout.service.js: it counts the
-- payouts and commissions that disagree.
use kanz_coins_backend.Prelude.{
  ℕ, ◌<◌, Bool, true, false, ◌&&◌, ◌||◌, not, Option, none, some, List, [], ◌∷◌, ◌≡◌, refl, inl,
  inr, arith,
}
use kanz_coins_backend.Prelude.Int.{pos, ◌+ℤ◌}
use kanz_coins_backend.Prelude.Tests.{◌==◌, ltb, if◌then◌else◌, Bool-cases, Option-cases, ==_refl}
use kanz_coins_backend.Prelude.Lists.{length}
use kanz_coins_backend.Prelude.Text.{same_text, same_text_refl}
use kanz_coins_backend.Prelude.Table.{Table, find}
use kanz_coins_backend.Prelude.Query.{
  member, count_in, count_rows, AllRows, rows_found, Distinct, Has, All-map, count_in_complete,
}
use kanz_coins_backend.Money.{Amount}
use kanz_coins_backend.Store.{
  Store, ReferralCommission, CommissionStatus, ReferralPayout, PayoutStatus,
}
use kanz_coins_backend.Payouts.{is_wallet_credit}
use kanz_coins_backend.Payouts.Selection.{is_none, equals}
use kanz_coins_backend.Payouts.Review.{is_pending, is_locked, is_payout}
use kanz_coins_backend.Payouts.Invariant.{IsConsistent, is_named_by, is_rejected, goes_with, sum_of}

abbrev pub is_paid : PayoutStatus → Bool
is_paid PayoutStatus.paid = true
is_paid _ = false

-- `lockedMissingPayout`
unfoldable pub locked_missing_payout : Store → ℕ
locked_missing_payout s =
    count_rows (λ _ c. is_locked c.status && is_none c.payout_request_id) s.commissions

-- `countPayoutCommissionStateMismatch` with an expected status: the payouts in `status` whose
-- commissions are not all in the status that goes with it
abbrev pub is_expected : PayoutStatus → ℕ → ReferralPayout → ReferralCommission → Bool
is_expected status id p c =
    c.referrer_user_id == p.user_id
    && same_text c.referrer_currency p.currency
    && goes_with status c.status
    && is_payout id c.payout_request_id

abbrev pub in_state : PayoutStatus → PayoutStatus → Bool
in_state PayoutStatus.pending status = is_pending status
in_state PayoutStatus.paid status = is_paid status
in_state PayoutStatus.rejected status = is_rejected status

unfoldable pub state_mismatches : PayoutStatus → Store → ℕ
state_mismatches status s =
    count_rows
      (λ id p.
        in_state status p.status
        && not (
            count_in p.commission_ids (is_expected status id p) s.commissions
            == p.commission_count))
      s.payouts

-- The same function without an expected status, for rejected payouts.
abbrev pub is_leftover : ℕ → ReferralPayout → ReferralCommission → Bool
is_leftover id p c =
    c.referrer_user_id == p.user_id
    && same_text c.referrer_currency p.currency
    && (is_locked c.status || is_payout id c.payout_request_id)

unfoldable pub rejected_still_locked : Store → ℕ
rejected_still_locked s =
    count_rows
      (λ id p.
        is_rejected p.status && ltb 0 (count_in p.commission_ids (is_leftover id p) s.commissions))
      s.payouts

-- `walletPaidMissingTxn`
unfoldable pub wallet_paid_missing_transaction : Store → ℕ
wallet_paid_missing_transaction s =
    count_rows
      (λ _ p. is_wallet_credit p.method && is_paid p.status && is_none p.wallet_transaction)
      s.payouts

-- `countPayoutAmountMismatches`: the commissions of the list that are there, each once
abbrev add_found : Option ReferralCommission → Amount → Amount
add_found none total = total
add_found (some c) total = c.commission_amount +ℤ total

unfoldable pub sum_in : List ℕ → Table ReferralCommission → Amount
sum_in [] t = pos 0
sum_in (i ∷ is) t =
    let rest = sum_in is t in if member i is then rest else add_found (find i t) rest

unfoldable pub amount_mismatches : Store → ℕ
amount_mismatches s =
    count_rows (λ _ p. not (equals p.amount (sum_in p.commission_ids s.commissions))) s.payouts

-- `countPayoutCurrencyMismatches`
unfoldable pub currency_mismatches : Store → ℕ
currency_mismatches s =
    count_rows
      (λ _ p. not (
        count_in p.commission_ids (λ c. same_text c.referrer_currency p.currency) s.commissions
        == length p.commission_ids))
      s.payouts

-- A count is zero where no row passes.
count_rows-none {ℓ} :
    {V : Type ℓ} (test : ℕ → V → Bool) (t : Table V)
    → AllRows (λ id v. test id v ≡ false) t
    → count_rows test t ≡ 0
unfolding count_rows
count_rows-none test [] h = refl
count_rows-none test ((k, v) ∷ t) h = rw h.0 (count_rows-none test t h.1)

sum_in-eq :
    (ids : List ℕ) (t : Table ReferralCommission) (total : Amount)
    → Distinct ids
    → sum_of ids t ≡ some total
    → sum_in ids t ≡ total
unfolding sum_of sum_in
sum_in-eq [] t total d h = ground (arith, h)
sum_in-eq (i ∷ is) t total d h = elim (Option-cases (find i t)) [
  | inl missing ↦ absurd (ground (arith, missing, h))
  | inr (c, found) ↦ elim (Option-cases (sum_of is t)) [
    | inl missing ↦ absurd (ground (arith, found, missing, h))
    | inr (rest, e) ↦ ground (arith, d.0, found, e, h, sum_in-eq is t rest d.1 e)
  ]
]

expected_of_named :
    (status : PayoutStatus) (id : ℕ) (p : ReferralPayout) (c : ReferralCommission)
    → is_rejected status ≡ false
    → in_state status p.status ≡ true
    → is_named_by id p c ≡ true
    → is_expected status id p c ≡ true
expected_of_named PayoutStatus.pending id p c kind same named = ground arith
expected_of_named PayoutStatus.paid id p c kind same named = ground arith
expected_of_named PayoutStatus.rejected id p c kind same named = ground arith

module _ (s : Store) (h : IsConsistent s) where
  state_matches :
      (status : PayoutStatus) (id : ℕ) (p : ReferralPayout)
      → is_rejected status ≡ false
      → find id s.payouts ≡ some p
      → (in_state status p.status
          && not (
              count_in p.commission_ids (is_expected status id p) s.commissions
              == p.commission_count))
        ≡ false
  state_matches status id p kind found = elim (Bool-cases (in_state status p.status)) [
    | inr other ↦ rw other
    | inl same ↦
        let a = h.of_payouts id p found in
        let all =
          count_in_complete p.commission_ids (is_expected status id p) s.commissions a.distinct (
            All-map (Has (is_named_by id p) s.commissions)
              (Has (is_expected status id p) s.commissions) p.commission_ids
              (λ i _ (c, there, named). (c, there, expected_of_named status id p c kind same named))
              a.named) in
        rw (same, all, a.counted, ==_refl (length p.commission_ids))
  ]

  amount_matches :
      (id : ℕ) (p : ReferralPayout)
      → find id s.payouts ≡ some p
      → not (equals p.amount (sum_in p.commission_ids s.commissions)) ≡ false
  amount_matches id p found =
      let a = h.of_payouts id p found in
      rw (sum_in-eq p.commission_ids s.commissions p.amount a.distinct a.total) (ground arith)

  currency_matches :
      (id : ℕ) (p : ReferralPayout)
      → find id s.payouts ≡ some p
      → not (
          count_in p.commission_ids (λ c. same_text c.referrer_currency p.currency) s.commissions
          == length p.commission_ids)
        ≡ false
  currency_matches id p found =
      let a = h.of_payouts id p found in
      let test = λ (c : ReferralCommission). same_text c.referrer_currency p.currency in
      rw
        (count_in_complete p.commission_ids test s.commissions a.distinct (
          All-map (Has (is_named_by id p) s.commissions) (Has test s.commissions) p.commission_ids
            (λ i _ (c, there, named). (c, there, ground arith)) a.named))
        (ground arith)

  -- Where payouts and commissions agree the audit finds no locked commission without a payout, no
  -- pending and no paid payout whose commissions are in another state, and no payout whose amount or
  -- whose currency is not that of its commissions.
  pub audit_finds_nothing :
      (locked_missing_payout s ≡ 0)
      × (state_mismatches PayoutStatus.pending s ≡ 0)
      × (state_mismatches PayoutStatus.paid s ≡ 0)
      × (amount_mismatches s ≡ 0)
      × (currency_mismatches s ≡ 0)
  unfolding locked_missing_payout state_mismatches amount_mismatches currency_mismatches
  audit_finds_nothing = (
    count_rows-none _ s.commissions (
        rows_found _ s.commissions h.commission_ids
          (λ i c found. let a = h.of_commissions i c found in ground (arith, a.linked))),
    count_rows-none _ s.payouts (
        rows_found _ s.payouts h.payout_ids
          (λ id p found. state_matches PayoutStatus.pending id p refl found)),
    count_rows-none _ s.payouts (
        rows_found _ s.payouts h.payout_ids
          (λ id p found. state_matches PayoutStatus.paid id p refl found)),
    count_rows-none _ s.payouts (rows_found _ s.payouts h.payout_ids amount_matches),
    count_rows-none _ s.payouts (rows_found _ s.payouts h.payout_ids currency_matches),
  )

-- A row that passes is counted.
count_rows-some {ℓ} :
    {V : Type ℓ} (test : ℕ → V → Bool) (t : Table V) (k : ℕ) (v : V)
    → find k t ≡ some v
    → test k v ≡ true
    → 0 < count_rows test t
unfolding count_rows find
count_rows-some test [] k v found passes = absurd (cc found)
count_rows-some test ((j, w) ∷ t) k v found passes = ground (arith, count_rows-some test t k v)

count_in-some :
    (ids : List ℕ) (test : ReferralCommission → Bool) (t : Table ReferralCommission) (i : ℕ)
    (c : ReferralCommission)
    → member i ids ≡ true
    → find i t ≡ some c
    → test c ≡ true
    → 0 < count_in ids test t
unfolding count_in
count_in-some [] test t i c listed found passes = absurd (cc listed)
count_in-some (j ∷ js) test t i c listed found passes = elim (Bool-cases (member j js)) [
  | inl twice ↦ rw twice (count_in-some js test t i c (ground arith) found passes)
  | inr once ↦ ground (arith, once, count_in-some js test t i c)
]

-- The audit counts a rejected payout as soon as one of its commissions is locked, also where a later
-- payout has locked it.
pub audit_blames_rejected :
    (s : Store) (id i : ℕ) (p : ReferralPayout) (c : ReferralCommission)
    → find id s.payouts ≡ some p
    → p.status ≡ PayoutStatus.rejected
    → member i p.commission_ids ≡ true
    → find i s.commissions ≡ some c
    → c.referrer_user_id ≡ p.user_id
    → c.referrer_currency ≡ p.currency
    → c.status ≡ CommissionStatus.locked
    → 0 < rejected_still_locked s
unfolding rejected_still_locked
audit_blames_rejected s id i p c found rejected listed there owner currency locked =
    count_rows-some _ s.payouts id p found (
      let leftover : is_leftover id p c ≡ true =
        rw (owner, currency, locked, ==_refl p.user_id, same_text_refl p.currency) in
      rw rejected (
        ground (
          arith,
          count_in-some p.commission_ids (is_leftover id p) s.commissions i c listed there leftover,
        )))
