-- ===== src/Payouts/Earn.antt =====
-- A new commission keeps the agreement: no payout names it yet.
use kanz_coins_backend.Prelude.{ℕ, none, some, List, [], ◌∷◌, ◌≡◌, inl, inr, arith}
use kanz_coins_backend.Prelude.Tests.{◌==◌, Bool-cases, Option-cases}
use kanz_coins_backend.Prelude.Table.{Table, find}
use kanz_coins_backend.Prelude.Query.{Has, All-map}
use kanz_coins_backend.Money.{Amount}
use kanz_coins_backend.Store.{ReferralCommission, ReferralPayout, CommissionStatus}
use kanz_coins_backend.Payouts.Invariant.{Agrees, is_named_by, sum_of}

module _ (id : ℕ) (c : ReferralCommission) (t : Table ReferralCommission)
    (payouts : Table ReferralPayout) (fresh : find id t ≡ none)
    (status : c.status ≡ CommissionStatus.available) (unclaimed : c.payout_request_id ≡ none) where
  abbrev pub earned : Table ReferralCommission
  earned = (id, c) ∷ t

  find-earned : (i : ℕ) (d : ReferralCommission) → find i t ≡ some d → find i earned ≡ some d
  unfolding find
  find-earned i d h = elim (Bool-cases (i == id)) [
    | inl same ↦ absurd (ground (arith, fresh, h))
    | inr other ↦ rw other h
  ]

  sum_of-earned :
      (ids : List ℕ) (total : Amount) → sum_of ids t ≡ some total → sum_of ids earned ≡ some total
  unfolding sum_of
  sum_of-earned [] total h = h
  sum_of-earned (i ∷ is) total h = elim (Option-cases (find i t)) [
    | inl missing ↦ absurd (ground (arith, missing, h))
    | inr (d, found) ↦ elim (Option-cases (sum_of is t)) [
      | inl missing ↦ absurd (ground (arith, found, missing, h))
      | inr (rest, e) ↦ ground (arith, found, e, h, find-earned i d found, sum_of-earned is rest e)
    ]
  ]

  pub earn-Agrees : Agrees t payouts → Agrees earned payouts
  unfolding find
  earn-Agrees h = record {
    payout_ids = h.payout_ids;
    commission_ids = (fresh, h.commission_ids);
    of_payouts = λ j q e.
        let a = h.of_payouts j q e in
        record {
          counted = a.counted;
          distinct = a.distinct;
          total = sum_of-earned q.commission_ids q.amount a.total;
          named =
              All-map (Has (is_named_by j q) t) (Has (is_named_by j q) earned) q.commission_ids
                (λ i _ (d, there, named). (d, find-earned i d there, named)) a.named;
        };
    of_commissions = λ i d e. elim (Bool-cases (i == id)) [
      | inl same ↦
          let is : d ≡ c = ground arith in
          rw is (record {
            linked = rw (status, unclaimed);
            holder = λ j bad. absurd (ground (arith, unclaimed, bad));
          })
      | inr other ↦ h.of_commissions i d (ground arith)
    ];
  }
