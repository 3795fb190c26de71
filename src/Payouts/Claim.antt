-- ===== src/Payouts/Claim.antt =====
-- A new payout keeps the agreement: it locks the commissions that it names, which no payout had.
use kanz_coins_backend.Prelude.{
  ℕ, true, ◌&&◌, Option, none, some, List, [], ◌∷◌, ◌≡◌, refl, ap, sym, ◌∙◌, inl, inr, arith,
}
use kanz_coins_backend.Prelude.Int.{pos, ◌+ℤ◌, +ℤ_assoc, +ℤ-zero, +ℤ_comm}
use kanz_coins_backend.Prelude.Tests.{◌==◌, Bool-cases, Option-cases, ==_refl}
use kanz_coins_backend.Prelude.Lists.{length}
use kanz_coins_backend.Prelude.Text.{Text}
use kanz_coins_backend.Prelude.Table.{Table, find}
use kanz_coins_backend.Prelude.Exec.{ok, Result-cases}
use kanz_coins_backend.Prelude.Query.{
  Has, member, update_in, count_in, find-update_in, All-map, update_in-HasUniqueIds, count_in-All,
}
use kanz_coins_backend.Money.{Amount}
use kanz_coins_backend.Store.{ReferralCommission, ReferralPayout}
use kanz_coins_backend.Payouts.{is_claimable, set_locked, new_payout, PayoutInput}
use kanz_coins_backend.Payouts.Validation.{validate_each, check_commission}
use kanz_coins_backend.Payouts.Invariant.{
  PayoutAgrees, CommissionAgrees, Agrees, is_named_by, sum_of,
}
use kanz_coins_backend.Payouts.Settle.{sum_of-update_in, find-Before}

-- The total that the loop returns is the sum of the commissions, added to where it began.
abbrev Adds : Table ReferralCommission → List ℕ → Amount → Amount → Type 0
Adds t ids start total = (s : Amount) × (sum_of ids t ≡ some s) × (total ≡ start +ℤ s)

validate_each-Adds :
    (u : ℕ) (currency : Text) (t : Table ReferralCommission) (ids : List ℕ) (start total : Amount)
    → validate_each u currency t ids start ≡ ok total
    → Adds t ids start total
unfolding validate_each sum_of
validate_each-Adds u currency t [] start total h = (pos 0, refl, ground (arith, +ℤ-zero start, h))
validate_each-Adds u currency t (i ∷ is) start total h = elim (Option-cases (find i t)) [
  | inl missing ↦ absurd (ground (arith, missing, h))
  | inr (c, found) ↦ elim (Result-cases (check_commission u currency c)) [
    | inl (_, fine) ↦
        let (s, e, is_total) =
          validate_each-Adds u currency t is (start +ℤ c.commission_amount) total
            (ground (arith, found, fine, h)) in
        (c.commission_amount +ℤ s, rw (found, e), is_total ∙ +ℤ_assoc start c.commission_amount s)
    | inr (x, refused) ↦ absurd (ground (arith, found, refused, h))
  ]
]

-- A commission that no payout has is held by none.
unclaimed_named :
    (j u : ℕ) (currency : Text) (q : ReferralPayout) (c d : ReferralCommission)
    → d.referrer_currency ≡ c.referrer_currency
    → is_claimable u currency c ≡ true
    → is_named_by j q c ≡ true
    → is_named_by j q d ≡ true
unclaimed_named j u currency q c d same claimable named = ground arith

module _ (id u : ℕ) (input : PayoutInput) (ids : List ℕ) (total : Amount) (fingerprint : Option ℕ)
    (t : Table ReferralCommission) (payouts : Table ReferralPayout) (fresh : find id payouts ≡ none)
    (sum : validate_each u input.currency t ids (pos 0) ≡ ok total)
    (all : count_in ids (is_claimable u input.currency) t ≡ length ids) where
  abbrev pub claimed : Table ReferralCommission
  claimed = update_in ids (is_claimable u input.currency) (set_locked id) t

  abbrev pub created : ReferralPayout
  created = new_payout u input ids total fingerprint

  old_named :
      (j i : ℕ) (q : ReferralPayout) → Has (is_named_by j q) t i → Has (is_named_by j q) claimed i
  old_named j i q (c, there, named) =
      let read = find-update_in i ids (is_claimable u input.currency) (set_locked id) t in
      elim (Bool-cases (member i ids && is_claimable u input.currency c)) [
        | inl hit ↦ (
          set_locked id c,
          read ∙ rw (there, hit),
          unclaimed_named j u input.currency q c (set_locked id c) refl (ground arith) named,
        )
        | inr miss ↦ (c, read ∙ rw (there, miss), named)
      ]

  new_named :
      (i : ℕ)
      → member i ids ≡ true
      → Has (is_claimable u input.currency) t i
      → Has (is_named_by id created) claimed i
  new_named i listed (c, there, claimable) =
      let read = find-update_in i ids (is_claimable u input.currency) (set_locked id) t in
      (set_locked id c, read ∙ rw (there, listed, claimable), ground (arith, ==_refl id))

  created_agrees : PayoutAgrees claimed id created
  created_agrees =
      let (distinct, claimable) = count_in-All ids (is_claimable u input.currency) t all in
      let (s, e, is_total) = validate_each-Adds u input.currency t ids (pos 0) total sum in
      record {
        counted = refl;
        distinct = distinct;
        total =
            sum_of-update_in ids ids (is_claimable u input.currency) (set_locked id) t (λ _. refl)
            ∙ e
            ∙ ap some (sym (is_total ∙ +ℤ_comm (pos 0) s ∙ +ℤ-zero s));
        named =
            All-map (Has (is_claimable u input.currency) t) (Has (is_named_by id created) claimed)
              ids new_named claimable;
      }

  old_agrees : (j : ℕ) (q : ReferralPayout) → PayoutAgrees t j q → PayoutAgrees claimed j q
  old_agrees j q h = record {
    counted = h.counted;
    distinct = h.distinct;
    total =
        sum_of-update_in q.commission_ids ids (is_claimable u input.currency) (set_locked id) t
          (λ _. refl)
        ∙ h.total;
    named =
        All-map (Has (is_named_by j q) t) (Has (is_named_by j q) claimed) q.commission_ids
          (λ i _. old_named j i q) h.named;
  }

  claimed_agrees :
      (i : ℕ) (c : ReferralCommission)
      → member i ids ≡ true
      → CommissionAgrees ((id, created) ∷ payouts) i (set_locked id c)
  unfolding find
  claimed_agrees i c listed = record {
    linked = refl;
    holder =
        λ j e. let same : j ≡ id = ground arith in rw same (created, rw (==_refl id), listed, refl);
  }

  kept_agrees :
      (i : ℕ) (c : ReferralCommission)
      → CommissionAgrees payouts i c
      → CommissionAgrees ((id, created) ∷ payouts) i c
  unfolding find
  kept_agrees i c h = record {
    linked = h.linked;
    holder = λ j e.
        let (q, has, lists, goes) = h.holder j e in
        elim (Bool-cases (j == id)) [
          | inl same ↦ absurd (ground (arith, fresh, has))
          | inr other ↦ (q, rw other has, lists, goes)
        ];
  }

  -- The agreement after the creation.
  pub claim-Agrees : Agrees t payouts → Agrees claimed ((id, created) ∷ payouts)
  unfolding find
  claim-Agrees h = record {
    payout_ids = (fresh, h.payout_ids);
    commission_ids =
        update_in-HasUniqueIds ids (is_claimable u input.currency) (set_locked id) t
          h.commission_ids;
    of_payouts = λ j q e. elim (Bool-cases (j == id)) [
      | inl same ↦
          let same' : j ≡ id = ground arith in
          let is : q ≡ created = ground arith in rw (same', is) created_agrees
      | inr other ↦ old_agrees j q (h.of_payouts j q (ground arith))
    ];
    of_commissions = λ i c' e.
        let (c, there, is) =
          find-Before i ids (is_claimable u input.currency) (set_locked id) t c' e in
        elim (Bool-cases (member i ids && is_claimable u input.currency c)) [
          | inl hit ↦
              let is' : c' ≡ set_locked id c = ground arith in
              rw is' (claimed_agrees i c (ground arith))
          | inr miss ↦
              let is' : c' ≡ c = ground arith in
              rw is' (kept_agrees i c (h.of_commissions i c there))
        ];
  }
