-- ===== src/Payouts/Settle.antt =====
-- A review of a pending payout keeps the agreement: the payout gets its final status, and every
-- commission that it has locked goes along.
use kanz_coins_backend.Prelude.{
  ℕ, Bool, true, false, ◌&&◌, Option, none, some, List, [], ◌∷◌, ◌≡◌, ◌≢◌, refl, ◌∙◌, inl, inr, ◌⊎◌,
  arith,
}
use kanz_coins_backend.Prelude.Tests.{◌==◌, if◌then◌else◌, Bool-cases, Option-cases}
use kanz_coins_backend.Prelude.Table.{
  Table, find, modify, find-modify, find-modify_self, find-modify_ne,
}
use kanz_coins_backend.Prelude.Query.{
  Has, member, update_in, find-update_in, All-map, All-member, modify-HasUniqueIds,
  update_in-HasUniqueIds,
}
use kanz_coins_backend.Store.{ReferralCommission, ReferralPayout, PayoutStatus}
use kanz_coins_backend.Payouts.Selection.{is_none}
use kanz_coins_backend.Payouts.Review.{is_payout, is_locked_by, is_pending}
use kanz_coins_backend.Payouts.Invariant.{
  PayoutAgrees, CommissionAgrees, Agrees, is_named_by, is_held_by, goes_with, sum_of, is_free,
}

-- Updates that leave the amounts alone leave every sum alone.
pub sum_of-update_in :
    (is ids : List ℕ) (test : ReferralCommission → Bool)
    (g : ReferralCommission → ReferralCommission) (t : Table ReferralCommission)
    → ((c : ReferralCommission) → (g c).commission_amount ≡ c.commission_amount)
    → sum_of is (update_in ids test g t) ≡ sum_of is t
unfolding sum_of
sum_of-update_in [] ids test g t keeps = refl
sum_of-update_in (i ∷ is) ids test g t keeps = elim (Option-cases (find i t)) [
  | inl missing ↦ rw (find-update_in i ids test g t, missing)
  | inr (c, found) ↦
      ground (
        arith,
        found,
        find-update_in i ids test g t,
        sum_of-update_in is ids test g t keeps,
        keeps c,
      )
]

-- A document that an update found, as it was before.
abbrev pub Before :
    ℕ
    → List ℕ
    → (ReferralCommission → Bool)
    → (ReferralCommission → ReferralCommission)
    → Table ReferralCommission
    → ReferralCommission
    → Type 0
Before i ids test g t c' =
    (c : ReferralCommission) × (find i t ≡ some c)
    × (c' ≡ (if member i ids && test c then g c else c))

pub find-Before :
    (i : ℕ) (ids : List ℕ) (test : ReferralCommission → Bool)
    (g : ReferralCommission → ReferralCommission) (t : Table ReferralCommission)
    (c' : ReferralCommission)
    → find i (update_in ids test g t) ≡ some c'
    → Before i ids test g t c'
find-Before i ids test g t c' h = elim (Option-cases (find i t)) [
  | inl missing ↦ absurd (ground (arith, find-update_in i ids test g t, missing, h))
  | inr (c, found) ↦ (c, found, ground (arith, find-update_in i ids test g t, found, h))
]

-- What a review does to the payout and to its commissions.
pub record Settles (after : PayoutStatus) (f : ReferralPayout → ReferralPayout)
    (g : ReferralCommission → ReferralCommission) : Type 0 where
  pub status : (p : ReferralPayout) → (f p).status ≡ after
  pub user_id : (p : ReferralPayout) → (f p).user_id ≡ p.user_id
  pub currency : (p : ReferralPayout) → (f p).currency ≡ p.currency
  pub amount : (p : ReferralPayout) → (f p).amount ≡ p.amount
  pub ids : (p : ReferralPayout) → (f p).commission_ids ≡ p.commission_ids
  pub count : (p : ReferralPayout) → (f p).commission_count ≡ p.commission_count
  pub commission_currency : (c : ReferralCommission) → (g c).referrer_currency ≡ c.referrer_currency
  pub commission_amount : (c : ReferralCommission) → (g c).commission_amount ≡ c.commission_amount
  pub held :
      (id user_id : ℕ) (c : ReferralCommission)
      → is_locked_by id user_id c ≡ true
      → is_held_by id user_id after (g c) ≡ true
  pub linked :
      (id user_id : ℕ) (c : ReferralCommission)
      → is_locked_by id user_id c ≡ true
      → is_none (g c).payout_request_id ≡ is_free (g c).status
  pub holder :
      (id : ℕ) (c : ReferralCommission)
      → (g c).payout_request_id ≡ some id
      → (c.payout_request_id ≡ some id) × (goes_with after (g c).status ≡ true)

is_payout_eq : (id : ℕ) (o : Option ℕ) → is_payout id o ≡ true → o ≡ some id
is_payout_eq id none h = cc
is_payout_eq id (some j) h = ground arith

-- A commission that one payout has locked is held by no other.
held_elsewhere :
    (j id u : ℕ) (q : ReferralPayout) (c d : ReferralCommission)
    → j ≢ id
    → d.referrer_currency ≡ c.referrer_currency
    → is_locked_by id u c ≡ true
    → is_named_by j q c ≡ true
    → is_named_by j q d ≡ true
held_elsewhere j id u q c d ne same locked named = ground arith

module _ (after : PayoutStatus) (f : ReferralPayout → ReferralPayout)
    (g : ReferralCommission → ReferralCommission) (st : Settles after f g) (id : ℕ)
    (t : Table ReferralCommission) (payouts : Table ReferralPayout) (p : ReferralPayout)
    (found : find id payouts ≡ some p) (pending : is_pending p.status ≡ true) where
  abbrev pub settled : Table ReferralCommission
  settled = update_in p.commission_ids (is_locked_by id p.user_id) g t

  others_named :
      (j i : ℕ) (q : ReferralPayout)
      → j ≢ id
      → Has (is_named_by j q) t i
      → Has (is_named_by j q) settled i
  others_named j i q ne (c, there, named) =
      let test = member i p.commission_ids && is_locked_by id p.user_id c in
      let read = find-update_in i p.commission_ids (is_locked_by id p.user_id) g t in
      elim (Bool-cases test) [
        | inl hit ↦ (
          g c,
          read ∙ rw (there, hit),
          held_elsewhere j id p.user_id q c (g c) ne (st.commission_currency c) (ground arith)
              named,
        )
        | inr miss ↦ (c, read ∙ rw (there, miss), named)
      ]

  own_named :
      (i : ℕ)
      → member i p.commission_ids ≡ true
      → Has (is_named_by id p) t i
      → Has (is_named_by id (f p)) settled i
  own_named i listed (c, there, named) =
      let locked : is_locked_by id p.user_id c ≡ true = ground arith in
      let read = find-update_in i p.commission_ids (is_locked_by id p.user_id) g t in
      (
        g c,
        read ∙ rw (there, listed, locked),
        rw (st.commission_currency c, st.currency p, st.user_id p, st.status p)
            (ground (arith, st.held id p.user_id c locked)),
      )

  read_payout :
      (j : ℕ) (q : ReferralPayout)
      → find j (modify id f payouts) ≡ some q
      → ((j ≡ id) × (q ≡ f p)) ⊎ ((j ≢ id) × (find j payouts ≡ some q))
  read_payout j q h = elim (Bool-cases (j == id)) [
    | inl same ↦ inl (ground arith, ground (arith, find-modify j id f payouts, found))
    | inr other ↦ inr (ground arith, ground (arith, find-modify j id f payouts))
  ]

  own_agrees : PayoutAgrees t id p → PayoutAgrees settled id (f p)
  own_agrees h = record {
    counted = rw (st.count p, st.ids p) h.counted;
    distinct = rw (st.ids p) h.distinct;
    total =
        rw
          (
            st.ids p,
            st.amount p,
            sum_of-update_in p.commission_ids p.commission_ids (is_locked_by id p.user_id) g t
                st.commission_amount,
          )
          h.total;
    named = rw (st.ids p) (
        All-map (Has (is_named_by id p) t) (Has (is_named_by id (f p)) settled) p.commission_ids
          own_named h.named);
  }

  other_agrees :
      (j : ℕ) (q : ReferralPayout) → j ≢ id → PayoutAgrees t j q → PayoutAgrees settled j q
  other_agrees j q ne h = record {
    counted = h.counted;
    distinct = h.distinct;
    total =
        sum_of-update_in q.commission_ids p.commission_ids (is_locked_by id p.user_id) g t
          st.commission_amount
        ∙ h.total;
    named =
        All-map (Has (is_named_by j q) t) (Has (is_named_by j q) settled) q.commission_ids
          (λ i _. others_named j i q ne) h.named;
  }

  -- The commissions of a pending payout are locked by it.
  not_missed :
      (i : ℕ) (c : ReferralCommission) (j : ℕ) (q : ReferralPayout)
      → find j payouts ≡ some q
      → member i q.commission_ids ≡ true
      → c.payout_request_id ≡ some j
      → j ≡ id
      → (member i p.commission_ids && is_locked_by id p.user_id c) ≡ false
      → PayoutAgrees t id p
      → find i t ≡ some c
      → ⊥
  not_missed i c j q has lists e same miss own there =
      let has' : find id payouts ≡ some q = rw (← same) has in
      let listed : member i p.commission_ids ≡ true = ground (arith, has', found, lists) in
      let (d, there', named) =
        All-member (Has (is_named_by id p) t) p.commission_ids i own.named listed in
      ground (arith, there, there', listed)

  -- A commission that the review did not move, and one that it moved.
  kept_agrees :
      (i : ℕ) (c : ReferralCommission)
      → CommissionAgrees payouts i c
      → (member i p.commission_ids && is_locked_by id p.user_id c) ≡ false
      → PayoutAgrees t id p
      → find i t ≡ some c
      → CommissionAgrees (modify id f payouts) i c
  kept_agrees i c h miss own there = record {
    linked = h.linked;
    holder = λ j e.
        let (q, has, lists, goes) = h.holder j e in
        elim (Bool-cases (j == id)) [
          | inl same ↦ absurd (not_missed i c j q has lists e (ground arith) miss own there)
          | inr other ↦ (q, find-modify_ne j id f payouts (ground arith) ∙ has, lists, goes)
        ];
  }

  moved_agrees :
      (i : ℕ) (c : ReferralCommission)
      → CommissionAgrees payouts i c
      → is_locked_by id p.user_id c ≡ true
      → member i p.commission_ids ≡ true
      → CommissionAgrees (modify id f payouts) i (g c)
  moved_agrees i c h locked listed = record {
    linked = st.linked id p.user_id c locked;
    holder = λ j e.
        let (before, goes) = st.holder j c e in
        let same : j ≡ id = ground arith in
        rw same
          (f p, find-modify_self id f payouts found, rw (st.ids p) listed, rw (st.status p) goes);
  }

  -- The agreement after the review.
  pub settle-Agrees : Agrees t payouts → Agrees settled (modify id f payouts)
  settle-Agrees h = record {
    payout_ids = modify-HasUniqueIds id f payouts h.payout_ids;
    commission_ids =
        update_in-HasUniqueIds p.commission_ids (is_locked_by id p.user_id) g t h.commission_ids;
    of_payouts = λ j q e. elim (read_payout j q e) [
      | inl (same, is) ↦ rw (same, is) (own_agrees (h.of_payouts id p found))
      | inr (ne, there) ↦ other_agrees j q ne (h.of_payouts j q there)
    ];
    of_commissions = λ i c' e.
        let (c, there, is) = find-Before i p.commission_ids (is_locked_by id p.user_id) g t c' e in
        elim (Bool-cases (member i p.commission_ids && is_locked_by id p.user_id c)) [
          | inl hit ↦
              let is' : c' ≡ g c = ground arith in
              rw is' (moved_agrees i c (h.of_commissions i c there) (ground arith) (ground arith))
          | inr miss ↦
              let is' : c' ≡ c = ground arith in
              rw is'
                (kept_agrees i c (h.of_commissions i c there) miss (h.of_payouts id p found) there)
        ];
  }
