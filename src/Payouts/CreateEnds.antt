-- ===== src/Payouts/CreateEnds.antt =====
-- How createReferralPayout ends: the store as it was, or a new payout with its commissions locked.
use kanz_coins_backend.Prelude.{
  ℕ, Option, none, List, ◌∷◌, ◌≡◌, refl, subst, sym, inl, inr, ◌⊎◌, arith,
}
use kanz_coins_backend.Prelude.Int.{pos}
use kanz_coins_backend.Prelude.Lists.{length}
use kanz_coins_backend.Prelude.Tests.{◌==◌, Bool-cases, Option-cases}
use kanz_coins_backend.Prelude.Table.{find}
use kanz_coins_backend.Prelude.Query.{update_in, count_in}
use kanz_coins_backend.Prelude.Exec.{ok, Result-cases}
use kanz_coins_backend.Money.{Amount}
use kanz_coins_backend.Errors.{Error, duplicate_key}
use kanz_coins_backend.Prelude.Text.{Text}
use kanz_coins_backend.Store.{Store, ReferralPayout}
use kanz_coins_backend.Payouts.{
  PayoutInput, FingerprintPayload, fingerprint_of, payable_user, commission_ids_of, is_claimable,
  set_locked, update_commissions, new_payout, create_payout, claim_commissions,
  wallet_currency_differs, create_in_transaction, answer_duplicate, create_referral_payout,
}
use kanz_coins_backend.Payouts.Validation.{validate_each, load_and_validate_commissions}
use kanz_coins_backend.Payouts.Replay.{find_replay}
use kanz_coins_backend.Payouts.Selection.{resolve_amount_only}

load_reads :
    (u : ℕ) (currency : Text) (ids : List ℕ) (s : Store)
    → (load_and_validate_commissions u currency ids s).1 ≡ s
unfolding load_and_validate_commissions
load_reads u currency ids s =
    elim (Result-cases (validate_each u currency s.commissions ids (pos 0))) [
      | inl (total, e) ↦ ground (arith, e)
      | inr (x, e) ↦ ground (arith, e)
    ]

load_passes :
    (u : ℕ) (currency : Text) (ids : List ℕ) (s : Store) (total : Amount)
    → (load_and_validate_commissions u currency ids s).0 ≡ ok total
    → validate_each u currency s.commissions ids (pos 0) ≡ ok total
unfolding load_and_validate_commissions
load_passes u currency ids s total h =
    elim (Result-cases (validate_each u currency s.commissions ids (pos 0))) [
      | inl (total', e) ↦ ground (arith, e, h)
      | inr (x, e) ↦ absurd (ground (arith, e, h))
    ]

ids_reads : (u : ℕ) (input : PayoutInput) (s : Store) → (commission_ids_of u input s).1 ≡ s
unfolding commission_ids_of resolve_amount_only
ids_reads u input s = ground arith

-- The store with the new payout.
abbrev pub with_payout : ℕ → ℕ → PayoutInput → List ℕ → Amount → Option ℕ → Store → Store
with_payout id u input ids total fingerprint s = record s {
  commissions = update_in ids (is_claimable u input.currency) (set_locked id) s.commissions;
  payouts = (id, new_payout u input ids total fingerprint) ∷ s.payouts;
}

-- What held where a claim went through.
pub record Claims (id u : ℕ) (input : PayoutInput) (ids : List ℕ) (total : Amount) (s : Store)
    : Type 0 where
  pub chosen : (commission_ids_of u input s).0 ≡ ok ids
  pub summed : validate_each u input.currency s.commissions ids (pos 0) ≡ ok total
  pub claimable : count_in ids (is_claimable u input.currency) s.commissions ≡ length ids
  pub fresh : find id s.payouts ≡ none

abbrev ClaimEnds : ℕ → ℕ → PayoutInput → Option ℕ → Store → ℕ × ReferralPayout → Type 0
ClaimEnds id u input fingerprint s r =
    (ids : List ℕ) × (total : Amount) × Claims id u input ids total s
    × (r ≡ (id, new_payout u input ids total fingerprint))
    × ((claim_commissions id u input fingerprint s).1
        ≡ with_payout id u input ids total fingerprint s)

claim_passes :
    (id u : ℕ) (input : PayoutInput) (fingerprint : Option ℕ) (s : Store) (r : ℕ × ReferralPayout)
    → (claim_commissions id u input fingerprint s).0 ≡ ok r
    → ClaimEnds id u input fingerprint s r
unfolding claim_commissions update_commissions create_payout
claim_passes id u input fingerprint s r h = elim (Result-cases (commission_ids_of u input s).0) [
  | inr (e, none_chosen) ↦ absurd (ground (arith, none_chosen, h))
  | inl (ids, chosen) ↦
      let reads = ids_reads u input s in
      elim (Result-cases (load_and_validate_commissions u input.currency ids s).0) [
        | inr (e, refused) ↦ absurd (ground (arith, chosen, reads, refused, h))
        | inl (total, loaded) ↦
            let reads' = load_reads u input.currency ids s in
            let all = count_in ids (is_claimable u input.currency) s.commissions in
            elim (Bool-cases (all == length ids)) [
              | inr conflict ↦ absurd (ground (arith, chosen, reads, loaded, reads', conflict, h))
              | inl claimable ↦ elim (Option-cases (find_replay u input.idempotency_key s)) [
                | inr (p, taken) ↦
                    absurd (ground (arith, chosen, reads, loaded, reads', claimable, taken, h))
                | inl free ↦ elim (Option-cases (find id s.payouts)) [
                  | inr (p, used) ↦
                      absurd
                        (ground (arith, chosen, reads, loaded, reads', claimable, free, used, h))
                  | inl fresh ↦ (
                    ids,
                    total,
                    record {
                      chosen = chosen;
                      summed = load_passes u input.currency ids s total loaded;
                      claimable = ground (arith, claimable);
                      fresh = fresh;
                    },
                    ground (arith, chosen, reads, loaded, reads', claimable, free, fresh, h),
                    ground (arith, chosen, reads, loaded, reads', claimable, free, fresh),
                  )
                ]
              ]
            ]
      ]
]

answer_reads :
    (u : ℕ) (input : PayoutInput) (fingerprint : Option ℕ) (e : Error) (s : Store)
    → (answer_duplicate u input fingerprint e s).1 ≡ s
answer_reads u input fingerprint duplicate_key s =
    elim (Option-cases (find_replay u input.idempotency_key s)) [
      | inl missing ↦ ground (arith, missing)
      | inr (p, found) ↦ ground (arith, found)
    ]
answer_reads u input fingerprint e s = refl

-- Either nothing is written, or the one new payout.
abbrev pub CreateEnds : ℕ → ℕ → PayoutInput → Option ℕ → Store → Store → Type 0
CreateEnds id u input fingerprint s s' =
    (s' ≡ s)
    ⊎ ((ids : List ℕ) × (total : Amount) × Claims id u input ids total s
        × (s' ≡ with_payout id u input ids total fingerprint s))

transaction_ends :
    (id u : ℕ) (input : PayoutInput) (fingerprint : Option ℕ) (s : Store) (r : ℕ × ReferralPayout)
    → (create_in_transaction id u input fingerprint s).0 ≡ ok r
    → CreateEnds id u input fingerprint s (create_in_transaction id u input fingerprint s).1
unfolding create_in_transaction payable_user
transaction_ends id u input fingerprint s r h = elim (Option-cases (payable_user u s)) [
  | inl away ↦ absurd (ground (arith, away, h))
  | inr (user, payable) ↦ elim (Bool-cases (wallet_currency_differs input user)) [
    | inl foreign ↦ absurd (ground (arith, payable, foreign, h))
    | inr fits ↦ elim (Option-cases (find_replay u input.idempotency_key s)) [
      | inr (p, found) ↦ inl (ground (arith, payable, fits, found))
      | inl fresh ↦
          let claimed : (claim_commissions id u input fingerprint s).0 ≡ ok r =
            ground (arith, payable, fits, fresh, h) in
          let (ids, total, claims, _, ends) = claim_passes id u input fingerprint s r claimed in
          inr (ids, total, claims, ground (arith, payable, fits, fresh, ends))
    ]
  ]
]

pub create_ends :
    (hash : FingerprintPayload → ℕ) (id u : ℕ) (input : PayoutInput) (s : Store)
    → CreateEnds id u input
        (fingerprint_of hash input)
        s
        (create_referral_payout hash id u input s).1
unfolding create_referral_payout
create_ends hash id u input s =
    let fingerprint = fingerprint_of hash input in
    elim (Result-cases (create_in_transaction id u input fingerprint s).0) [
      | inr (e, failed) ↦ inl (ground (arith, failed, answer_reads u input fingerprint e s))
      | inl (r, passed) ↦
          let same : (create_referral_payout hash id u input s).1
              ≡ (create_in_transaction id u input fingerprint s).1 =
            ground (arith, passed) in
          subst (CreateEnds id u input fingerprint s) (sym same)
            (transaction_ends id u input fingerprint s r passed)
    ]
