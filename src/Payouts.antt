-- ===== src/Payouts.antt =====
-- src/modules/referralPayouts/referralPayout.service.js: a referrer asks for a payout of
-- commissions, and an administrator rejects it, pays it into the wallet, or marks it as paid by hand.
-- Each call runs in a transaction of the server. Test hooks, audit entries and the populated document
-- that is returned are left out; Input has the normalisation of the request. Decimal sums are exact.
pub mod Validation
pub mod Replay
pub mod Selection
pub mod Review
pub mod Invariant
pub mod Settle
pub mod Claim
pub mod Earn
pub mod Ends
pub mod WalletEnds
pub mod CreateEnds
pub mod Keeps
pub mod Audit
pub mod Reviews
pub mod Payment
pub mod Runs
mod Tests
use kanz_coins_backend.Prelude.{
  ℕ, Bool, true, false, ◌&&◌, ◌||◌, not, Option, none, some, List, [], ◌∷◌, ◌++◌,
}
use kanz_coins_backend.Prelude.Int.{pos, ◌+ℤ◌, leb_ℤ}
use kanz_coins_backend.Prelude.Tests.{if◌then◌else◌, ◌==◌, leb}
use kanz_coins_backend.Prelude.Lists.{length}
use kanz_coins_backend.Prelude.Text.{Text, same_text}
use kanz_coins_backend.Prelude.Table.{Table, find}
use kanz_coins_backend.Prelude.Query.{update_in, count_in}
use kanz_coins_backend.Prelude.Exec.{
  Exec, Result, ok, err, pure, throw, gets, or_throw, throw_if, modify_state, in_session, catch,
  ◌>>=◌, ◌>>◌,
}
use kanz_coins_backend.Money.{Amount}
use kanz_coins_backend.Errors.{
  Error, duplicate_key, not_authorized, payout_user_not_payable, payout_wallet_currency_mismatch,
  payout_commissions_required, payout_commission_not_found, payout_commission_not_available,
  payout_currency_mismatch, payout_zero_total, payout_commission_lock_conflict,
  payout_idempotency_key_reused,
}
use kanz_coins_backend.Db.{User}
use kanz_coins_backend.Wallet.{is_active}
use kanz_coins_backend.Store.{
  Store, ReferralCommission, CommissionStatus, ReferralPayout, PayoutMethod, PayoutStatus,
  ExternalDetails, or_usd, normalize_currency_code,
}
use kanz_coins_backend.Payouts.Selection.{is_available, is_none, resolve_amount_only}
use kanz_coins_backend.Payouts.Replay.{
  has_key, find_by_key, find_replay, differs, assert_replay_matches,
}
use kanz_coins_backend.Payouts.Validation.{
  check_commission, validate_each, is_empty, lift_result, load_and_validate_commissions,
}

-- The request, normalised.
pub record PayoutInput : Type 0 where
  pub method : PayoutMethod
  pub currency : Text
  pub commission_ids : List ℕ
  pub requested_amount : Option Amount
  pub external_details : Option ExternalDetails
  pub idempotency_key : Option Text

abbrev pub is_wallet_credit : PayoutMethod → Bool
is_wallet_credit PayoutMethod.wallet_credit = true
is_wallet_credit PayoutMethod.manual_external = false

-- `User.findOne({ _id, deletedAt: null, status: ACTIVE })`
abbrev payable : Option User → Option User
payable none = none
payable (some u) = if is_none u.deleted_at && is_active u.status then some u else none

unfoldable pub payable_user : ℕ → Store → Option User
payable_user user_id s = payable (find user_id s.db.users)

-- `ReferralCommission.updateMany({ _id: { $in: ids }, …test }, update)`, with its `modifiedCount`
unfoldable pub update_commissions :
    List ℕ
    → (ReferralCommission → Bool)
    → (ReferralCommission → ReferralCommission)
    → Exec Store Error ℕ
update_commissions ids test f s =
    pure (count_in ids test s.commissions)
      (record s { commissions = update_in ids test f s.commissions })

abbrev pub is_claimable : ℕ → Text → ReferralCommission → Bool
is_claimable user_id currency c =
    c.referrer_user_id == user_id
    && is_available c.status
    && is_none c.payout_request_id
    && same_text c.referrer_currency currency

abbrev pub set_locked : ℕ → ReferralCommission → ReferralCommission
set_locked payout_id c = record c {
  status = CommissionStatus.locked;
  payout_request_id = some payout_id;
}

-- What `buildFingerprint` hashes: the ids in sorted order.
pub record FingerprintPayload : Type 0 where
  pub method : PayoutMethod
  pub currency : Text
  pub commission_ids : List ℕ
  pub requested_amount : Option Amount
  pub external_details : Option ExternalDetails

abbrev insert_id : ℕ → List ℕ → List ℕ
insert_id i [] = i ∷ []
insert_id i (j ∷ js) = if leb i j then i ∷ j ∷ js else j ∷ insert_id i js

abbrev pub sorted_ids : List ℕ → List ℕ
sorted_ids [] = []
sorted_ids (i ∷ is) = insert_id i (sorted_ids is)

abbrev pub new_payout : ℕ → PayoutInput → List ℕ → Amount → Option ℕ → ReferralPayout
new_payout user_id input ids total fingerprint = record {
  user_id = user_id;
  method = input.method;
  currency = input.currency;
  amount = total;
  status = PayoutStatus.pending;
  commission_ids = ids;
  commission_count = length ids;
  external_payment_details = input.external_details;
  external_transaction_reference = none;
  wallet_transaction = none;
  reviewed_by = none;
  reviewed_at = none;
  paid_at = none;
  rejection_reason = none;
  idempotency_key = input.idempotency_key;
  idempotency_fingerprint = fingerprint;
}

abbrev is_some_payout : Option (ℕ × ReferralPayout) → Bool
is_some_payout none = false
is_some_payout (some _) = true

-- `ReferralPayout.create`, under the unique indexes on the id and on the user with the key
unfoldable pub create_payout : ℕ → ReferralPayout → Exec Store Error (ℕ × ReferralPayout)
create_payout payout_id p = do
  taken ← gets (λ s. is_some_payout (find_replay p.user_id p.idempotency_key s))
  throw_if taken duplicate_key
  used ← gets (λ (s : Store). not (is_none (find payout_id s.payouts)))
  throw_if used duplicate_key
  modify_state (λ s. record s { payouts = (payout_id, p) ∷ s.payouts })
  pure (payout_id, p)

-- The ids of the request, or those that make up its amount.
unfoldable pub commission_ids_of : ℕ → PayoutInput → Exec Store Error (List ℕ)
commission_ids_of user_id input s = elim input.commission_ids [
  | [] ↦ elim input.requested_amount [
    | none ↦ pure [] s
    | some amount ↦ resolve_amount_only user_id input.currency amount s
  ]
  | id ∷ ids ↦ pure (id ∷ ids) s
]

-- Locks the commissions under the new payout's id and creates it.
unfoldable pub claim_commissions :
    ℕ → ℕ → PayoutInput → Option ℕ → Exec Store Error (ℕ × ReferralPayout)
claim_commissions payout_id user_id input fingerprint = do
  ids ← commission_ids_of user_id input
  total ← load_and_validate_commissions user_id input.currency ids
  modified ← update_commissions ids (is_claimable user_id input.currency) (set_locked payout_id)
  throw_if (not (modified == length ids)) payout_commission_lock_conflict
  create_payout payout_id (new_payout user_id input ids total fingerprint)

-- A request whose key was used before is answered by the payout that it made.
abbrev pub replay_or_claim :
    ℕ
    → ℕ
    → PayoutInput
    → Option ℕ
    → Option (ℕ × ReferralPayout)
    → Exec Store Error (ℕ × ReferralPayout)
replay_or_claim payout_id user_id input fingerprint (some existing) =
    assert_replay_matches fingerprint existing
replay_or_claim payout_id user_id input fingerprint none =
    claim_commissions payout_id user_id input fingerprint

abbrev pub wallet_currency_differs : PayoutInput → User → Bool
wallet_currency_differs input u =
    is_wallet_credit input.method
    && not (same_text (normalize_currency_code (or_usd u.currency)) input.currency)

-- The transaction.
unfoldable pub create_in_transaction :
    ℕ → ℕ → PayoutInput → Option ℕ → Exec Store Error (ℕ × ReferralPayout)
create_in_transaction payout_id user_id input fingerprint = do
  user ← or_throw (← gets (payable_user user_id)) payout_user_not_payable
  throw_if (wallet_currency_differs input user) payout_wallet_currency_mismatch
  existing ← gets (find_replay user_id input.idempotency_key)
  replay_or_claim payout_id user_id input fingerprint existing

-- After a duplicate key the payout that has the key by now answers.
abbrev pub answer_duplicate :
    ℕ → PayoutInput → Option ℕ → Error → Exec Store Error (ℕ × ReferralPayout)
answer_duplicate user_id input fingerprint duplicate_key = do
  existing ← or_throw (← gets (find_replay user_id input.idempotency_key)) duplicate_key
  assert_replay_matches fingerprint existing
answer_duplicate user_id input fingerprint e = throw e

module _ (hash : FingerprintPayload → ℕ) where
  -- `buildFingerprint`, of a request with a key
  abbrev pub fingerprint_of : PayoutInput → Option ℕ
  fingerprint_of input = elim input.idempotency_key [
    | none ↦ none
    | some _ ↦ some (
        hash (record {
          method = input.method;
          currency = input.currency;
          commission_ids = sorted_ids input.commission_ids;
          requested_amount = input.requested_amount;
          external_details = input.external_details;
        }))
  ]

  -- `createReferralPayout`, with the id that the new payout gets
  unfoldable pub create_referral_payout :
      ℕ → ℕ → PayoutInput → Exec Store Error (ℕ × ReferralPayout)
  create_referral_payout payout_id user_id input =
      let fingerprint = fingerprint_of input in
      catch (in_session true (create_in_transaction payout_id user_id input fingerprint))
        (answer_duplicate user_id input fingerprint)
