-- ===== src/Wallet/Refusals.antt =====
-- The branches on which an operation of src/modules/wallet/wallet.service.js throws, and what a
-- successful call tells of the state that it ran in.
use kanz_coins_backend.Prelude.{
  ℕ, ◌≡◌, Bool, true, false, ◌&&◌, inl, inr, Option, none, some, arith, ◌⊎◌,
}
use kanz_coins_backend.Prelude.Int.{pos, ◌+ℤ◌, ◌-ℤ◌, ◌≤ℤ◌, +ℤ-zero, leb_ℤ}
use kanz_coins_backend.Prelude.Tests.{Bool-cases, Option-cases, if◌then◌else◌}
use kanz_coins_backend.Prelude.Text.{Text}
use kanz_coins_backend.Prelude.Table.{find}
use kanz_coins_backend.Prelude.Exec.{ok, err}
use kanz_coins_backend.Money.{Amount, or_zero}
use kanz_coins_backend.Money.Cents.{IsCents, safe_round-eq}
use kanz_coins_backend.Wallet.Credits.{refund_total, refund_total-IsCents}
use kanz_coins_backend.Errors.{
  Error, not_found, account_inactive, insufficient_funds, invalid_amount,
}
use kanz_coins_backend.Db.{Db, User, UserStatus, WalletTransaction, SourceType}
use kanz_coins_backend.Wallet.{
  DebitResult, debit_wallet_atomic, refund_wallet_atomic, credit_wallet_direct, forced_debit_wallet,
  forced_debit_read, forced_debit_write, find_user_and_update, debit_refused, is_active,
  set_balance, create_transaction_record, index_conflict, stored_key,
}

find_user_and_update_missing :
    (id : ℕ) (guard : User → Bool) (f : User → User) (db : Db)
    → find id db.users ≡ none
    → find_user_and_update id guard f db ≡ (ok none, db)
unfolding find_user_and_update
find_user_and_update_missing id guard f db missing = ground arith

find_user_and_update_barred :
    (id : ℕ) (guard : User → Bool) (f : User → User) (db : Db) {u : User}
    → find id db.users ≡ some u
    → guard u ≡ false
    → find_user_and_update id guard f db ≡ (ok none, db)
unfolding find_user_and_update
find_user_and_update_barred id guard f db found barred = ground arith

-- Whether the guard of the atomic debit lets an account through.
abbrev pub debit_guard : Amount → User → Bool
debit_guard amount u =
    is_active u.status && leb_ℤ amount (u.wallet_balance +ℤ or_zero u.credit_limit)

-- The error of a debit that matched no account, from the account that is there.
abbrev pub refusal : Option User → Amount → Error
refusal none amount = not_found "User"
refusal (some u) amount =
    if is_active u.status
    then insufficient_funds amount (u.wallet_balance +ℤ or_zero u.credit_limit)
    else account_inactive

-- What the guard of the atomic debit says of the account that is there.
abbrev pub passes : Amount → Option User → Bool
passes amount none = false
passes amount (some u) = debit_guard amount u

module _ (round : Amount → Amount) where
  debit_invalid :
      (id : ℕ) (amount : Amount) (reference : Option ℕ) (db : Db)
      → amount ≤ℤ pos 0
      → debit_wallet_atomic round id amount reference db ≡ (err invalid_amount, db)
  unfolding debit_wallet_atomic
  debit_invalid id amount reference db small = ground arith

  debit_declined :
      (id : ℕ) (amount : Amount) (reference : Option ℕ) (db : Db)
      → pos 1 ≤ℤ amount
      → passes amount (find id db.users) ≡ false
      → debit_wallet_atomic round id amount reference db
        ≡ (err (refusal (find id db.users) amount), db)
  unfolding debit_wallet_atomic debit_refused
  debit_declined id amount reference db positive barred =
      let f = set_balance round (λ b. b -ℤ amount) in
      elim (Option-cases (find id db.users)) [
        | inl missing ↦
            ground (arith, find_user_and_update_missing id (debit_guard amount) f db missing)
        | inr (u, found) ↦
            ground (arith, find_user_and_update_barred id (debit_guard amount) f db found)
      ]

  -- The errors of a debit, one for each cause, and the state that they leave: a debit that is
  -- not positive, that finds no account, an inactive one, or one that cannot cover it throws the
  -- error of that cause and writes nothing.
  pub debit_refuses :
      (id : ℕ) (amount : Amount) (reference : Option ℕ) (db : Db)
      → (amount ≤ℤ pos 0) ⊎ (passes amount (find id db.users) ≡ false)
      → debit_wallet_atomic round id amount reference db ≡ (
        err (if leb_ℤ amount (pos 0) then invalid_amount else refusal (find id db.users) amount),
        db,
      )
  debit_refuses id amount reference db cause = elim (Bool-cases (leb_ℤ amount (pos 0))) [
    | inl small ↦ rw small (debit_invalid id amount reference db (ground arith))
    | inr large ↦ rw large (debit_declined id amount reference db (ground arith) (ground arith))
  ]

  debit_passes :
      (id : ℕ) (amount : Amount) (reference : Option ℕ) (db : Db) {r : DebitResult}
      → (debit_wallet_atomic round id amount reference db).0 ≡ ok r
      → (pos 1 ≤ℤ amount) × (passes amount (find id db.users) ≡ true)
  debit_passes id amount reference db h = elim (Bool-cases (leb_ℤ amount (pos 0))) [
    | inl small ↦ ground (arith, debit_invalid id amount reference db (ground arith))
    | inr large ↦ elim (Bool-cases (passes amount (find id db.users))) [
      | inl fits ↦ (ground arith, fits)
      | inr barred ↦ ground (arith, debit_declined id amount reference db (ground arith) barred)
    ]
  ]

  -- A debit that returns found an active account that covers it.
  pub debit_only_if :
      (id : ℕ) (amount : Amount) (reference : Option ℕ) (db : Db) {r : DebitResult}
      → (debit_wallet_atomic round id amount reference db).0 ≡ ok r
      → (u : User) × (find id db.users ≡ some u)
        × (u.status ≡ UserStatus.active)
        × (pos 1 ≤ℤ amount)
        × (amount ≤ℤ u.wallet_balance +ℤ or_zero u.credit_limit)
  debit_only_if id amount reference db h =
      let (positive, fits) = debit_passes id amount reference db h in
      elim (Option-cases (find id db.users)) [
        | inl missing ↦ ground arith
        | inr (u, found) ↦ (u, found, ground arith, positive, ground arith)
      ]

  -- A refund that returns found the account and paid a positive amount.
  pub refund_only_if :
      (id : ℕ) (w c : Amount) (reference : Option ℕ) (db : Db) {t : WalletTransaction}
      → (refund_wallet_atomic round id w c reference db).0 ≡ ok t
      → IsCents w
      → IsCents c
      → (u : User) × (find id db.users ≡ some u) × (pos 1 ≤ℤ refund_total w c)
  unfolding refund_wallet_atomic
  refund_only_if id w c reference db h hw hc =
      let total = refund_total w c in
      elim (Option-cases (find id db.users)) [
        | inl missing ↦ ground (
          arith,
          find_user_and_update_missing id (λ _. true) (set_balance round (λ b. b +ℤ total)) db
              missing,
          safe_round-eq w hw,
          safe_round-eq c hc,
          safe_round-eq total (refund_total-IsCents w c hw hc),
          +ℤ-zero w,
        )
        | inr (u, found) ↦ (
          u,
          found,
          ground (
            arith,
            safe_round-eq w hw,
            safe_round-eq c hc,
            safe_round-eq total (refund_total-IsCents w c hw hc),
            +ℤ-zero w,
          ),
        )
      ]

  -- A credit that returns found the account, was positive, and took a free source key.
  pub credit_only_if :
      (id : ℕ) (amount : Amount) (reference : Option ℕ) (st : Option SourceType) (si : Option ℕ)
      (key : Option Text) (db : Db) {t : WalletTransaction}
      → (credit_wallet_direct round id amount reference st si key db).0 ≡ ok t
      → (u : User) × (find id db.users ≡ some u)
        × (pos 1 ≤ℤ amount)
        × (index_conflict (stored_key key) db.wallet_transactions ≡ false)
  unfolding credit_wallet_direct find_user_and_update create_transaction_record
  credit_only_if id amount reference st si key db h = elim (Option-cases (find id db.users)) [
    | inl missing ↦ ground arith
    | inr (u, found) ↦ (u, found, ground arith, ground arith)
  ]

-- A forced debit that returns found the account, and its amount was positive.
pub forced_debit_only_if :
    (id : ℕ) (amount : Amount) (reference : Option ℕ) (db : Db) {t : WalletTransaction}
    → (forced_debit_wallet id amount reference db).0 ≡ ok t
    → (u : User) × (find id db.users ≡ some u) × (pos 1 ≤ℤ amount)
unfolding forced_debit_wallet forced_debit_read forced_debit_write
forced_debit_only_if id amount reference db h = elim (Option-cases (find id db.users)) [
  | inl missing ↦ ground arith
  | inr (u, found) ↦ (u, found, ground arith)
]
