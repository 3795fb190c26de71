-- ===== src/Wallet/Charges.antt =====
-- Each operation of src/modules/wallet/wallet.service.js on the branch where it succeeds.
use kanz_coins_backend.Prelude.{
  ℕ, ◌≡◌, refl, Bool, true, false, ◌&&◌, ◌||◌, inl, inr, Option, some, ◌∷◌, arith,
}
use kanz_coins_backend.Prelude.Int.{pos, negsuc, ◌+ℤ◌, ◌-ℤ◌, ◌≤ℤ◌, max_ℤ, min_ℤ, abs, leb_ℤ}
use kanz_coins_backend.Prelude.Tests.{Bool-cases}
use kanz_coins_backend.Prelude.Table.{find, modify}
use kanz_coins_backend.Prelude.Exec.{ok}
use kanz_coins_backend.Money.{Amount, cent, or_zero, safe_round, recalculate_credit_used}
use kanz_coins_backend.Money.Cents.{
  IsCents, zero-IsCents, safe_round-IsCents, -ℤ-IsCents, safe_round-eq,
}
use kanz_coins_backend.Db.{Db, User, UserStatus, WalletTransaction, TransactionType}
use kanz_coins_backend.Wallet.{
  debit_wallet_atomic, entry, set_balance, find_user_and_update, create_transaction_record,
  index_conflict, stored_key, debit_record, is_active,
}
use kanz_coins_backend.Wallet.Database.{KeepsCents}
use kanz_coins_backend.Wallet.Accounts.{IsFair, Moves, posted-Moves, set_balance-eq}

-- The update matched: the document before it, and the table after it.
pub find_user_and_update_found :
    (id : ℕ) (guard : User → Bool) (f : User → User) (db : Db) {u : User}
    → find id db.users ≡ some u
    → guard u ≡ true
    → find_user_and_update id guard f db ≡ (ok (some u), record db { users = modify id f db.users })
unfolding find_user_and_update
find_user_and_update_found id guard f db found passed = ground arith

-- An entry of at least a cent whose key is free goes on the ledger.
pub create_transaction_record_fits :
    (t : WalletTransaction) (db : Db)
    → pos cent ≤ℤ t.amount
    → index_conflict (stored_key t.source_key) db.wallet_transactions ≡ false
    → let doc = record t { source_key = stored_key t.source_key } in
      create_transaction_record t db
      ≡ (ok doc, record db { wallet_transactions = doc ∷ db.wallet_transactions })
unfolding create_transaction_record
create_transaction_record_fits t db large free = ground arith

-- A positive amount in whole cents is at least a cent.
pub cent-le : (a : Amount) → IsCents a → pos 1 ≤ℤ a → pos cent ≤ℤ a
cent-le (pos n) h p = omega (arith, h.above)
cent-le (negsuc n) h p = omega arith

recalculate-IsCents : (b : Amount) (l : Option Amount) → IsCents (recalculate_credit_used b l)
unfolding recalculate_credit_used
recalculate-IsCents b l =
    elim (Bool-cases
      (leb_ℤ (pos 0) (safe_round b) || leb_ℤ (safe_round (abs (or_zero l))) (pos 0))) [
        | inl e ↦ rw e zero-IsCents
        | inr e ↦
            rw e (safe_round-IsCents (min_ℤ (abs (safe_round b)) (safe_round (abs (or_zero l)))))
      ]

-- How much of the credit line a debit draws.
abbrev pub credit_drawn : User → Amount → Amount
credit_drawn u amount = max_ℤ (pos 0) (
    recalculate_credit_used (u.wallet_balance -ℤ amount) u.credit_limit
    -ℤ recalculate_credit_used u.wallet_balance u.credit_limit)

pub credit_drawn-IsCents : (u : User) (amount : Amount) → IsCents (credit_drawn u amount)
unfolding max_ℤ
credit_drawn-IsCents u amount =
    let new = recalculate_credit_used (u.wallet_balance -ℤ amount) u.credit_limit in
    let old = recalculate_credit_used u.wallet_balance u.credit_limit in
    ground (
      arith,
      zero-IsCents,
      -ℤ-IsCents new old (recalculate-IsCents _ u.credit_limit)
          (recalculate-IsCents _ u.credit_limit),
    )

-- The entries that the operations put on the ledger.
abbrev pub debit_entry : ℕ → User → Amount → Option ℕ → WalletTransaction
debit_entry id u amount reference =
    entry id TransactionType.debit amount u.wallet_balance (u.wallet_balance -ℤ amount) reference

abbrev pub refund_entry : ℕ → User → Amount → Option ℕ → WalletTransaction
refund_entry id u amount reference =
    entry id TransactionType.refund amount u.wallet_balance (u.wallet_balance +ℤ amount) reference

debit_record_fits :
    (id : ℕ) (amount : Amount) (reference : Option ℕ) (db : Db) (u : User)
    → IsFair u
    → IsCents amount
    → pos cent ≤ℤ amount
    → debit_record id amount reference u db ≡ (
      ok (record {
        wallet_deducted = amount;
        credit_used_amount = credit_drawn u amount;
        transaction = debit_entry id u amount reference;
      }),
      record db {
        wallet_transactions = debit_entry id u amount reference ∷ db.wallet_transactions;
      },
    )
unfolding debit_record
debit_record_fits id amount reference db u fair cents large = ground (
  arith,
  safe_round-eq (u.wallet_balance -ℤ amount) (-ℤ-IsCents u.wallet_balance amount fair.cents cents),
  safe_round-eq (credit_drawn u amount) (credit_drawn-IsCents u amount),
  create_transaction_record_fits (debit_entry id u amount reference) db large refl,
)

module _ (round : Amount → Amount) (keeps : KeepsCents round) where
  debit_posts :
      (id : ℕ) (amount : Amount) (reference : Option ℕ) (db : Db) (u : User)
      → find id db.users ≡ some u
      → u.status ≡ UserStatus.active
      → pos cent ≤ℤ amount
      → amount ≤ℤ u.wallet_balance +ℤ or_zero u.credit_limit
      → debit_wallet_atomic round id amount reference db
        ≡ debit_record id amount reference u
            (record db { users = modify id (set_balance round (λ b. b -ℤ amount)) db.users })
  unfolding debit_wallet_atomic
  debit_posts id amount reference db u found active positive covered = ground (
    arith,
    find_user_and_update_found id
        (λ u. is_active u.status && leb_ℤ amount (u.wallet_balance +ℤ or_zero u.credit_limit))
        (set_balance round (λ b. b -ℤ amount)) db found,
  )

  -- A debit of a positive amount in whole cents from an active, fair account that covers it with
  -- its balance and credit line: it returns the amount and the drawn part of the credit line, sets
  -- the balance to the old one less the amount with the mirror that goes with it, puts one debit on
  -- the ledger, and changes no other account, no order and no group.
  pub debit_charges :
      (id : ℕ) (amount : Amount) (reference : Option ℕ) (db : Db) (u : User)
      → find id db.users ≡ some u
      → IsFair u
      → u.status ≡ UserStatus.active
      → IsCents amount
      → pos 1 ≤ℤ amount
      → amount ≤ℤ u.wallet_balance +ℤ or_zero u.credit_limit
      → let (r, db') = debit_wallet_atomic round id amount reference db in
        (r
          ≡ ok (record {
            wallet_deducted = amount;
            credit_used_amount = credit_drawn u amount;
            transaction = debit_entry id u amount reference;
          }))
        × Moves id u (u.wallet_balance -ℤ amount) (debit_entry id u amount reference) db db'
  debit_charges id amount reference db u found fair active cents positive covered =
      let large = cent-le amount cents positive in
      let f = set_balance round (λ b. b -ℤ amount) in
      rw
        (
          debit_posts id amount reference db u found active large covered,
          debit_record_fits id amount reference (record db { users = modify id f db.users }) u fair
              cents large,
        )
        (
          refl,
          posted-Moves id f (debit_entry id u amount reference) db u (u.wallet_balance -ℤ amount)
              found
              (set_balance-eq round keeps (λ b. b -ℤ amount) u fair
                (-ℤ-IsCents u.wallet_balance amount fair.cents cents)),
        )
