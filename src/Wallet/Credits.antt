-- ===== src/Wallet/Credits.antt =====
-- The refund, the direct credit and the forced debit of src/modules/wallet/wallet.service.js, on
-- the branch where they succeed.
use kanz_coins_backend.Prelude.{ℕ, ◌≡◌, refl, true, false, Option, some, arith}
use kanz_coins_backend.Prelude.Int.{pos, ◌+ℤ◌, ◌-ℤ◌, ◌≤ℤ◌, ltb_ℤ, +ℤ-zero}
use kanz_coins_backend.Prelude.Tests.{if◌then◌else◌}
use kanz_coins_backend.Prelude.Text.{Text}
use kanz_coins_backend.Prelude.Table.{find, modify}
use kanz_coins_backend.Prelude.Exec.{ok}
use kanz_coins_backend.Money.{Amount, recalculate_credit_used}
use kanz_coins_backend.Money.Cents.{IsCents, -ℤ-IsCents, +ℤ-IsCents, safe_round-eq}
use kanz_coins_backend.Db.{Db, User, WalletTransaction, TransactionType, SourceType}
use kanz_coins_backend.Wallet.{
  refund_wallet_atomic, credit_wallet_direct, forced_debit_wallet, forced_debit_read,
  forced_debit_write, entry, set_balance, index_conflict, stored_key,
}
use kanz_coins_backend.Wallet.Database.{KeepsCents}
use kanz_coins_backend.Wallet.Accounts.{IsFair, Moves, posted, posted-Moves, set_balance-eq}
use kanz_coins_backend.Wallet.Charges.{
  find_user_and_update_found, create_transaction_record_fits, cent-le, refund_entry, debit_entry,
}

-- What a refund pays: the wallet part, or the credit part of an order that has no wallet part.
abbrev pub refund_total : Amount → Amount → Amount
refund_total wallet_deducted credit_used_amount =
    if ltb_ℤ (pos 0) wallet_deducted then wallet_deducted else wallet_deducted +ℤ credit_used_amount

pub refund_total-IsCents : (w c : Amount) → IsCents w → IsCents c → IsCents (refund_total w c)
refund_total-IsCents w c hw hc = ground (arith, +ℤ-IsCents w c hw hc)

abbrev pub credit_entry :
    ℕ → User → Amount → Option ℕ → Option SourceType → Option ℕ → Option Text → WalletTransaction
credit_entry id u amount reference source_type source_id source_key =
    let doc =
      entry id TransactionType.credit amount u.wallet_balance (u.wallet_balance +ℤ amount)
        reference in
    record doc {
      source_type = source_type;
      source_id = source_id;
      source_key = stored_key source_key;
    }

module _ (round : Amount → Amount) (keeps : KeepsCents round) where
  refund_runs :
      (id : ℕ) (w c : Amount) (reference : Option ℕ) (db : Db) (u : User)
      → find id db.users ≡ some u
      → IsFair u
      → IsCents w
      → IsCents c
      → pos 1 ≤ℤ refund_total w c
      → refund_wallet_atomic round id w c reference db ≡ (
        ok (refund_entry id u (refund_total w c) reference),
        posted id
            (set_balance round (λ b. b +ℤ refund_total w c))
            (refund_entry id u (refund_total w c) reference)
            db,
      )
  unfolding refund_wallet_atomic
  refund_runs id w c reference db u found fair hw hc positive =
      let total = refund_total w c in
      let f = set_balance round (λ b. b +ℤ total) in
      let t = refund_entry id u total reference in
      let cents = refund_total-IsCents w c hw hc in
      ground (
        arith,
        safe_round-eq w hw,
        safe_round-eq c hc,
        safe_round-eq total cents,
        +ℤ-zero w,
        safe_round-eq (u.wallet_balance +ℤ total)
            (+ℤ-IsCents u.wallet_balance total fair.cents cents),
        find_user_and_update_found id (λ _. true) f db found,
        create_transaction_record_fits t (record db { users = modify id f db.users })
            (cent-le total cents positive) refl,
      )

  -- A refund of a positive total in whole cents to a fair account, whatever the account's status is:
  -- the balance grows by exactly the total (the wallet part, or where it is not positive its sum with
  -- the credit part), one refund goes on the ledger, and nothing else changes.
  pub refund_pays :
      (id : ℕ) (w c : Amount) (reference : Option ℕ) (db : Db) (u : User)
      → find id db.users ≡ some u
      → IsFair u
      → IsCents w
      → IsCents c
      → pos 1 ≤ℤ refund_total w c
      → let total = refund_total w c in
        let (r, db') = refund_wallet_atomic round id w c reference db in
        (r ≡ ok (refund_entry id u total reference))
        × Moves id u (u.wallet_balance +ℤ total) (refund_entry id u total reference) db db'
  refund_pays id w c reference db u found fair hw hc positive =
      let total = refund_total w c in
      rw (refund_runs id w c reference db u found fair hw hc positive) (
        refl,
        posted-Moves id (set_balance round (λ b. b +ℤ total)) (refund_entry id u total reference) db
            u (u.wallet_balance +ℤ total) found
            (set_balance-eq round keeps (λ b. b +ℤ total) u fair
              (+ℤ-IsCents u.wallet_balance total fair.cents (refund_total-IsCents w c hw hc))),
      )

  credit_runs :
      (id : ℕ) (amount : Amount) (reference : Option ℕ) (st : Option SourceType) (si : Option ℕ)
      (key : Option Text) (db : Db) (u : User)
      → find id db.users ≡ some u
      → IsFair u
      → IsCents amount
      → pos 1 ≤ℤ amount
      → index_conflict (stored_key key) db.wallet_transactions ≡ false
      → credit_wallet_direct round id amount reference st si key db ≡ (
        ok (credit_entry id u amount reference st si key),
        posted id
            (set_balance round (λ b. b +ℤ amount))
            (credit_entry id u amount reference st si key)
            db,
      )
  unfolding credit_wallet_direct
  credit_runs id amount reference st si key db u found fair cents positive free =
      let f = set_balance round (λ b. b +ℤ amount) in
      let doc =
        entry id TransactionType.credit amount u.wallet_balance (u.wallet_balance +ℤ amount)
          reference in
      ground (
        arith,
        safe_round-eq (u.wallet_balance +ℤ amount)
            (+ℤ-IsCents u.wallet_balance amount fair.cents cents),
        find_user_and_update_found id (λ _. true) f db found,
        create_transaction_record_fits
            (record doc { source_type = st; source_id = si; source_key = key })
            (record db { users = modify id f db.users }) (cent-le amount cents positive) free,
      )

  -- A credit of a positive amount in whole cents to a fair account, under a source key that no entry
  -- has: the balance grows by exactly the amount, one credit goes on the ledger, and nothing else
  -- changes.
  pub credit_pays :
      (id : ℕ) (amount : Amount) (reference : Option ℕ) (st : Option SourceType) (si : Option ℕ)
      (key : Option Text) (db : Db) (u : User)
      → find id db.users ≡ some u
      → IsFair u
      → IsCents amount
      → pos 1 ≤ℤ amount
      → index_conflict (stored_key key) db.wallet_transactions ≡ false
      → let (r, db') = credit_wallet_direct round id amount reference st si key db in
        (r ≡ ok (credit_entry id u amount reference st si key))
        × Moves id u
            (u.wallet_balance +ℤ amount)
            (credit_entry id u amount reference st si key)
            db
            db'
  credit_pays id amount reference st si key db u found fair cents positive free =
      rw (credit_runs id amount reference st si key db u found fair cents positive free) (
        refl,
        posted-Moves id (set_balance round (λ b. b +ℤ amount))
            (credit_entry id u amount reference st si key) db u (u.wallet_balance +ℤ amount) found
            (set_balance-eq round keeps (λ b. b +ℤ amount) u fair
              (+ℤ-IsCents u.wallet_balance amount fair.cents cents)),
      )

-- The write of a forced debit of the account as it was read.
forced_debit_runs :
    (id : ℕ) (amount : Amount) (reference : Option ℕ) (db : Db) (u : User)
    → find id db.users ≡ some u
    → IsFair u
    → IsCents amount
    → pos 1 ≤ℤ amount
    → forced_debit_wallet id amount reference db ≡ (
      ok (debit_entry id u amount reference),
      posted id
          (λ v. record v {
            wallet_balance = u.wallet_balance -ℤ amount;
            credit_used = recalculate_credit_used (u.wallet_balance -ℤ amount) u.credit_limit;
          })
          (debit_entry id u amount reference)
          db,
    )
unfolding forced_debit_wallet forced_debit_read forced_debit_write
forced_debit_runs id amount reference db u found fair cents positive =
    let f = λ (v : User). record v {
      wallet_balance = u.wallet_balance -ℤ amount;
      credit_used = recalculate_credit_used (u.wallet_balance -ℤ amount) u.credit_limit;
    } in
    ground (
      arith,
      safe_round-eq (u.wallet_balance -ℤ amount)
          (-ℤ-IsCents u.wallet_balance amount fair.cents cents),
      create_transaction_record_fits (debit_entry id u amount reference)
          (record db { users = modify id f db.users }) (cent-le amount cents positive) refl,
    )

-- With no other writer between its read and its write, a forced debit of a positive amount in whole
-- cents takes exactly that amount from a fair account, whatever its balance, credit line and status
-- are, puts one debit on the ledger, and changes nothing else.
pub forced_debit_takes :
    (id : ℕ) (amount : Amount) (reference : Option ℕ) (db : Db) (u : User)
    → find id db.users ≡ some u
    → IsFair u
    → IsCents amount
    → pos 1 ≤ℤ amount
    → let (r, db') = forced_debit_wallet id amount reference db in
      (r ≡ ok (debit_entry id u amount reference))
      × Moves id u (u.wallet_balance -ℤ amount) (debit_entry id u amount reference) db db'
forced_debit_takes id amount reference db u found fair cents positive =
    rw (forced_debit_runs id amount reference db u found fair cents positive) (
      refl,
      posted-Moves id _ (debit_entry id u amount reference) db u (u.wallet_balance -ℤ amount) found
          refl,
    )
