-- ===== src/Wallet/Races.antt =====
-- What other writers do between the two database steps of `forcedDebitWallet`
-- (src/modules/wallet/wallet.service.js). The other operations are one step each.
use kanz_coins_backend.Prelude.{ℕ, ◌≡◌, refl, Option, none, some, ◌∷◌, arith}
use kanz_coins_backend.Prelude.Int.{pos, ◌-ℤ◌, ◌≤ℤ◌}
use kanz_coins_backend.Prelude.Table.{find, modify, find-modify_self}
use kanz_coins_backend.Prelude.Exec.{ok}
use kanz_coins_backend.Money.{Amount, recalculate_credit_used}
use kanz_coins_backend.Money.Cents.{IsCents, -ℤ-IsCents, safe_round-eq}
use kanz_coins_backend.Db.{Db, User}
use kanz_coins_backend.Wallet.{credit_wallet_direct, forced_debit_read, forced_debit_write}
use kanz_coins_backend.Wallet.Database.{KeepsCents}
use kanz_coins_backend.Wallet.Accounts.{IsFair, with_balance, posted}
use kanz_coins_backend.Wallet.Charges.{debit_entry, create_transaction_record_fits, cent-le}
use kanz_coins_backend.Wallet.Credits.{credit_pays, credit_entry}

abbrev overwrite : User → Amount → User → User
overwrite u amount v = record v {
  wallet_balance = u.wallet_balance -ℤ amount;
  credit_used = recalculate_credit_used (u.wallet_balance -ℤ amount) u.credit_limit;
}

-- The second step writes what the first step read, whatever the account has become.
pub forced_debit_write_runs :
    (id : ℕ) (amount : Amount) (reference : Option ℕ) (db : Db) (u : User)
    → IsFair u
    → IsCents amount
    → pos 1 ≤ℤ amount
    → forced_debit_write id amount reference u db ≡ (
      ok (debit_entry id u amount reference),
      posted id (overwrite u amount) (debit_entry id u amount reference) db,
    )
unfolding forced_debit_write
forced_debit_write_runs id amount reference db u fair cents positive = ground (
  arith,
  safe_round-eq (u.wallet_balance -ℤ amount) (-ℤ-IsCents u.wallet_balance amount fair.cents cents),
  create_transaction_record_fits (debit_entry id u amount reference)
      (record db { users = modify id (overwrite u amount) db.users })
      (cent-le amount cents positive) refl,
)

pub forced_debit_read_runs :
    (id : ℕ) (amount : Amount) (db : Db) (u : User)
    → find id db.users ≡ some u
    → pos 1 ≤ℤ amount
    → forced_debit_read id amount db ≡ (ok u, db)
unfolding forced_debit_read
forced_debit_read_runs id amount db u found positive = ground arith

module _ (round : Amount → Amount) (keeps : KeepsCents round) where
  -- For a fair account and positive amounts in whole cents: a deposit that is credited between the
  -- read and the write of a forced debit is lost from the balance. The account ends at what it was
  -- before the deposit less the debit, while the ledger has both entries.
  pub forced_debit_loses_credit :
      (id : ℕ) (amount deposit : Amount) (reference reference' : Option ℕ) (db : Db) (u : User)
      → find id db.users ≡ some u
      → IsFair u
      → IsCents amount
      → pos 1 ≤ℤ amount
      → IsCents deposit
      → pos 1 ≤ℤ deposit
      → let (r, read) = forced_debit_read id amount db in
        let credited = (credit_wallet_direct round id deposit reference' none none none read).1 in
        let written = (forced_debit_write id amount reference u credited).1 in
        (r ≡ ok u)
        × (find id written.users ≡ some (with_balance u (u.wallet_balance -ℤ amount)))
        × (written.wallet_transactions
            ≡ debit_entry id u amount reference
              ∷ credit_entry id u deposit reference' none none none
              ∷ db.wallet_transactions)
  forced_debit_loses_credit id amount deposit reference reference' db u found fair cents positive
        dcents dpositive =
      let credited = (credit_wallet_direct round id deposit reference' none none none db).1 in
      let (_, m) =
        credit_pays round keeps id deposit reference' none none none db u found fair dcents
          dpositive refl in
      rw
        (
          forced_debit_read_runs id amount db u found positive,
          forced_debit_write_runs id amount reference credited u fair cents positive,
          m.ledger,
        )
        (refl, find-modify_self id (overwrite u amount) credited.users m.account, refl)
