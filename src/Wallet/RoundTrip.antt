-- ===== src/Wallet/RoundTrip.antt =====
-- A debit of src/modules/wallet/wallet.service.js and the refund of what it took.
use kanz_coins_backend.Prelude.{ℕ, ◌≡◌, ap, ◌∙◌, Option, some, ◌∷◌, arith}
use kanz_coins_backend.Prelude.Int.{pos, ◌+ℤ◌, ◌-ℤ◌, ◌≤ℤ◌, sub_add_cancel}
use kanz_coins_backend.Prelude.Table.{find}
use kanz_coins_backend.Money.{Amount, or_zero}
use kanz_coins_backend.Money.Cents.{IsCents, -ℤ-IsCents}
use kanz_coins_backend.Db.{Db, User, UserStatus}
use kanz_coins_backend.Wallet.{debit_wallet_atomic, refund_wallet_atomic}
use kanz_coins_backend.Wallet.Database.{KeepsCents}
use kanz_coins_backend.Wallet.Accounts.{IsFair, with_balance, with_balance-IsFair}
use kanz_coins_backend.Wallet.Charges.{
  debit_charges, debit_entry, refund_entry, credit_drawn, credit_drawn-IsCents,
}
use kanz_coins_backend.Wallet.Credits.{refund_pays, refund_total}

pub with_balance_twice :
    (u : User) (b : Amount) → IsFair u → with_balance (with_balance u b) u.wallet_balance ≡ u
with_balance_twice u b h = cc h.mirror

-- An order that was paid from the wallet is refunded by what the wallet paid.
pub refund_total-eq : (w c : Amount) → pos 1 ≤ℤ w → refund_total w c ≡ w
refund_total-eq w c h = ground arith

module _ (round : Amount → Amount) (keeps : KeepsCents round) where
  -- For an active, fair account that covers a positive amount in whole cents: refunding what a debit
  -- took, the way the order services do (the deducted amount, with the drawn credit beside it), gives
  -- the account back as it was, credit mirror included, and the ledger has both entries.
  pub refund-debit :
      (id : ℕ) (amount : Amount) (reference : Option ℕ) (db : Db) (u : User)
      → find id db.users ≡ some u
      → IsFair u
      → u.status ≡ UserStatus.active
      → IsCents amount
      → pos 1 ≤ℤ amount
      → amount ≤ℤ u.wallet_balance +ℤ or_zero u.credit_limit
      → let paid = (debit_wallet_atomic round id amount reference db).1 in
        let back =
          (refund_wallet_atomic round id amount (credit_drawn u amount) reference paid).1 in
        (find id back.users ≡ some u)
        × (back.wallet_transactions
            ≡ refund_entry id (with_balance u (u.wallet_balance -ℤ amount)) amount reference
              ∷ debit_entry id u amount reference
              ∷ db.wallet_transactions)
  refund-debit id amount reference db u found fair active cents positive covered =
      let total = refund_total-eq amount (credit_drawn u amount) positive in
      let (_, m) =
        debit_charges round keeps id amount reference db u found fair active cents positive
          covered in
      let paid = (debit_wallet_atomic round id amount reference db).1 in
      let v = with_balance u (u.wallet_balance -ℤ amount) in
      let fair' =
        with_balance-IsFair u (u.wallet_balance -ℤ amount) fair
          (-ℤ-IsCents u.wallet_balance amount fair.cents cents) in
      let (_, n) =
        refund_pays round keeps id amount (credit_drawn u amount) reference paid v m.account fair'
          cents (credit_drawn-IsCents u amount) (rw total positive) in
      let back : with_balance v (v.wallet_balance +ℤ refund_total amount (credit_drawn u amount))
          ≡ u =
        rw (total, sub_add_cancel u.wallet_balance amount)
          (with_balance_twice u (u.wallet_balance -ℤ amount) fair) in
      (n.account ∙ ap some back, rw (n.ledger, m.ledger, total))
