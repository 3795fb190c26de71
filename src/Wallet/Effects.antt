-- ===== src/Wallet/Effects.antt =====
-- What a refund, and a credit that returns, of src/modules/wallet/wallet.service.js can do to the
-- collections, for every amount.
use kanz_coins_backend.Prelude.{
  ℕ, suc, ◌+◌, ◌≤◌, ◌&&◌, ◌≡◌, Bool, true, false, Option, none, some, List, [], ◌∷◌, inl, inr,
  arith,
}
use kanz_coins_backend.Prelude.Tests.{if◌then◌else◌, ◌==◌, Option-cases}
use kanz_coins_backend.Prelude.Text.{Text}
use kanz_coins_backend.Prelude.Table.{find}
use kanz_coins_backend.Prelude.Exec.{ok}
use kanz_coins_backend.Money.{Amount}
use kanz_coins_backend.Db.{Db, WalletTransaction, TransactionType, SourceType}
use kanz_coins_backend.Wallet.{
  refund_wallet_atomic, credit_wallet_direct, find_user_and_update, create_transaction_record,
}

abbrev pub is_refund : TransactionType → Bool
is_refund TransactionType.refund = true
is_refund _ = false

abbrev pub refers : ℕ → Option ℕ → Bool
refers id none = false
refers id (some k) = id == k

-- How many refunds the ledger has for an order.
abbrev pub refund_count : ℕ → List WalletTransaction → ℕ
refund_count id [] = 0
refund_count id (t ∷ ts) =
    let rest = refund_count id ts in
    if is_refund t.type && refers id t.reference then suc rest else rest

-- A refund touches no order and no group, and adds at most one refund to the ledger, for the order
-- that it refers to.
pub record RefundsAtMostOnce (reference : Option ℕ) (db db' : Db) : Type 0 where
  pub orders : db'.orders ≡ db.orders
  pub groups : db'.groups ≡ db.groups
  pub most :
      (j : ℕ)
      → refund_count j db'.wallet_transactions
        ≤ refund_count j db.wallet_transactions + (if refers j reference then 1 else 0)
  pub least :
      (j : ℕ) → refund_count j db.wallet_transactions ≤ refund_count j db'.wallet_transactions

module _ (round : Amount → Amount) where
  pub refund_at_most_once :
      (id : ℕ) (w c : Amount) (reference : Option ℕ) (db : Db)
      → RefundsAtMostOnce reference db (refund_wallet_atomic round id w c reference db).1
  unfolding refund_wallet_atomic find_user_and_update create_transaction_record
  refund_at_most_once id w c reference db = record {
    orders = ground arith;
    groups = ground arith;
    most = λ j. ground arith;
    least = λ j. ground arith;
  }

  -- A credit that returns has put its entry on the ledger.
  pub credit_adds :
      (id : ℕ) (amount : Amount) (reference : Option ℕ) (st : Option SourceType) (si : Option ℕ)
      (key : Option Text) (db : Db) (t : WalletTransaction)
      → let (r, db') = credit_wallet_direct round id amount reference st si key db in
        r ≡ ok t
        → (db'.wallet_transactions ≡ t ∷ db.wallet_transactions)
          × (t.type ≡ TransactionType.credit)
          × (t.reference ≡ reference)
  unfolding credit_wallet_direct find_user_and_update create_transaction_record
  credit_adds id amount reference st si key db t h = elim (Option-cases (find id db.users)) [
    | inl missing ↦ absurd (ground (arith, missing, h))
    | inr (u, found) ↦
        (ground (arith, found, h), ground (arith, found, h), ground (arith, found, h))
  ]
