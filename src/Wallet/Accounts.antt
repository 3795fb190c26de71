-- ===== src/Wallet/Accounts.antt =====
-- What one wallet operation does to the accounts: the shape that every operation of
-- src/modules/wallet/wallet.service.js shares, and the facts about a single account.
use kanz_coins_backend.Prelude.{ℕ, ◌≡◌, ◌≢◌, refl, ap, ◌∙◌, Option, some, ◌∷◌, arith}
use kanz_coins_backend.Prelude.Int.{pos, ◌≤ℤ◌, abs, min_ℤ, ltb_ℤ}
use kanz_coins_backend.Prelude.Tests.{if◌then◌else◌}
use kanz_coins_backend.Prelude.Table.{find, modify, find-modify_self, find-modify_ne}
use kanz_coins_backend.Money.{Amount, or_zero, recalculate_credit_used}
use kanz_coins_backend.Money.Cents.{
  IsCents, zero-IsCents, abs-IsCents, min_ℤ-IsCents, safe_round-eq,
}
use kanz_coins_backend.Db.{Db, User, WalletTransaction}
use kanz_coins_backend.Wallet.{credit_used_expression, set_balance}
use kanz_coins_backend.Wallet.Database.{KeepsCents}

-- An account in whole cents whose credit mirror agrees with its balance.
pub record IsFair (u : User) : Type 0 where
  pub cents : IsCents u.wallet_balance
  pub limit_cents : IsCents (or_zero u.credit_limit)
  pub limit_nonneg : pos 0 ≤ℤ or_zero u.credit_limit
  pub mirror : u.credit_used ≡ recalculate_credit_used u.wallet_balance u.credit_limit

-- The account after its balance was set, with the mirror that goes with it.
abbrev pub with_balance : User → Amount → User
with_balance u balance = record u {
  wallet_balance = balance;
  credit_used = recalculate_credit_used balance u.credit_limit;
}

pub with_balance-IsFair : (u : User) (b : Amount) → IsFair u → IsCents b → IsFair (with_balance u b)
with_balance-IsFair u b h k = record {
  cents = k;
  limit_cents = h.limit_cents;
  limit_nonneg = h.limit_nonneg;
  mirror = refl;
}

-- In whole cents the mirror is the plain formula.
pub recalculate-eq :
    (b : Amount) (l : Option Amount)
    → IsCents b
    → IsCents (or_zero l)
    → pos 0 ≤ℤ or_zero l
    → recalculate_credit_used b l ≡ (if ltb_ℤ b (pos 0) then min_ℤ (abs b) (or_zero l) else pos 0)
unfolding recalculate_credit_used min_ℤ abs
recalculate-eq b l h k n = ground (
  arith,
  safe_round-eq b h,
  safe_round-eq (abs (or_zero l)) (abs-IsCents (or_zero l) k),
  safe_round-eq (min_ℤ (abs b) (or_zero l)) (min_ℤ-IsCents (abs b) (or_zero l) (abs-IsCents b h) k),
)

module _ (round : Amount → Amount) (keeps : KeepsCents round) where
  -- The server's expression for the mirror and the service's function agree in whole cents.
  pub credit_used_expression-eq :
      (b : Amount) (l : Option Amount)
      → IsCents b
      → IsCents (or_zero l)
      → pos 0 ≤ℤ or_zero l
      → credit_used_expression round b l ≡ recalculate_credit_used b l
  unfolding credit_used_expression min_ℤ abs
  credit_used_expression-eq b l h k n = ground (
    arith,
    recalculate-eq b l h k n,
    keeps.on_cents b h,
    keeps.on_cents (min_ℤ (abs b) (abs (or_zero l)))
        (min_ℤ-IsCents (abs b) (abs (or_zero l)) (abs-IsCents b h) (abs-IsCents (or_zero l) k)),
    keeps.on_cents (pos 0) zero-IsCents,
  )

  pub set_balance-eq :
      (expression : Amount → Amount) (u : User)
      → IsFair u
      → IsCents (expression u.wallet_balance)
      → set_balance round expression u ≡ with_balance u (expression u.wallet_balance)
  unfolding set_balance
  set_balance-eq expression u h k = rw (keeps.on_cents (expression u.wallet_balance) k) (
      rw (
        credit_used_expression-eq (expression u.wallet_balance) u.credit_limit k h.limit_cents
          h.limit_nonneg))

-- A successful operation on the account `u` of user `id`: the balance is set, one entry is put
-- on the ledger, and nothing else changes.
pub record Moves (id : ℕ) (u : User) (balance : Amount) (t : WalletTransaction) (db db' : Db)
    : Type 0 where
  pub account : find id db'.users ≡ some (with_balance u balance)
  pub others : (j : ℕ) → j ≢ id → find j db'.users ≡ find j db.users
  pub ledger : db'.wallet_transactions ≡ t ∷ db.wallet_transactions
  pub groups : db'.groups ≡ db.groups
  pub orders : db'.orders ≡ db.orders

-- The state after such an operation.
abbrev pub posted : ℕ → (User → User) → WalletTransaction → Db → Db
posted id f t db = record db {
  users = modify id f db.users;
  wallet_transactions = t ∷ db.wallet_transactions;
}

pub posted-Moves :
    (id : ℕ) (f : User → User) (t : WalletTransaction) (db : Db) (u : User) (b : Amount)
    → find id db.users ≡ some u
    → f u ≡ with_balance u b
    → Moves id u b t db (posted id f t db)
posted-Moves id f t db u b h e = record {
  account = find-modify_self id f db.users h ∙ ap some e;
  others = λ j ne. find-modify_ne j id f db.users ne;
  ledger = refl;
  groups = refl;
  orders = refl;
}
