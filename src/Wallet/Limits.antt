-- ===== src/Wallet/Limits.antt =====
-- The credit line of src/modules/wallet/wallet.service.js: how far a balance can fall.
use kanz_coins_backend.Prelude.{ℕ, ◌≡◌, ◌≢◌, sym, ◌∙◌, inl, inr, some, List, [], ◌∷◌, arith}
use kanz_coins_backend.Prelude.Int.{pos, ◌+ℤ◌, ◌≤ℤ◌, int_laws}
use kanz_coins_backend.Prelude.Lists.{All}
use kanz_coins_backend.Prelude.Tests.{◌==◌, ==_iff, Bool-cases}
use kanz_coins_backend.Prelude.Table.{find}
use kanz_coins_backend.Money.{Amount, or_zero}
use kanz_coins_backend.Db.{Db, User, WalletTransaction}
use kanz_coins_backend.Wallet.{debit_wallet_atomic, refund_wallet_atomic, credit_wallet_direct}
use kanz_coins_backend.Wallet.Database.{KeepsCents}
use kanz_coins_backend.Wallet.Accounts.{with_balance, Moves}
use kanz_coins_backend.Wallet.Charges.{debit_charges}
use kanz_coins_backend.Wallet.Credits.{refund_pays, credit_pays}
use kanz_coins_backend.Wallet.Refusals.{debit_only_if, refund_only_if, credit_only_if}
use kanz_coins_backend.Wallet.Books.{
  WalletCall, debit, refund, credit, forced_debit, HasCents, IsSound, attempt_cases, call, run,
  call-IsSound,
}

-- An account within its credit line: `walletBalance + creditLimit >= 0`.
abbrev pub IsWithin : User → Type 0
IsWithin u = pos 0 ≤ℤ u.wallet_balance +ℤ or_zero u.credit_limit

pub record AllWithin (db : Db) : Type 0 where
  pub within : (id : ℕ) (u : User) → find id db.users ≡ some u → IsWithin u

Moves-AllWithin :
    (id : ℕ) (u : User) (b : Amount) (t : WalletTransaction) (db db' : Db)
    → AllWithin db
    → Moves id u b t db db'
    → IsWithin (with_balance u b)
    → AllWithin db'
Moves-AllWithin id u b t db db' h m w = record { within = within' }
  where
    within' : (j : ℕ) (v : User) → find j db'.users ≡ some v → IsWithin v
    within' j v e = elim (Bool-cases (j == id)) [
      | inl same ↦
          let same_id = (==_iff j id).0 same in
          let same_user : v ≡ with_balance u b = cc (e, m.account, same_id) in rw same_user w
      | inr other ↦
          let other_id : j ≢ id = ground arith in h.within j v (sym (m.others j other_id) ∙ e)
    ]

-- Every call but the administrator's forced debit.
abbrev pub IsGuarded : WalletCall → Type 0
IsGuarded (forced_debit id amount reference) = ⊥
IsGuarded (debit id amount reference) = Unit
IsGuarded (refund id w c reference) = Unit
IsGuarded (credit id amount reference st si key) = Unit

module _ (round : Amount → Amount) (keeps : KeepsCents round) where
  call-AllWithin :
      (c : WalletCall) (db : Db)
      → HasCents c
      → IsGuarded c
      → IsSound db
      → AllWithin db
      → AllWithin (call round c db)
  call-AllWithin (debit id amount reference) db cents g s h =
      attempt_cases AllWithin (debit_wallet_atomic round id amount reference) db h λ r e.
        let (u, found, active, positive, covered) = debit_only_if round id amount reference db e in
        let (_, m) =
          debit_charges round keeps id amount reference db u found (s.agrees id u found).fair active
            cents positive covered in
        Moves-AllWithin id u _ _ db _ h m (omega int_laws)
  call-AllWithin (refund id w c reference) db (hw, hc) g s h =
      attempt_cases AllWithin (refund_wallet_atomic round id w c reference) db h λ t e.
        let (u, found, positive) = refund_only_if round id w c reference db e hw hc in
        let (_, m) =
          refund_pays round keeps id w c reference db u found (s.agrees id u found).fair hw hc
            positive in
        let old = h.within id u found in Moves-AllWithin id u _ _ db _ h m (omega (int_laws, old))
  call-AllWithin (credit id amount reference st si key) db cents g s h =
      attempt_cases AllWithin (credit_wallet_direct round id amount reference st si key) db h λ t e.
        let (u, found, positive, free) = credit_only_if round id amount reference st si key db e in
        let (_, m) =
          credit_pays round keeps id amount reference st si key db u found
            (s.agrees id u found).fair cents positive free in
        let old = h.within id u found in Moves-AllWithin id u _ _ db _ h m (omega (int_laws, old))
  call-AllWithin (forced_debit id amount reference) db cents g s h = absurd g

  -- No sequence of debits, refunds and credits in whole cents takes a balance below the negative
  -- of its credit limit, if the books are sound and no balance was below it before.
  pub run-AllWithin :
      (calls : List WalletCall) (db : Db)
      → All HasCents calls
      → All IsGuarded calls
      → IsSound db
      → AllWithin db
      → AllWithin (run round calls db)
  run-AllWithin [] db cents guarded s h = h
  run-AllWithin (c ∷ cs) db (first, rest) (g, gs) s h =
      run-AllWithin cs (call round c db) rest gs (call-IsSound round keeps c db first s)
        (call-AllWithin c db first g s h)
