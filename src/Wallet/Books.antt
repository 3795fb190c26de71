-- ===== src/Wallet/Books.antt =====
-- The books: every account agrees with the ledger, whatever wallet calls ran and in what order.
use kanz_coins_backend.Prelude.{
  ℕ, ◌≡◌, ◌≢◌, refl, sym, ◌∙◌, true, inl, inr, Option, some, List, [], ◌∷◌, arith,
}
use kanz_coins_backend.Prelude.Int.{ℤ, pos, ◌+ℤ◌, ◌-ℤ◌, +ℤ_comm, int_laws}
use kanz_coins_backend.Prelude.Lists.{All}
use kanz_coins_backend.Prelude.Tests.{if◌then◌else◌, ◌==◌, ==_iff, Bool-cases}
use kanz_coins_backend.Prelude.Text.{Text}
use kanz_coins_backend.Prelude.Table.{find}
use kanz_coins_backend.Prelude.Exec.{Result-cases, Exec, ok, in_session}
use kanz_coins_backend.Money.{Amount}
use kanz_coins_backend.Money.Cents.{IsCents, -ℤ-IsCents, +ℤ-IsCents}
use kanz_coins_backend.Db.{Db, User, WalletTransaction, TransactionType, SourceType}
use kanz_coins_backend.Wallet.{
  debit_wallet_atomic, refund_wallet_atomic, credit_wallet_direct, forced_debit_wallet,
}
use kanz_coins_backend.Wallet.Database.{KeepsCents}
use kanz_coins_backend.Wallet.Accounts.{IsFair, with_balance, with_balance-IsFair, Moves}
use kanz_coins_backend.Wallet.Charges.{debit_charges}
use kanz_coins_backend.Wallet.Credits.{
  refund_pays, credit_pays, forced_debit_takes, refund_total, refund_total-IsCents,
}
use kanz_coins_backend.Wallet.Refusals.{
  debit_only_if, refund_only_if, credit_only_if, forced_debit_only_if,
}

-- What an entry adds to the balance of its account.
abbrev pub signed : TransactionType → Amount → ℤ
signed TransactionType.credit amount = amount
signed TransactionType.refund amount = amount
signed TransactionType.debit amount = pos 0 -ℤ amount
signed TransactionType.debt_adjustment amount = amount

-- The sum of the entries of one account.
abbrev pub ledger_sum : ℕ → List WalletTransaction → ℤ
ledger_sum id [] = pos 0
ledger_sum id (t ∷ ts) =
    let rest = ledger_sum id ts in if id == t.user_id then signed t.type t.amount +ℤ rest else rest

pub record Agrees (id : ℕ) (u : User) (ledger : List WalletTransaction) : Type 0 where
  pub fair : IsFair u
  pub reconciled : u.wallet_balance ≡ ledger_sum id ledger

pub record IsSound (db : Db) : Type 0 where
  pub agrees : (id : ℕ) (u : User) → find id db.users ≡ some u → Agrees id u db.wallet_transactions

Agrees-posted :
    (id : ℕ) (u : User) (b : Amount) (t : WalletTransaction) (ledger : List WalletTransaction)
    → Agrees id u ledger
    → IsCents b
    → t.user_id ≡ id
    → b ≡ signed t.type t.amount +ℤ u.wallet_balance
    → Agrees id (with_balance u b) (t ∷ ledger)
Agrees-posted id u b t ledger a cents owner moved = record {
  fair = with_balance-IsFair u b a.fair cents;
  reconciled = ground arith;
}

Agrees-other :
    (id : ℕ) (u : User) (t : WalletTransaction) (ledger : List WalletTransaction)
    → Agrees id u ledger
    → t.user_id ≢ id
    → Agrees id u (t ∷ ledger)
Agrees-other id u t ledger a other = record { fair = a.fair; reconciled = ground arith }

-- One posted operation keeps the books, if its entry carries what the balance moved by.
pub Moves-IsSound :
    (id : ℕ) (u : User) (b : Amount) (t : WalletTransaction) (db db' : Db)
    → IsSound db
    → find id db.users ≡ some u
    → Moves id u b t db db'
    → IsCents b
    → t.user_id ≡ id
    → b ≡ signed t.type t.amount +ℤ u.wallet_balance
    → IsSound db'
Moves-IsSound id u b t db db' h found m cents owner moved = record { agrees = agrees' }
  where
    agrees' : (j : ℕ) (v : User) → find j db'.users ≡ some v → Agrees j v db'.wallet_transactions
    agrees' j v e = elim (Bool-cases (j == id)) [
      | inl same ↦
          let same_id = (==_iff j id).0 same in
          let same_user : v ≡ with_balance u b = cc (e, m.account, same_id) in
          rw (m.ledger, same_user, same_id)
            (Agrees-posted id u b t db.wallet_transactions (h.agrees id u found) cents owner moved)
      | inr other ↦
          let other_id : j ≢ id = ground arith in
          rw m.ledger (
            Agrees-other j v t db.wallet_transactions (h.agrees j v (sym (m.others j other_id) ∙ e))
              (λ p. other_id (sym p ∙ owner)))
    ]

-- A wallet call of a service, with its arguments.
pub data WalletCall : Type 0 where
  debit : (user_id : ℕ) (amount : Amount) (reference : Option ℕ) → WalletCall
  refund :
      (user_id : ℕ) (wallet_deducted credit_used_amount : Amount) (reference : Option ℕ)
      → WalletCall
  credit :
      (user_id : ℕ) (amount : Amount) (reference : Option ℕ) (source_type : Option SourceType)
      (source_id : Option ℕ) (source_key : Option Text)
      → WalletCall
  forced_debit : (user_id : ℕ) (amount : Amount) (reference : Option ℕ) → WalletCall

abbrev pub HasCents : WalletCall → Type 0
HasCents (debit id amount reference) = IsCents amount
HasCents (refund id w c reference) = IsCents w × IsCents c
HasCents (credit id amount reference st si key) = IsCents amount
HasCents (forced_debit id amount reference) = IsCents amount

-- A call inside a session, its result dropped: the state that it leaves.
abbrev pub attempt : {S E A : Type 0} → Exec S E A → S → S
attempt m s = (in_session true m s).1

module _ (round : Amount → Amount) where
  abbrev pub call : WalletCall → Db → Db
  call (debit id amount reference) = attempt (debit_wallet_atomic round id amount reference)
  call (refund id w c reference) = attempt (refund_wallet_atomic round id w c reference)
  call (credit id amount reference st si key) =
      attempt (credit_wallet_direct round id amount reference st si key)
  call (forced_debit id amount reference) = attempt (forced_debit_wallet id amount reference)

  -- Calls one after the other; a call that throws is dropped.
  abbrev pub run : List WalletCall → Db → Db
  run [] db = db
  run (c ∷ cs) db = run cs (call c db)

-- In a session a call throws and leaves the state, or returns with its own final state.
pub attempt_cases {ℓ} :
    {S E A : Type 0} (P : S → Type ℓ) (m : Exec S E A) (s : S)
    → P s
    → ((a : A) → (m s).0 ≡ ok a → P (m s).1)
    → P (attempt m s)
attempt_cases P m s before after = elim (Result-cases (m s).0) [
  | inl (a, e) ↦ rw (e, attempt, in_session) (after a e)
  | inr (x, e) ↦ rw (e, attempt, in_session) before
]

module _ (round : Amount → Amount) (keeps : KeepsCents round) where
  -- A wallet call in whole cents keeps the books, whether it returns or throws.
  pub call-IsSound :
      (c : WalletCall) (db : Db) → HasCents c → IsSound db → IsSound (call round c db)
  call-IsSound (debit id amount reference) db cents h =
      attempt_cases IsSound (debit_wallet_atomic round id amount reference) db h λ r e.
        let (u, found, active, positive, covered) = debit_only_if round id amount reference db e in
        let a = h.agrees id u found in
        let (_, m) =
          debit_charges round keeps id amount reference db u found a.fair active cents positive
            covered in
        Moves-IsSound id u _ _ db _ h found m
          (-ℤ-IsCents u.wallet_balance amount a.fair.cents cents) refl (omega int_laws)
  call-IsSound (refund id w c reference) db (hw, hc) h =
      attempt_cases IsSound (refund_wallet_atomic round id w c reference) db h λ t e.
        let (u, found, positive) = refund_only_if round id w c reference db e hw hc in
        let a = h.agrees id u found in
        let (_, m) = refund_pays round keeps id w c reference db u found a.fair hw hc positive in
        Moves-IsSound id u _ _ db _ h found m
          (+ℤ-IsCents u.wallet_balance (refund_total w c) a.fair.cents
            (refund_total-IsCents w c hw hc))
          refl (+ℤ_comm u.wallet_balance (refund_total w c))
  call-IsSound (credit id amount reference st si key) db cents h =
      attempt_cases IsSound (credit_wallet_direct round id amount reference st si key) db h λ t e.
        let (u, found, positive, free) = credit_only_if round id amount reference st si key db e in
        let a = h.agrees id u found in
        let (_, m) =
          credit_pays round keeps id amount reference st si key db u found a.fair cents positive
            free in
        Moves-IsSound id u _ _ db _ h found m
          (+ℤ-IsCents u.wallet_balance amount a.fair.cents cents) refl
          (+ℤ_comm u.wallet_balance amount)
  call-IsSound (forced_debit id amount reference) db cents h =
      attempt_cases IsSound (forced_debit_wallet id amount reference) db h λ t e.
        let (u, found, positive) = forced_debit_only_if id amount reference db e in
        let a = h.agrees id u found in
        let (_, m) = forced_debit_takes id amount reference db u found a.fair cents positive in
        Moves-IsSound id u _ _ db _ h found m
          (-ℤ-IsCents u.wallet_balance amount a.fair.cents cents) refl (omega int_laws)

  -- After any sequence of wallet calls in whole cents, each in a session of its own, every balance
  -- is the sum of its account's ledger entries and every credit mirror agrees with its balance, if
  -- that held before.
  pub run-IsSound :
      (calls : List WalletCall) (db : Db)
      → All HasCents calls
      → IsSound db
      → IsSound (run round calls db)
  run-IsSound [] db cents h = h
  run-IsSound (c ∷ cs) db (first, rest) h =
      run-IsSound cs (call round c db) rest (call-IsSound c db first h)
