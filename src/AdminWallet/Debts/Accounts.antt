-- ===== src/AdminWallet/Debts/Accounts.antt =====
-- What the bulk adjustments of src/modules/admin/admin.wallet.service.js do to each account.
use kanz_coins_backend.Prelude.{
  ℕ, Bool, false, Option, none, some, [], ◌∷◌, ◌≡◌, refl, ◌∙◌, inl, inr, arith,
}
use kanz_coins_backend.Prelude.Int.{pos_part}
use kanz_coins_backend.Prelude.Tests.{if◌then◌else◌, ◌==◌, Bool-cases}
use kanz_coins_backend.Prelude.Text.{Text}
use kanz_coins_backend.Prelude.Lists.{length}
use kanz_coins_backend.Prelude.Table.{Table, find, find-modify_self, find-modify_ne}
use kanz_coins_backend.Prelude.Query.{HasUniqueIds, select_rows}
use kanz_coins_backend.Prelude.Exec.{ok}
use kanz_coins_backend.Money.{Amount, safe_round, recalculate_credit_used}
use kanz_coins_backend.Db.{Db, User, WalletTransaction, TransactionType}
use kanz_coins_backend.Wallet.{entry}
use kanz_coins_backend.Wallet.Accounts.{posted, with_balance}
use kanz_coins_backend.AdminWallet.Adjustments.{adjusted, write_adjustment_posts}
use kanz_coins_backend.AdminWallet.Debts.{
  Course, Report, count_adjustment, debt_share, balance_after, is_debtor, is_negligible,
  adjust_debtor, adjust_each, no_report, is_no_percentage, adjust_negative_balances,
}

-- The account after its turn.
abbrev pub adjusted_account : Course → ℕ → User → User
adjusted_account course percent u =
    if is_negligible percent u
    then u
    else with_balance u (balance_after course percent (safe_round u.wallet_balance))

module _ (course : Course) (percent : ℕ) where
  abbrev debt_entry : ℕ → User → WalletTransaction
  debt_entry id u =
      let before = safe_round u.wallet_balance in
      entry id TransactionType.debt_adjustment (debt_share percent before) before
        (balance_after course percent before) none

  -- The database after one debtor's turn, and after those of all.
  abbrev settle_one : ℕ → User → Db → Db
  settle_one id u db =
      let after = balance_after course percent (safe_round u.wallet_balance) in
      if is_negligible percent u
      then db
      else posted id (adjusted after (recalculate_credit_used after u.credit_limit))
          (debt_entry id u) db

  abbrev settle : Table User → Db → Db
  settle [] db = db
  settle ((id, u) ∷ rows) db = settle rows (settle_one id u db)

  debtor_settles :
      (id : ℕ) (u : User) (report : Report) (db : Db)
      → (next : Report) × (adjust_debtor course percent id u report db
          ≡ (ok next, settle_one id u db))
        × (next.errors ≡ report.errors)
  unfolding adjust_debtor
  debtor_settles id u report db = elim (Bool-cases (is_negligible percent u)) [
    | inl small ↦ (report, rw small refl, refl)
    | inr large ↦
        let before = safe_round u.wallet_balance in
        let after = balance_after course percent before in
        let posts =
          write_adjustment_posts id TransactionType.debt_adjustment (debt_share percent before)
            before after (recalculate_credit_used after u.credit_limit) db (ground arith) in
        (count_adjustment (debt_share percent before) report, ground (arith, large, posts), refl)
  ]

  each_settles :
      (rows : Table User) (report : Report) (db : Db)
      → (next : Report) × (adjust_each course percent rows report db ≡ (ok next, settle rows db))
        × (next.errors ≡ report.errors)
  unfolding adjust_each
  each_settles [] report db = (report, refl, refl)
  each_settles ((id, u) ∷ rows) report db =
      let (one, settled, clean) = debtor_settles id u report db in
      let (next, rest, clean') = each_settles rows one (settle_one id u db) in
      (next, ground (arith, settled, rest), clean' ∙ clean)

  settle_one-other :
      (j id : ℕ) (u : User) (db : Db)
      → (j == id) ≡ false
      → find j (settle_one id u db).users ≡ find j db.users
  settle_one-other j id u db other = elim (Bool-cases (is_negligible percent u)) [
    | inl small ↦ rw small refl
    | inr large ↦ rw large (find-modify_ne j id _ db.users (ground arith))
  ]

  settle_one_self :
      (id : ℕ) (u : User) (db : Db)
      → find id db.users ≡ some u
      → find id (settle_one id u db).users ≡ some (adjusted_account course percent u)
  settle_one_self id u db found = elim (Bool-cases (is_negligible percent u)) [
    | inl small ↦ rw small found
    | inr large ↦ rw large (find-modify_self id _ db.users found)
  ]

  settle-other :
      (j : ℕ) (rows : Table User) (db : Db)
      → find j rows ≡ none
      → find j (settle rows db).users ≡ find j db.users
  unfolding find
  settle-other j [] db h = refl
  settle-other j ((id, u) ∷ rows) db h = elim (Bool-cases (j == id)) [
    | inl same ↦ absurd (ground (arith, same, h))
    | inr other ↦
        settle-other j rows (settle_one id u db) (ground (arith, other, h))
        ∙ settle_one-other j id u db other
  ]

  settle_self :
      (j : ℕ) (v : User) (rows : Table User) (db : Db)
      → HasUniqueIds rows
      → find j rows ≡ some v
      → find j db.users ≡ some v
      → find j (settle rows db).users ≡ some (adjusted_account course percent v)
  unfolding find
  settle_self j v [] db unique listed found = absurd (cc listed)
  settle_self j v ((id, u) ∷ rows) db unique listed found = elim (Bool-cases (j == id)) [
    | inr other ↦
        settle_self j v rows (settle_one id u db) unique.1 (ground (arith, other, listed))
          (settle_one-other j id u db other ∙ found)
    | inl same ↦
        let id_is : j ≡ id = ground arith in
        let row_is : u ≡ v = ground (arith, same, listed) in
        rw (id_is) (
          settle-other id rows (settle_one id u db) unique.0
          ∙ rw row_is (settle_one_self id v db (rw (← id_is) found)))
  ]

module _ (test : User → Bool) where
  selected : (j : ℕ) (t : Table User) → find j t ≡ none → find j (select_rows (λ _. test) t) ≡ none
  unfolding find select_rows
  selected j [] h = refl
  selected j ((i, u) ∷ t) h = elim (Bool-cases (j == i)) [
    | inl same ↦ absurd (ground (arith, same, h))
    | inr other ↦
        let rest = selected j t (ground (arith, other, h)) in
        elim (Bool-cases (test u)) [
          | inl passes ↦ rw (passes, other) rest
          | inr fails ↦ rw fails rest
        ]
  ]

  selected-HasUniqueIds :
      (t : Table User) → HasUniqueIds t → HasUniqueIds (select_rows (λ _. test) t)
  unfolding select_rows
  selected-HasUniqueIds [] h = tt
  selected-HasUniqueIds ((i, u) ∷ t) h =
      let rest = selected-HasUniqueIds t h.1 in
      elim (Bool-cases (test u)) [
        | inl passes ↦ rw passes (selected i t h.0, rest)
        | inr fails ↦ rw fails rest
      ]

  selected_row :
      (j : ℕ) (v : User) (t : Table User)
      → HasUniqueIds t
      → find j t ≡ some v
      → find j (select_rows (λ _. test) t) ≡ (if test v then some v else none)
  unfolding find select_rows
  selected_row j v [] unique h = absurd (cc h)
  selected_row j v ((i, u) ∷ t) unique h = elim (Bool-cases (j == i)) [
    | inr other ↦
        let rest = selected_row j v t unique.1 (ground (arith, other, h)) in
        elim (Bool-cases (test u)) [
          | inl passes ↦ rw (passes, other) rest
          | inr fails ↦ rw fails rest
        ]
    | inl same ↦
        let row_is : u ≡ v = ground (arith, same, h) in
        let id_is : j ≡ i = ground arith in
        elim (Bool-cases (test v)) [
          | inl passes ↦ ground (arith, row_is, passes, same)
          | inr fails ↦
              let gone = selected i t unique.0 in ground (arith, row_is, fails, id_is, gone)
        ]
  ]

-- Where ids are unique, a bulk adjustment by a percentage in range, with no other writer between its
-- reads and its writes, goes through without errors and does to every account what its own row says:
-- a debtor of the currency whose share is at least a cent gets the balance that its debt grows or
-- shrinks to, with the mirror that goes with it, and every other account stays as it was.
pub adjusts_each_debt :
    (course : Course) (percent : Amount) (code : Option Text) (db : Db) (id : ℕ) (u : User)
    → is_no_percentage percent ≡ false
    → HasUniqueIds db.users
    → find id db.users ≡ some u
    → let (result, db') = adjust_negative_balances course percent code db in
      (report : Report) × (result ≡ ok report)
      × (report.errors ≡ [])
      × (find id db'.users
          ≡ some (if is_debtor code u then adjusted_account course (pos_part percent) u else u))
unfolding adjust_negative_balances
adjusts_each_debt course percent code db id u fits unique found =
    let rows = select_rows (λ _. is_debtor code) db.users in
    let (report, runs, clean) =
      each_settles course (pos_part percent) rows (no_report (length rows)) db in
    let row = selected_row (is_debtor code) id u db.users unique found in
    let account : find id (settle course (pos_part percent) rows db).users
        ≡ some (if is_debtor code u then adjusted_account course (pos_part percent) u else u) =
      elim (Bool-cases (is_debtor code u)) [
        | inl owes ↦ rw owes (
            settle_self course (pos_part percent) id u rows db
              (selected-HasUniqueIds (is_debtor code) db.users unique) (row ∙ rw owes refl) found)
        | inr free ↦
            rw free (settle-other course (pos_part percent) id rows db (row ∙ rw free refl) ∙ found)
      ] in
    (report, rw (fits, runs) refl, clean, rw (fits, runs) account)
