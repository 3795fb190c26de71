-- ===== src/AdminWallet/Debts.antt =====
-- The bulk adjustments of debts of src/modules/admin/admin.wallet.service.js:
-- adjustNegativeBalancesForInflation makes every debt larger by a percentage,
-- adjustNegativeBalancesForDeflation makes it smaller. The debtors are read once and written one
-- after the other. Percentages count millionths.
pub mod Accounts
pub mod Relief
mod Tests
use kanz_coins_backend.Prelude.{
  ℕ, ◌+◌, ◌*◌, ◌/◌, Bool, true, false, ◌&&◌, ◌||◌, Option, none, some, List, [], ◌∷◌,
}
use kanz_coins_backend.Prelude.Int.{pos, pos_part, ◌+ℤ◌, ◌-ℤ◌, abs, leb_ℤ, ltb_ℤ}
use kanz_coins_backend.Prelude.Tests.{if◌then◌else◌, ltb, leb}
use kanz_coins_backend.Prelude.Lists.{length}
use kanz_coins_backend.Prelude.Text.{Text, same_text, to_upper_case}
use kanz_coins_backend.Prelude.Table.{Table}
use kanz_coins_backend.Prelude.Query.{select_rows}
use kanz_coins_backend.Prelude.Exec.{
  Exec, Result, ok, err, pure, throw, gets, throw_if, catch, ◌>>=◌, ◌>>◌,
}
use kanz_coins_backend.Money.{Amount, cent, unit, safe_round, recalculate_credit_used}
use kanz_coins_backend.Errors.{Error, invalid_percentage}
use kanz_coins_backend.Db.{Db, User, TransactionType}
use kanz_coins_backend.AdminWallet.{write_adjustment}

pub data Course : Type 0 where
  inflation deflation : Course

-- `safeRound(Math.abs(balanceBefore) * multiplier)`, of a product that is exact
unfoldable pub debt_share : ℕ → Amount → Amount
unfolding abs
debt_share percent balance_before =
    let product = pos_part (abs balance_before) * percent in
    let step = 100 * unit * cent in pos ((2 * product + step) / (2 * step) * cent)

-- A debt grows or shrinks by its share.
unfoldable pub balance_after : Course → ℕ → Amount → Amount
balance_after inflation percent before = safe_round (before -ℤ debt_share percent before)
balance_after deflation percent before = safe_round (before +ℤ debt_share percent before)

-- `currencyCode` filters if it is given.
abbrev has_currency : Option Text → Option Text → Bool
has_currency none currency = true
has_currency (some []) currency = true
has_currency (some code) none = false
has_currency (some code) (some currency) = same_text currency (to_upper_case code)

abbrev is_there : Option ℕ → Bool
is_there none = true
is_there (some date) = false

-- `{ walletBalance: { $lt: 0 }, deletedAt: null }`
abbrev pub is_debtor : Option Text → User → Bool
is_debtor code u =
    ltb_ℤ u.wallet_balance (pos 0) && is_there u.deleted_at && has_currency code u.currency

pub record Report : Type 0 where
  pub users_adjusted : ℕ
  pub total_adjustment : Amount
  pub total_users_in_debt : ℕ
  pub errors : List ℕ

abbrev pub is_negligible : ℕ → User → Bool
is_negligible percent u = ltb_ℤ (debt_share percent (safe_round u.wallet_balance)) (pos cent)

abbrev pub count_adjustment : Amount → Report → Report
count_adjustment adjustment report = record report {
  users_adjusted = report.users_adjusted + 1;
  total_adjustment = safe_round (report.total_adjustment +ℤ adjustment);
}

-- The body of the loop for one debtor, from the document that was read.
unfoldable pub adjust_debtor : Course → ℕ → ℕ → User → Report → Exec Db Error Report
adjust_debtor course percent id u report = do
  let before = safe_round u.wallet_balance
  let adjustment = debt_share percent before
  let after = balance_after course percent before
  if is_negligible percent u then pure report else (do
    write_adjustment id TransactionType.debt_adjustment adjustment before after
        (recalculate_credit_used after u.credit_limit)
    pure (count_adjustment adjustment report))

abbrev note_error : ℕ → Report → Exec Db Error Report
note_error id report = pure (record report { errors = id ∷ report.errors })

-- The loop. Its errors are noted newest first.
unfoldable pub adjust_each : Course → ℕ → Table User → Report → Exec Db Error Report
adjust_each course percent [] report = pure report
adjust_each course percent ((id, u) ∷ rows) report = do
  next ← catch (adjust_debtor course percent id u report) (λ e. note_error id report)
  adjust_each course percent rows next

abbrev pub no_report : ℕ → Report
no_report debtors = record {
  users_adjusted = 0;
  total_adjustment = pos 0;
  total_users_in_debt = debtors;
  errors = [];
}

abbrev pub is_no_percentage : Amount → Bool
is_no_percentage percent = leb_ℤ percent (pos 0) || ltb_ℤ (pos (100 * unit)) percent

-- The two functions, which differ in `balance_after` alone.
unfoldable pub adjust_negative_balances : Course → Amount → Option Text → Exec Db Error Report
adjust_negative_balances course percent code = do
  throw_if (is_no_percentage percent) invalid_percentage
  debtors ← gets (λ (db : Db). select_rows (λ _. is_debtor code) db.users)
  adjust_each course (pos_part percent) debtors (no_report (length debtors))

-- `adjustNegativeBalancesForInflation`
abbrev adjust_for_inflation : Amount → Option Text → Exec Db Error Report
adjust_for_inflation = adjust_negative_balances Course.inflation

-- `adjustNegativeBalancesForDeflation`
abbrev adjust_for_deflation : Amount → Option Text → Exec Db Error Report
adjust_for_deflation = adjust_negative_balances Course.deflation
