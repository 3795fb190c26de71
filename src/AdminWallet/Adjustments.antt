-- ===== src/AdminWallet/Adjustments.antt =====
-- The adjustments of src/modules/admin/admin.wallet.service.js on an account that is there.
use kanz_coins_backend.Prelude.Tests.{if◌then◌else◌}
use kanz_coins_backend.Prelude.{ℕ, sym, ◌*◌, ◌≡◌, ◌≢◌, refl, false, Option, none, some, arith}
use kanz_coins_backend.Prelude.Int.{pos, ◌+ℤ◌, ◌-ℤ◌, ◌≤ℤ◌, abs, ltb_ℤ, -ℤ_parts, eq_of_parts}
use kanz_coins_backend.Prelude.Table.{find, modify}
use kanz_coins_backend.Prelude.Exec.{ok, err}
use kanz_coins_backend.Money.{Amount, or_zero, cent, safe_round, recalculate_credit_used}
use kanz_coins_backend.Money.Cents.{
  safe_round-eq, safe_round-IsCents, +ℤ-IsCents, -ℤ-IsCents, abs-IsCents,
}
use kanz_coins_backend.Errors.{validation_error}
use kanz_coins_backend.Db.{Db, User, TransactionType}
use kanz_coins_backend.Wallet.{create_transaction_record, entry}
use kanz_coins_backend.Wallet.Accounts.{IsFair, Moves, posted, posted-Moves}
use kanz_coins_backend.Wallet.Charges.{create_transaction_record_fits, cent-le}
use kanz_coins_backend.AdminWallet.{
  max_adjustment, is_out_of_range, write_adjustment, add_funds, deduct_funds, set_user_balance,
  direction,
}

abbrev pub adjusted : Amount → Amount → User → User
adjusted balance credit_used u = record u { wallet_balance = balance; credit_used = credit_used }

pub write_adjustment_posts :
    (id : ℕ) (type : TransactionType) (amount before after used : Amount) (db : Db)
    → pos cent ≤ℤ amount
    → let t = entry id type amount before after none in
      write_adjustment id type amount before after used db
      ≡ (ok t, posted id (adjusted after used) t db)
unfolding write_adjustment
write_adjustment_posts id type amount before after used db large =
    let t = entry id type amount before after none in
    let users = record db { users = modify id (adjusted after used) db.users } in
    ground (arith, create_transaction_record_fits t users large refl)

add_funds_runs :
    (id : ℕ) (amount : Amount) (db : Db) (u : User)
    → find id db.users ≡ some u
    → IsFair u
    → is_out_of_range (safe_round amount) ≡ false
    → let sum = u.wallet_balance +ℤ safe_round amount in
      add_funds id amount db
      ≡ write_adjustment id TransactionType.credit
          (safe_round amount)
          u.wallet_balance
          sum
          (recalculate_credit_used sum u.credit_limit)
          db
unfolding add_funds
add_funds_runs id amount db u found fair fits =
    let sum_cents =
      +ℤ-IsCents u.wallet_balance (safe_round amount) fair.cents (safe_round-IsCents amount) in
    ground (
      arith,
      found,
      fits,
      safe_round-eq u.wallet_balance fair.cents,
      safe_round-eq (u.wallet_balance +ℤ safe_round amount) sum_cents,
    )

-- Adding funds to a fair account, by an amount that rounds to something positive and at most the
-- limit of an adjustment: the balance grows by exactly the rounded amount with the mirror that goes
-- with it, one credit goes on the ledger, and nothing else changes.
pub add_funds_adds :
    (id : ℕ) (amount : Amount) (db : Db) (u : User)
    → find id db.users ≡ some u
    → IsFair u
    → is_out_of_range (safe_round amount) ≡ false
    → let sum = u.wallet_balance +ℤ safe_round amount in
      let t = entry id TransactionType.credit (safe_round amount) u.wallet_balance sum none in
      let (r, db') = add_funds id amount db in (r ≡ ok t) × Moves id u sum t db db'
add_funds_adds id amount db u found fair fits =
    let sum = u.wallet_balance +ℤ safe_round amount in
    let used = recalculate_credit_used sum u.credit_limit in
    let t = entry id TransactionType.credit (safe_round amount) u.wallet_balance sum none in
    let large = cent-le (safe_round amount) (safe_round-IsCents amount) (ground arith) in
    rw
      (
        add_funds_runs id amount db u found fair fits,
        write_adjustment_posts id TransactionType.credit (safe_round amount) u.wallet_balance sum
            used db large,
      )
      (refl, posted-Moves id (adjusted sum used) t db u sum found refl)

-- A limit enters the mirror only as its number.
mirror_of_limit :
    (b : Amount) (l : Option Amount)
    → recalculate_credit_used b (some (or_zero l)) ≡ recalculate_credit_used b l
unfolding recalculate_credit_used
mirror_of_limit b none = refl
mirror_of_limit b (some l) = refl

pub limit_kept :
    (u : User) → IsFair u → safe_round (abs (or_zero u.credit_limit)) ≡ or_zero u.credit_limit
unfolding abs
limit_kept u fair =
    ground (arith, fair.limit_nonneg, safe_round-eq (or_zero u.credit_limit) fair.limit_cents)

deduct_funds_runs :
    (id : ℕ) (amount : Amount) (db : Db) (u : User)
    → find id db.users ≡ some u
    → IsFair u
    → is_out_of_range (safe_round amount) ≡ false
    → safe_round amount ≤ℤ u.wallet_balance +ℤ or_zero u.credit_limit
    → let rest = u.wallet_balance -ℤ safe_round amount in
      deduct_funds id amount db
      ≡ write_adjustment id TransactionType.debit
          (safe_round amount)
          u.wallet_balance
          rest
          (recalculate_credit_used rest u.credit_limit)
          db
unfolding deduct_funds
deduct_funds_runs id amount db u found fair fits covered =
    let limit = or_zero u.credit_limit in
    let rest = u.wallet_balance -ℤ safe_round amount in
    ground (
      arith,
      found,
      fits,
      covered,
      limit_kept u fair,
      safe_round-eq u.wallet_balance fair.cents,
      safe_round-eq (u.wallet_balance +ℤ limit)
          (+ℤ-IsCents u.wallet_balance limit fair.cents fair.limit_cents),
      safe_round-eq rest
          (-ℤ-IsCents u.wallet_balance (safe_round amount) fair.cents (safe_round-IsCents amount)),
      mirror_of_limit rest u.credit_limit,
    )

-- Deducting from a fair account an amount that rounds to something positive, at most the limit of
-- an adjustment, and covered by the balance and the credit line: the balance shrinks by exactly the
-- rounded amount with the mirror that goes with it, one debit goes on the ledger, and nothing else
-- changes.
pub deduct_funds_takes :
    (id : ℕ) (amount : Amount) (db : Db) (u : User)
    → find id db.users ≡ some u
    → IsFair u
    → is_out_of_range (safe_round amount) ≡ false
    → safe_round amount ≤ℤ u.wallet_balance +ℤ or_zero u.credit_limit
    → let rest = u.wallet_balance -ℤ safe_round amount in
      let t = entry id TransactionType.debit (safe_round amount) u.wallet_balance rest none in
      let (r, db') = deduct_funds id amount db in (r ≡ ok t) × Moves id u rest t db db'
deduct_funds_takes id amount db u found fair fits covered =
    let rest = u.wallet_balance -ℤ safe_round amount in
    let used = recalculate_credit_used rest u.credit_limit in
    let t = entry id TransactionType.debit (safe_round amount) u.wallet_balance rest none in
    let large = cent-le (safe_round amount) (safe_round-IsCents amount) (ground arith) in
    rw
      (
        deduct_funds_runs id amount db u found fair fits covered,
        write_adjustment_posts id TransactionType.debit (safe_round amount) u.wallet_balance rest
            used db large,
      )
      (refl, posted-Moves id (adjusted rest used) t db u rest found refl)

abs_positive : (a b : Amount) → a ≢ b → pos 1 ≤ℤ abs (a -ℤ b)
unfolding abs
abs_positive a b other = ground (arith, -ℤ_parts a b, eq_of_parts a b, other)

pub sub_self : (a : Amount) → abs (a -ℤ a) ≡ pos 0
unfolding abs
sub_self a = ground (arith, -ℤ_parts a a)

pub set_user_balance_runs :
    (id : ℕ) (target : Amount) (db : Db) (u : User)
    → find id db.users ≡ some u
    → IsFair u
    → ltb_ℤ (pos (max_adjustment * 10)) (abs (safe_round target)) ≡ false
    → let delta = safe_round target -ℤ u.wallet_balance in
      set_user_balance id target db
      ≡ write_adjustment id
          (direction delta)
          (abs delta)
          u.wallet_balance
          (safe_round target)
          (recalculate_credit_used (safe_round target) u.credit_limit)
          db
unfolding set_user_balance
set_user_balance_runs id target db u found fair fits =
    let delta = safe_round target -ℤ u.wallet_balance in
    let delta_cents =
      -ℤ-IsCents (safe_round target) u.wallet_balance (safe_round-IsCents target) fair.cents in
    ground (
      arith,
      found,
      fits,
      safe_round-eq u.wallet_balance fair.cents,
      safe_round-eq delta delta_cents,
      safe_round-eq (abs delta) (abs-IsCents delta delta_cents),
    )

pub direction-eq :
    (a b : Amount)
    → a ≢ b
    → direction (b -ℤ a) ≡ (if ltb_ℤ a b then TransactionType.credit else TransactionType.debit)
direction-eq a b other = ground (arith, -ℤ_parts b a, eq_of_parts a b, other)

-- Setting the balance of a fair account to a target within the limit that rounds to another balance:
-- the balance is the rounded target with the mirror that goes with it, the ledger gets one entry for
-- the difference, a credit if the rounded target is above the balance and a debit if it is below, and
-- nothing else changes.
pub set_user_balance_sets :
    (id : ℕ) (target : Amount) (db : Db) (u : User)
    → find id db.users ≡ some u
    → IsFair u
    → ltb_ℤ (pos (max_adjustment * 10)) (abs (safe_round target)) ≡ false
    → safe_round target ≢ u.wallet_balance
    → let delta = safe_round target -ℤ u.wallet_balance in
      let type =
        if ltb_ℤ u.wallet_balance (safe_round target)
        then TransactionType.credit
        else TransactionType.debit in
      let t = entry id type (abs delta) u.wallet_balance (safe_round target) none in
      let (r, db') = set_user_balance id target db in
      (r ≡ ok t) × Moves id u (safe_round target) t db db'
set_user_balance_sets id target db u found fair fits other =
    let b = safe_round target in
    let delta = b -ℤ u.wallet_balance in
    let used = recalculate_credit_used b u.credit_limit in
    let type = if ltb_ℤ u.wallet_balance b then TransactionType.credit else TransactionType.debit in
    let t = entry id type (abs delta) u.wallet_balance b none in
    let delta_cents = -ℤ-IsCents b u.wallet_balance (safe_round-IsCents target) fair.cents in
    let large =
      cent-le (abs delta) (abs-IsCents delta delta_cents) (abs_positive b u.wallet_balance other) in
    rw
      (
        set_user_balance_runs id target db u found fair fits,
        direction-eq u.wallet_balance b (λ e. other (sym e)),
        write_adjustment_posts id type (abs delta) u.wallet_balance b used db large,
      )
      (refl, posted-Moves id (adjusted b used) t db u b found refl)

-- Setting the balance of a fair account to what it is: the ledger refuses an entry of 0, and the call
-- throws.
pub set_same_balance_throws :
    (id : ℕ) (target : Amount) (db : Db) (u : User)
    → find id db.users ≡ some u
    → IsFair u
    → ltb_ℤ (pos (max_adjustment * 10)) (abs (safe_round target)) ≡ false
    → safe_round target ≡ u.wallet_balance
    → (set_user_balance id target db).0 ≡ err validation_error
unfolding write_adjustment create_transaction_record
set_same_balance_throws id target db u found fair fits same =
    let zero_delta = sub_self u.wallet_balance in
    rw (set_user_balance_runs id target db u found fair fits, same) (ground (arith, zero_delta))
