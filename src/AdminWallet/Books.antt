-- ===== src/AdminWallet/Books.antt =====
-- The books over any sequence of the adjustments of src/modules/admin/admin.wallet.service.js, one
-- after the other.
use kanz_coins_backend.Prelude.{
  ℕ, ◌*◌, ◌≡◌, ◌⊎◌, inl, inr, refl, sym, ◌∙◌, true, false, none, some, List, [], ◌∷◌, arith, ◌≢◌,
}
use kanz_coins_backend.Prelude.Int.{
  ℤ, ℤ-cases, negsuc, sub_add_cancel, pos, ◌+ℤ◌, ◌-ℤ◌, abs, leb_ℤ, ltb_ℤ, +ℤ_comm, int_laws,
}
use kanz_coins_backend.Prelude.Tests.{◌==◌, ==_iff, Bool-cases, Option-cases, if◌then◌else◌}
use kanz_coins_backend.Prelude.Table.{find, modify, find-modify_self, find-modify_ne}
use kanz_coins_backend.Money.{Amount, or_zero, safe_round, recalculate_credit_used}
use kanz_coins_backend.Money.Cents.{safe_round-eq, safe_round-IsCents, +ℤ-IsCents, -ℤ-IsCents}
use kanz_coins_backend.Db.{Db, User, TransactionType}
use kanz_coins_backend.Wallet.{create_transaction_record}
use kanz_coins_backend.Wallet.Accounts.{IsFair}
use kanz_coins_backend.Wallet.Books.{IsSound, Moves-IsSound, signed}
use kanz_coins_backend.AdminWallet.{
  max_adjustment, is_out_of_range, write_adjustment, add_funds, deduct_funds, set_user_balance,
  direction,
}
use kanz_coins_backend.AdminWallet.Adjustments.{
  direction-eq, adjusted, add_funds_adds, deduct_funds_takes, set_user_balance_sets,
  set_user_balance_runs, sub_self, limit_kept,
}

add_funds_idle :
    (id : ℕ) (amount : Amount) (db : Db)
    → (is_out_of_range (safe_round amount) ≡ true) ⊎ (find id db.users ≡ none)
    → (add_funds id amount db).1 ≡ db
unfolding add_funds
add_funds_idle id amount db cause = ground (arith, cause)

deduct_funds_idle :
    (id : ℕ) (amount : Amount) (db : Db)
    → (is_out_of_range (safe_round amount) ≡ true) ⊎ (find id db.users ≡ none)
    → (deduct_funds id amount db).1 ≡ db
unfolding deduct_funds
deduct_funds_idle id amount db cause = ground (arith, cause)

add_funds-IsSound :
    (id : ℕ) (amount : Amount) (db : Db) → IsSound db → IsSound (add_funds id amount db).1
add_funds-IsSound id amount db h = elim (Bool-cases (is_out_of_range (safe_round amount))) [
  | inl out ↦ rw (add_funds_idle id amount db (inl out)) h
  | inr fits ↦ elim (Option-cases (find id db.users)) [
    | inl missing ↦ rw (add_funds_idle id amount db (inr missing)) h
    | inr (u, found) ↦
        let fair = (h.agrees id u found).fair in
        let (_, m) = add_funds_adds id amount db u found fair fits in
        Moves-IsSound id u _ _ db _ h found m
          (+ℤ-IsCents u.wallet_balance (safe_round amount) fair.cents (safe_round-IsCents amount))
          refl (+ℤ_comm u.wallet_balance (safe_round amount))
  ]
]

deduct_funds_uncovered :
    (id : ℕ) (amount : Amount) (db : Db) (u : User)
    → find id db.users ≡ some u
    → IsFair u
    → is_out_of_range (safe_round amount) ≡ false
    → leb_ℤ (safe_round amount) (u.wallet_balance +ℤ or_zero u.credit_limit) ≡ false
    → (deduct_funds id amount db).1 ≡ db
unfolding deduct_funds
deduct_funds_uncovered id amount db u found fair fits uncovered =
    let limit = or_zero u.credit_limit in
    ground (
      arith,
      found,
      fits,
      uncovered,
      limit_kept u fair,
      safe_round-eq u.wallet_balance fair.cents,
      safe_round-eq (u.wallet_balance +ℤ limit)
          (+ℤ-IsCents u.wallet_balance limit fair.cents fair.limit_cents),
    )

deduct_funds-IsSound :
    (id : ℕ) (amount : Amount) (db : Db) → IsSound db → IsSound (deduct_funds id amount db).1
deduct_funds-IsSound id amount db h = elim (Bool-cases (is_out_of_range (safe_round amount))) [
  | inl out ↦ rw (deduct_funds_idle id amount db (inl out)) h
  | inr fits ↦ elim (Option-cases (find id db.users)) [
    | inl missing ↦ rw (deduct_funds_idle id amount db (inr missing)) h
    | inr (u, found) ↦
        let fair = (h.agrees id u found).fair in
        elim (Bool-cases (leb_ℤ (safe_round amount) (u.wallet_balance +ℤ or_zero u.credit_limit))) [
          | inl covered ↦
              let (_, m) = deduct_funds_takes id amount db u found fair fits (ground arith) in
              Moves-IsSound id u _ _ db _ h found m
                (-ℤ-IsCents u.wallet_balance (safe_round amount) fair.cents
                  (safe_round-IsCents amount))
                refl (omega int_laws)
          | inr uncovered ↦ rw (deduct_funds_uncovered id amount db u found fair fits uncovered) h
        ]
  ]
]

set_user_balance_idle :
    (id : ℕ) (target : Amount) (db : Db)
    → (ltb_ℤ (pos (max_adjustment * 10)) (abs (safe_round target)) ≡ true)
      ⊎ (find id db.users ≡ none)
    → (set_user_balance id target db).1 ≡ db
unfolding set_user_balance
set_user_balance_idle id target db cause = ground (arith, cause)

-- A write that leaves the account as it was.
same-IsSound :
    (id : ℕ) (f : User → User) (db : Db) (u : User)
    → IsSound db
    → find id db.users ≡ some u
    → f u ≡ u
    → IsSound (record db { users = modify id f db.users })
same-IsSound id f db u h found same = record {
  agrees = λ j v e. elim (Bool-cases (j == id)) [
    | inl here ↦
        let same_id = (==_iff j id).0 here in
        let same_user : v ≡ u = cc (e, same_id, find-modify_self id f db.users found, same) in
        rw (same_user, same_id) (h.agrees id u found)
    | inr other ↦ h.agrees j v (sym (find-modify_ne j id f db.users (ground arith)) ∙ e)
  ];
}

set_same_balance :
    (id : ℕ) (target : Amount) (db : Db) (u : User)
    → find id db.users ≡ some u
    → IsFair u
    → ltb_ℤ (pos (max_adjustment * 10)) (abs (safe_round target)) ≡ false
    → safe_round target ≡ u.wallet_balance
    → (set_user_balance id target db).1 ≡ record db {
      users =
          modify id
            (adjusted u.wallet_balance (recalculate_credit_used u.wallet_balance u.credit_limit))
            db.users;
    }
unfolding write_adjustment create_transaction_record
set_same_balance id target db u found fair fits same =
    let no_delta = sub_self u.wallet_balance in
    rw (set_user_balance_runs id target db u found fair fits, same) (ground (arith, no_delta))

-- The signed difference of the two directions.
signed-abs : (d : ℤ) → signed (direction d) (abs d) ≡ d
unfolding abs ◌-ℤ◌
signed-abs (pos n) = ground arith
signed-abs (negsuc n) = ground arith

directed :
    (a b : Amount)
    → a ≢ b
    → a
      ≡ signed (if ltb_ℤ b a then TransactionType.credit else TransactionType.debit) (abs (a -ℤ b))
        +ℤ b
directed a b other =
    rw (← direction-eq b a (λ e. other (sym e)), signed-abs (a -ℤ b)) (sym (sub_add_cancel a b))

set_user_balance-IsSound :
    (id : ℕ) (target : Amount) (db : Db) → IsSound db → IsSound (set_user_balance id target db).1
set_user_balance-IsSound id target db h =
    elim (Bool-cases (ltb_ℤ (pos (max_adjustment * 10)) (abs (safe_round target)))) [
      | inl out ↦ rw (set_user_balance_idle id target db (inl out)) h
      | inr fits ↦ elim (Option-cases (find id db.users)) [
        | inl missing ↦ rw (set_user_balance_idle id target db (inr missing)) h
        | inr (u, found) ↦
            let fair = (h.agrees id u found).fair in
            let b = safe_round target in
            elim (ℤ-cases b u.wallet_balance) [
              | inl same ↦
                  rw (set_same_balance id target db u found fair fits same)
                    (same-IsSound id _ db u h found (cc fair.mirror))
              | inr other ↦
                  let (_, m) = set_user_balance_sets id target db u found fair fits other in
                  Moves-IsSound id u _ _ db _ h found m (safe_round-IsCents target) refl
                    (directed b u.wallet_balance other)
            ]
      ]
    ]

-- A manual adjustment.
pub data Adjustment : Type 0 where
  add : (user_id : ℕ) (amount : Amount) → Adjustment
  deduct : (user_id : ℕ) (amount : Amount) → Adjustment
  set : (user_id : ℕ) (target_balance : Amount) → Adjustment

abbrev pub adjust : Adjustment → Db → Db
adjust (add id amount) db = (add_funds id amount db).1
adjust (deduct id amount) db = (deduct_funds id amount db).1
adjust (set id target) db = (set_user_balance id target db).1

abbrev pub adjust_all : List Adjustment → Db → Db
adjust_all [] db = db
adjust_all (a ∷ adjustments) db = adjust_all adjustments (adjust a db)

adjust-IsSound : (a : Adjustment) (db : Db) → IsSound db → IsSound (adjust a db)
adjust-IsSound (add id amount) db h = add_funds-IsSound id amount db h
adjust-IsSound (deduct id amount) db h = deduct_funds-IsSound id amount db h
adjust-IsSound (set id target) db h = set_user_balance-IsSound id target db h

-- After any sequence of manual adjustments by any amounts, one after the other and without sessions,
-- every balance is the sum of its account's ledger entries and every credit mirror agrees with its
-- balance, whether the calls return or throw, if that held before.
pub adjust_all-IsSound :
    (adjustments : List Adjustment) (db : Db) → IsSound db → IsSound (adjust_all adjustments db)
adjust_all-IsSound [] db h = h
adjust_all-IsSound (a ∷ adjustments) db h =
    adjust_all-IsSound adjustments (adjust a db) (adjust-IsSound a db h)
