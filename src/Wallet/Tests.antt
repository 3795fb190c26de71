-- ===== src/Wallet/Tests.antt =====
-- Test runs of the wallet's operations, and each property of the wallet at a concrete account.
use kanz_coins_backend.Prelude.{
  ℕ, ◌≡◌, refl, false, none, some, List, [], ◌∷◌, ◌⊎◌, inl, inr, arith,
}
use kanz_coins_backend.Prelude.Int.{pos, negsuc, ◌+ℤ◌, ◌-ℤ◌, ◌≤ℤ◌, min_ℤ, max_ℤ, abs, floor_div}
use kanz_coins_backend.Prelude.Lists.{All}
use kanz_coins_backend.Prelude.Text.{codes}
use kanz_coins_backend.Prelude.Table.{find, modify}
use kanz_coins_backend.Prelude.Exec.{ok, err}
use kanz_coins_backend.Money.{safe_round, recalculate_credit_used, scale, or_zero}
use kanz_coins_backend.Money.Cents.{IsCents, safe_round-eq}
use kanz_coins_backend.Errors.{account_inactive, insufficient_funds, duplicate_key}
use kanz_coins_backend.Db.{Db, User, UserStatus, SourceType, TransactionType}
use kanz_coins_backend.Wallet.{
  debit_wallet_atomic, refund_wallet_atomic, credit_wallet_direct, forced_debit_wallet,
  forced_debit_read, forced_debit_write, debit_record, debit_refused, create_transaction_record,
  find_user_and_update, set_balance, credit_used_expression, key_taken, entry,
}
use kanz_coins_backend.Wallet.Database.{KeepsCents}
use kanz_coins_backend.Wallet.Accounts.{IsFair, Moves, with_balance}
use kanz_coins_backend.Wallet.Charges.{debit_charges, debit_entry, refund_entry, credit_drawn}
use kanz_coins_backend.Wallet.Credits.{refund_pays, credit_pays, credit_entry, forced_debit_takes}
use kanz_coins_backend.Wallet.Refusals.{debit_refuses, refusal, passes}
use kanz_coins_backend.Wallet.RoundTrip.{refund-debit}
use kanz_coins_backend.Wallet.Races.{forced_debit_loses_credit}
use kanz_coins_backend.Wallet.Books.{WalletCall, HasCents, IsSound, Agrees, run, run-IsSound}
use kanz_coins_backend.Wallet.Limits.{AllWithin, run-AllWithin}

-- An account with 100.00 and a credit line of 50.00, and a suspended one.
abbrev alice : User
alice = record {
  status = UserStatus.active;
  wallet_balance = pos 100000000;
  credit_limit = some (pos 50000000);
  credit_used = pos 0;
  group_id = none;
  quantity_limit = pos 0;
  quantity_used = pos 0;
  currency = none;
  deleted_at = none;
  referred_by = none;
  referred_at = none;
  referral_eligible_until = none;
  referral_commission_percent_override = none;
  referral_commission_stopped_at = none;
}

abbrev bob : User
bob = record {
  status = UserStatus.rejected;
  wallet_balance = pos 0;
  credit_limit = none;
  credit_used = pos 0;
  group_id = none;
  quantity_limit = pos 0;
  quantity_used = pos 0;
  currency = none;
  deleted_at = none;
  referred_by = none;
  referred_at = none;
  referral_eligible_until = none;
  referral_commission_percent_override = none;
  referral_commission_stopped_at = none;
}

abbrev shop : Db
shop = record {
  users = (7, alice) ∷ (8, bob) ∷ [];
  groups = [];
  orders = [];
  wallet_transactions =
      entry 7 TransactionType.credit (pos 100000000) (pos 0) (pos 100000000) none ∷ [];
}

debit_into_credit :
    (find 7 (debit_wallet_atomic safe_round 7 (pos 120000000) none shop).1.users)
    ≡ some (record alice { wallet_balance = negsuc 19999999; credit_used = pos 20000000 })
unfolding debit_wallet_atomic debit_record create_transaction_record find_user_and_update find
    modify set_balance credit_used_expression safe_round scale floor_div ◌+ℤ◌ ◌-ℤ◌ abs min_ℤ max_ℤ
    recalculate_credit_used key_taken
debit_into_credit = refl

debit_too_large :
    debit_wallet_atomic safe_round 7 (pos 150010000) none shop
    ≡ (err (insufficient_funds (pos 150010000) (pos 150000000)), shop)
unfolding debit_wallet_atomic debit_refused find_user_and_update find ◌+ℤ◌
debit_too_large = refl

debit_inactive :
    debit_wallet_atomic safe_round 8 (pos 10000) none shop ≡ (err account_inactive, shop)
unfolding debit_wallet_atomic debit_refused find_user_and_update find ◌+ℤ◌
debit_inactive = refl

-- A repeated source key: the ledger refuses the entry after the balance was written.
credit_twice :
    let once =
      (credit_wallet_direct safe_round 7
        (pos 10000)
        none
        none
        none
        (some (codes "deposit:1"))
        shop).1 in
    let (r, twice) =
      credit_wallet_direct safe_round 7
        (pos 10000)
        none
        none
        none
        (some (codes "deposit:1"))
        once in
    (r ≡ err duplicate_key)
    × (find 7 twice.users ≡ some (record alice { wallet_balance = pos 100020000 }))
    × (twice.wallet_transactions ≡ once.wallet_transactions)
unfolding credit_wallet_direct create_transaction_record find_user_and_update find modify
    set_balance credit_used_expression safe_round scale floor_div ◌+ℤ◌ ◌-ℤ◌ abs min_ℤ max_ℤ
    recalculate_credit_used key_taken
credit_twice = (refl, refl, refl)

server_round : KeepsCents safe_round
server_round = record { on_cents = safe_round-eq }

found_alice : find 7 shop.users ≡ some alice
unfolding find
found_alice = refl

alice-IsFair : IsFair alice
unfolding recalculate_credit_used safe_round scale floor_div ◌+ℤ◌ abs
alice-IsFair = record {
  cents = record { above = refl; below = refl };
  limit_cents = record { above = refl; below = refl };
  limit_nonneg = omega arith;
  mirror = refl;
}

large-IsCents : IsCents (pos 120000000)
large-IsCents = record { above = refl; below = refl }

covered_120 : pos 120000000 ≤ℤ alice.wallet_balance +ℤ or_zero alice.credit_limit
unfolding ◌+ℤ◌
covered_120 = omega arith

alice-Agrees : Agrees 7 alice shop.wallet_transactions
unfolding ◌+ℤ◌
alice-Agrees = record { fair = alice-IsFair; reconciled = refl }

bob-IsFair : IsFair bob
unfolding recalculate_credit_used safe_round scale floor_div ◌+ℤ◌ abs
bob-IsFair = record {
  cents = record { above = refl; below = refl };
  limit_cents = record { above = refl; below = refl };
  limit_nonneg = omega arith;
  mirror = refl;
}

in_shop :
    (id : ℕ) (u : User)
    → find id shop.users ≡ some u
    → ((id ≡ 7) × (alice ≡ u)) ⊎ ((id ≡ 8) × (bob ≡ u))
unfolding find
in_shop id u found = ground arith

shop-IsSound : IsSound shop
shop-IsSound = record {
  agrees = λ id u found. elim (in_shop id u found) [
    | inl (seven, here) ↦ rw (seven, ← here) alice-Agrees
    | inr (eight, here) ↦ rw (eight, ← here) (record { fair = bob-IsFair; reconciled = refl })
  ];
}

shop-AllWithin : AllWithin shop
unfolding ◌+ℤ◌
shop-AllWithin = record {
  within = λ id u found. elim (in_shop id u found) [
    | inl (seven, here) ↦ rw (← here) (omega arith)
    | inr (eight, here) ↦ rw (← here) (omega arith)
  ];
}

-- A debit into the credit line, a refund of a missing account, a deposit and a debit that fails.
abbrev day : List WalletCall
day =
    WalletCall.debit 7 (pos 120000000) (some 1)
    ∷ WalletCall.refund 9 (pos 10000) (pos 0) (some 1)
    ∷ WalletCall.credit 8 (pos 30000000) none (some SourceType.deposit) (some 4)
        (some (codes "deposit:4"))
    ∷ WalletCall.debit 8 (pos 10000) none
    ∷ []

small-IsCents : IsCents (pos 10000)
small-IsCents = record { above = refl; below = refl }

thirty-IsCents : IsCents (pos 30000000)
thirty-IsCents = record { above = refl; below = refl }

zero-IsCents : IsCents (pos 0)
zero-IsCents = record { above = refl; below = refl }

day-HasCents : All HasCents day
day-HasCents =
    (large-IsCents, ((small-IsCents, zero-IsCents), (thirty-IsCents, (small-IsCents, tt))))

run-IsSound_example : IsSound (run safe_round day shop)
run-IsSound_example = run-IsSound safe_round server_round day shop day-HasCents shop-IsSound

run-AllWithin_example : AllWithin (run safe_round day shop)
run-AllWithin_example =
    run-AllWithin safe_round server_round day shop day-HasCents (tt, (tt, (tt, (tt, tt))))
      shop-IsSound shop-AllWithin

refund-debit_example :
    let paid = (debit_wallet_atomic safe_round 7 (pos 120000000) (some 1) shop).1 in
    let back =
      (refund_wallet_atomic safe_round 7
        (pos 120000000)
        (credit_drawn alice (pos 120000000))
        (some 1)
        paid).1 in
    (find 7 back.users ≡ some alice)
    × (back.wallet_transactions
        ≡ refund_entry 7
            (with_balance alice (alice.wallet_balance -ℤ pos 120000000))
            (pos 120000000)
            (some 1)
          ∷ debit_entry 7 alice (pos 120000000) (some 1)
          ∷ shop.wallet_transactions)
refund-debit_example =
    refund-debit safe_round server_round 7 (pos 120000000) (some 1) shop alice found_alice
      alice-IsFair refl large-IsCents (omega arith) covered_120

debit_charges_example :
    let (r, db') = debit_wallet_atomic safe_round 7 (pos 120000000) (some 1) shop in
    (r
      ≡ ok (record {
        wallet_deducted = pos 120000000;
        credit_used_amount = credit_drawn alice (pos 120000000);
        transaction = debit_entry 7 alice (pos 120000000) (some 1);
      }))
    × Moves 7 alice
        (alice.wallet_balance -ℤ pos 120000000)
        (debit_entry 7 alice (pos 120000000) (some 1))
        shop
        db'
debit_charges_example =
    debit_charges safe_round server_round 7 (pos 120000000) (some 1) shop alice found_alice
      alice-IsFair refl large-IsCents (omega arith) covered_120

bob_barred : passes (pos 10000) (find 8 shop.users) ≡ false
unfolding find
bob_barred = refl

debit_refuses_example :
    debit_wallet_atomic safe_round 8 (pos 10000) none shop
    ≡ (err (refusal (find 8 shop.users) (pos 10000)), shop)
debit_refuses_example = debit_refuses safe_round 8 (pos 10000) none shop (inr bob_barred)

refund_pays_example :
    let (r, db') = refund_wallet_atomic safe_round 7 (pos 30000000) (pos 10000) (some 1) shop in
    (r ≡ ok (refund_entry 7 alice (pos 30000000) (some 1)))
    × Moves 7 alice
        (alice.wallet_balance +ℤ pos 30000000)
        (refund_entry 7 alice (pos 30000000) (some 1))
        shop
        db'
refund_pays_example =
    refund_pays safe_round server_round 7 (pos 30000000) (pos 10000) (some 1) shop alice found_alice
      alice-IsFair thirty-IsCents small-IsCents (omega arith)

credit_pays_example :
    let (r, db') =
      credit_wallet_direct safe_round 7
        (pos 30000000)
        none
        (some SourceType.deposit)
        (some 4)
        (some (codes "deposit:4"))
        shop in
    let t =
      credit_entry 7 alice
        (pos 30000000)
        none
        (some SourceType.deposit)
        (some 4)
        (some (codes "deposit:4")) in
    (r ≡ ok t) × Moves 7 alice (alice.wallet_balance +ℤ pos 30000000) t shop db'
unfolding key_taken
credit_pays_example =
    credit_pays safe_round server_round 7 (pos 30000000) none (some SourceType.deposit) (some 4)
      (some (codes "deposit:4")) shop alice found_alice alice-IsFair thirty-IsCents (omega arith)
      refl

forced_debit_takes_example :
    let (r, db') = forced_debit_wallet 7 (pos 120000000) (some 1) shop in
    (r ≡ ok (debit_entry 7 alice (pos 120000000) (some 1)))
    × Moves 7 alice
        (alice.wallet_balance -ℤ pos 120000000)
        (debit_entry 7 alice (pos 120000000) (some 1))
        shop
        db'
forced_debit_takes_example =
    forced_debit_takes 7 (pos 120000000) (some 1) shop alice found_alice alice-IsFair large-IsCents
      (omega arith)

forced_debit_loses_credit_example :
    let (r, read) = forced_debit_read 7 (pos 120000000) shop in
    let credited = (credit_wallet_direct safe_round 7 (pos 30000000) none none none none read).1 in
    let written = (forced_debit_write 7 (pos 120000000) (some 1) alice credited).1 in
    (r ≡ ok alice)
    × (find 7 written.users ≡ some (with_balance alice (alice.wallet_balance -ℤ pos 120000000)))
    × (written.wallet_transactions
        ≡ debit_entry 7 alice (pos 120000000) (some 1)
          ∷ credit_entry 7 alice (pos 30000000) none none none none
          ∷ shop.wallet_transactions)
forced_debit_loses_credit_example =
    forced_debit_loses_credit safe_round server_round 7 (pos 120000000) (pos 30000000) (some 1) none
      shop alice found_alice alice-IsFair large-IsCents (omega arith) thirty-IsCents (omega arith)
