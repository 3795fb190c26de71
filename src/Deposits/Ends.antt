-- ===== src/Deposits/Ends.antt =====
-- How approveDeposit of src/modules/deposits/deposit.service.js ends: the store as it was, or the
-- deposit approved, the wallet credited and the commission processed.
use kanz_coins_backend.Prelude.{
  ℕ, true, false, Option, none, some, ◌≡◌, refl, subst, sym, ◌∙◌, inl, inr, ◌⊎◌, arith,
}
use kanz_coins_backend.Prelude.Tests.{Bool-cases, Option-cases}
use kanz_coins_backend.Prelude.Int.{pos, leb_ℤ}
use kanz_coins_backend.Prelude.Text.{Text}
use kanz_coins_backend.Prelude.Table.{Table, find, modify}
use kanz_coins_backend.Prelude.Exec.{Exec, ok, Result-cases}
use kanz_coins_backend.Money.{Amount}
use kanz_coins_backend.Errors.{Error}
use kanz_coins_backend.Db.{Db, WalletTransaction}
use kanz_coins_backend.Wallet.{credit_wallet_direct}
use kanz_coins_backend.Store.{Store, Currency, DepositRequest}
use kanz_coins_backend.Commissions.{Processed, process_deposit_referral_commission}
use kanz_coins_backend.Commissions.Keeps.{Stable, process_deposit_referral_commission-Keeps}
use kanz_coins_backend.Deposits.{
  AdminOverrides, is_pending, final_amount_of, final_currency_of, set_approved, review_pending,
  wallet_credit_amount, wallet_currency, get_conversion_rate, credit_deposit,
  approve_in_transaction, approve_deposit,
}

-- What the part after the compare-and-swap has done where it returns.
module _ (round : Amount → Amount) (divide : ℕ → ℕ → ℕ) (cached : Text → Option Currency)
    (id commission_id now : ℕ) (amount : Amount) (code : Text) (d : DepositRequest) where
  abbrev Credits : Store → Type 0
  Credits s =
      (credit : Amount) × (t : WalletTransaction) × (wallet_credit_amount cached amount code
          (wallet_currency (find d.user_id s.db.users)) s
        ≡ ok credit)
      × ((credit_wallet_direct round d.user_id credit (some id) none none none s.db).0 ≡ ok t)
      × ((credit_deposit round divide cached id commission_id now amount code d s).1
          ≡ (process_deposit_referral_commission divide commission_id id d amount code now now
              (record s {
                db = (credit_wallet_direct round d.user_id credit (some id) none none none s.db).1;
              })).1)

  credit_passes :
      (s : Store) (r : DepositRequest)
      → (credit_deposit round divide cached id commission_id now amount code d s).0 ≡ ok r
      → Credits s
  unfolding credit_deposit
  credit_passes s r h =
      elim (Result-cases
        (wallet_credit_amount cached amount code (wallet_currency (find d.user_id s.db.users)) s)) [
          | inr (x, e) ↦ absurd (ground (arith, e, h))
          | inl (credit, e) ↦
              let paid =
                credit_wallet_direct round d.user_id credit (some id) none none none s.db in
              let result =
                process_deposit_referral_commission divide commission_id id d amount code now now
                  (record s { db = paid.1 }) in
              elim (Result-cases paid.0) [
                | inr (x, f) ↦ absurd (ground (arith, e, f, h))
                | inl (t, f) ↦ elim (Result-cases result.0) [
                  | inr (x, g) ↦ absurd (ground (arith, e, f, g, h))
                  | inl (q, g) ↦ (credit, t, e, f, ground (arith, e, f, g))
                ]
              ]
        ]

-- A conversion does not look at the deposits.
converted_same :
    (cached : Text → Option Currency) (amount : Amount) (from to : Text) (s : Store)
    (deposits : Table DepositRequest)
    → wallet_credit_amount cached amount from to (record s { deposits = deposits })
      ≡ wallet_credit_amount cached amount from to s
unfolding wallet_credit_amount get_conversion_rate
converted_same cached amount from to s deposits = refl

module _ (round : Amount → Amount) (divide : ℕ → ℕ → ℕ) (cached : Text → Option Currency)
    (id commission_id : ℕ) (admin : Option ℕ) (now : ℕ) (o : AdminOverrides) where
  abbrev pub approves : DepositRequest → DepositRequest
  approves d = set_approved admin now o (final_amount_of o d) (final_currency_of o d) d

  abbrev pub credit_of : DepositRequest → Amount → Exec Db Error WalletTransaction
  credit_of d credit = credit_wallet_direct round d.user_id credit (some id) none none none

  -- The store between the credit and the commission.
  abbrev pub credited : DepositRequest → Amount → Store → Store
  credited d credit s = record s {
    deposits =
        modify id (set_approved admin now o (final_amount_of o d) (final_currency_of o d))
          s.deposits;
    db = (credit_of d credit s.db).1;
  }

  abbrev pub commission_of : DepositRequest → Exec Store Error Processed
  commission_of d =
      process_deposit_referral_commission divide commission_id id (approves d) (final_amount_of o d)
        (final_currency_of o d) now now

  pub record Approves (d : DepositRequest) (credit : Amount) (t : WalletTransaction) (s : Store)
      : Type 0 where
    pub found : find id s.deposits ≡ some d
    pub waits : is_pending d.status ≡ true
    pub positive : leb_ℤ (final_amount_of o d) (pos 0) ≡ false
    pub converted :
        wallet_credit_amount cached
          (final_amount_of o d)
          (final_currency_of o d)
          (wallet_currency (find d.user_id s.db.users))
          s
        ≡ ok credit
    pub paid : (credit_of d credit s.db).0 ≡ ok t

  after :
      (d : DepositRequest) (s : Store) (r : DepositRequest)
      → find id s.deposits ≡ some d
      → is_pending d.status ≡ true
      → leb_ℤ (final_amount_of o d) (pos 0) ≡ false
      → let m =
          credit_deposit round divide cached id commission_id now
            (final_amount_of o d)
            (final_currency_of o d)
            (approves d)
            (record s {
              deposits =
                  modify id
                    (set_approved admin now o (final_amount_of o d) (final_currency_of o d))
                    s.deposits;
            }) in
        m.0 ≡ ok r → (approve_deposit round divide cached id commission_id admin now o s).1 ≡ m.1
  unfolding approve_deposit approve_in_transaction review_pending
  after d s r found waits positive passed = ground (arith, found, waits, positive, passed)

  pub approve_ends :
      (s : Store)
      → let (r, s') = approve_deposit round divide cached id commission_id admin now o s in
        (s' ≡ s)
        ⊎ ((d : DepositRequest) × (credit : Amount) × (t : WalletTransaction) × Approves d credit t
              s
            × (s' ≡ (commission_of d (credited d credit s)).1))
  unfolding approve_deposit approve_in_transaction review_pending
  approve_ends s = elim (Option-cases (find id s.deposits)) [
    | inl missing ↦ inl (ground (arith, missing))
    | inr (d, found) ↦ elim (Bool-cases (is_pending d.status)) [
      | inr reviewed ↦ inl (ground (arith, found, reviewed))
      | inl waits ↦ elim (Bool-cases (leb_ℤ (final_amount_of o d) (pos 0))) [
        | inl nothing ↦ inl (ground (arith, found, waits, nothing))
        | inr positive ↦
            let s' = record s {
              deposits =
                  modify id (set_approved admin now o (final_amount_of o d) (final_currency_of o d))
                    s.deposits;
            } in
            let paying =
              credit_deposit round divide cached id commission_id now (final_amount_of o d)
                (final_currency_of o d) (approves d) s' in
            elim (Result-cases paying.0) [
              | inr (x, failed) ↦ inl (ground (arith, found, waits, positive, failed))
              | inl (r, passed) ↦
                  let (credit, t, converted, paid, ends) =
                    credit_passes round divide cached id commission_id now (final_amount_of o d)
                      (final_currency_of o d) (approves d) s' r passed in
                  inr (
                    d,
                    credit,
                    t,
                    record {
                      found = found;
                      waits = waits;
                      positive = positive;
                      converted =
                          sym (
                            converted_same cached (final_amount_of o d) (final_currency_of o d)
                              (wallet_currency (find d.user_id s.db.users)) s s'.deposits)
                          ∙ converted;
                      paid = paid;
                    },
                    after d s r found waits positive passed ∙ ends,
                  )
            ]
      ]
    ]
  ]

  -- A predicate that a commission keeps holds after an approval, if the credited store has it.
  pub approve_deposit-lands :
      (P : Store → Type 0)
      → Stable P
      → (s : Store) → P s
      → ((d : DepositRequest) (credit : Amount) (t : WalletTransaction)
          → Approves d credit t s
          → P (credited d credit s))
      → P (approve_deposit round divide cached id commission_id admin now o s).1
  approve_deposit-lands P stable s h lands = elim (approve_ends s) [
    | inl same ↦ subst P (sym same) h
    | inr (d, credit, t, a, ends) ↦ subst P (sym ends) (
        process_deposit_referral_commission-Keeps P stable divide commission_id id (approves d)
          (final_amount_of o d) (final_currency_of o d) now now (credited d credit s)
          (lands d credit t a))
  ]
