-- ===== src/Deposits/Once.antt =====
-- The credits of a deposit on the ledger, through any sequence of calls of
-- src/modules/deposits/deposit.service.js and reconciliations of commissions.
use kanz_coins_backend.Prelude.{
  ℕ, suc, ◌&&◌, Bool, true, false, Option, none, some, List, [], ◌∷◌, ◌≡◌, refl, sym, subst, inl,
  inr, ◌⊎◌, arith,
}
use kanz_coins_backend.Prelude.Tests.{if◌then◌else◌, ◌==◌, Bool-cases, Option-cases, ==_refl}
use kanz_coins_backend.Prelude.Text.{Text}
use kanz_coins_backend.Prelude.Table.{
  Table, find, modify, find-modify, find-modify_self, find-modify_ne,
}
use kanz_coins_backend.Money.{Amount}
use kanz_coins_backend.Db.{WalletTransaction, TransactionType}
use kanz_coins_backend.Wallet.Effects.{refers, credit_adds}
use kanz_coins_backend.Store.{Store, Currency, DepositRequest}
use kanz_coins_backend.Commissions.{is_approved, process_deposit_referral_commission}
use kanz_coins_backend.Commissions.Marks.{set_mark}
use kanz_coins_backend.Commissions.Keeps.{Stable, process_deposit_referral_commission-Keeps}
use kanz_coins_backend.Commissions.Reconcile.{
  ReconciliationFilter, reconcile_referral_commissions, reconcile_referral_commissions-Keeps,
}
use kanz_coins_backend.Deposits.{
  AdminOverrides, set_approved, final_amount_of, final_currency_of, is_pending, approve_deposit,
  reject_write, reject_conflict, review_pending, set_rejected, set_amounts, update_pending_save,
}
use kanz_coins_backend.Deposits.Requests.{
  DepositInput, create_deposit_request, lacks_receipt, new_deposit, is_too_small, breaks_schema,
}
use kanz_coins_backend.Deposits.Automation.{PaymentMethod}
use kanz_coins_backend.Deposits.Ends.{Approves, credited, approve_deposit-lands}

abbrev is_credit : TransactionType → Bool
is_credit TransactionType.credit = true
is_credit _ = false

-- How many credits the ledger has for a deposit.
abbrev pub credit_count : ℕ → List WalletTransaction → ℕ
credit_count id [] = 0
credit_count id (t ∷ ts) =
    let rest = credit_count id ts in
    if is_credit t.type && refers id t.reference then suc rest else rest

-- One credit for an approved deposit, none for any other.
abbrev pub due_credits : Option DepositRequest → ℕ
due_credits none = 0
due_credits (some d) = if is_approved d.status then 1 else 0

pub record CreditsOnce (s : Store) : Type 0 where
  pub at : (id : ℕ) → credit_count id s.db.wallet_transactions ≡ due_credits (find id s.deposits)

-- Changes that leave every status alone.
same_due :
    (j id : ℕ) (f : DepositRequest → DepositRequest) (t : Table DepositRequest)
    → ((d : DepositRequest) → (f d).status ≡ d.status)
    → due_credits (find j (modify id f t)) ≡ due_credits (find j t)
same_due j id f t same = elim (Option-cases (find j t)) [
  | inl missing ↦ ground (arith, find-modify j id f t, missing)
  | inr (d, found) ↦ ground (arith, find-modify j id f t, found, same d)
]

once-Stable : Stable CreditsOnce
once-Stable = record {
  marks = λ s id m h. record {
    at = λ j. ground (arith, h.at j, same_due j id (set_mark m) s.deposits (λ _. refl));
  };
  earns = λ s id c _ _ _ _ h. record { at = h.at };
}

module _ (round : Amount → Amount) (divide : ℕ → ℕ → ℕ) (cached : Text → Option Currency)
    (id commission_id : ℕ) (admin : Option ℕ) (now : ℕ) (o : AdminOverrides) where
  credited-CreditsOnce :
      (s : Store) (d : DepositRequest) (credit : Amount) (t : WalletTransaction)
      → CreditsOnce s
      → Approves round divide cached id commission_id admin now o d credit t s
      → CreditsOnce (credited round divide cached id commission_id admin now o d credit s)
  credited-CreditsOnce s d credit t h a =
      let (ledger, type, reference) =
        credit_adds round d.user_id credit (some id) none none none s.db t a.paid in
      record {
        at = λ j. elim (Bool-cases (j == id)) [
          | inl same ↦
              let e : j ≡ id = ground arith in
              rw (e, ledger)
                (ground (
                  arith,
                  type,
                  reference,
                  ==_refl id,
                  h.at id,
                  a.found,
                  a.waits,
                  find-modify_self id
                      (set_approved admin now o (final_amount_of o d) (final_currency_of o d))
                      s.deposits a.found,
                ))
          | inr other ↦ rw ledger (
              ground (
                arith,
                type,
                reference,
                h.at j,
                other,
                find-modify_ne j id
                    (set_approved admin now o (final_amount_of o d) (final_currency_of o d))
                    s.deposits (ground arith),
              ))
        ];
      }

  approve_deposit-CreditsOnce :
      (s : Store)
      → CreditsOnce s
      → CreditsOnce (approve_deposit round divide cached id commission_id admin now o s).1
  approve_deposit-CreditsOnce s h =
      approve_deposit-lands round divide cached id commission_id admin now o CreditsOnce once-Stable
        s h (λ d credit t a. credited-CreditsOnce s d credit t h a)

-- A review that is no approval, and a save.
reviewed-CreditsOnce :
    (id : ℕ) (f : DepositRequest → DepositRequest) (s : Store) (d : DepositRequest)
    → CreditsOnce s
    → find id s.deposits ≡ some d
    → is_approved d.status ≡ false
    → is_approved (f d).status ≡ false
    → CreditsOnce (record s { deposits = modify id f s.deposits })
reviewed-CreditsOnce id f s d h found before after = record {
  at = λ j. elim (Bool-cases (j == id)) [
    | inl same ↦
        let e : j ≡ id = ground arith in
        rw e (ground (arith, h.at id, found, before, after, find-modify_self id f s.deposits found))
    | inr other ↦ ground (arith, h.at j, other, find-modify_ne j id f s.deposits (ground arith))
  ];
}

reject_write-CreditsOnce :
    (id admin now : ℕ) (notes : Option Text) (s : Store)
    → CreditsOnce s
    → CreditsOnce (reject_write id admin now notes s).1
unfolding reject_write reject_conflict review_pending
reject_write-CreditsOnce id admin now notes s h = elim (Option-cases (find id s.deposits)) [
  | inl missing ↦
      let e : (reject_write id admin now notes s).1 ≡ s = ground (arith, missing) in
      subst CreditsOnce (sym e) h
  | inr (d, found) ↦ elim (Bool-cases (is_pending d.status)) [
    | inr reviewed ↦
        let e : (reject_write id admin now notes s).1 ≡ s = ground (arith, found, reviewed) in
        subst CreditsOnce (sym e) h
    | inl waits ↦
        let f = set_rejected admin now notes in
        let e : (reject_write id admin now notes s).1
            ≡ record s { deposits = modify id f s.deposits } =
          ground (arith, found, waits) in
        subst CreditsOnce (sym e) (reviewed-CreditsOnce id f s d h found (ground arith) refl)
  ]
]

save-CreditsOnce :
    (id : ℕ) (amount : Amount) (read : DepositRequest) (s : Store)
    → CreditsOnce s
    → CreditsOnce (update_pending_save id amount read s).1
unfolding update_pending_save
save-CreditsOnce id amount read s h =
    let changed = set_amounts amount read.exchange_rate read in
    let f = λ (d : DepositRequest). record d {
      requested_amount = changed.requested_amount;
      amount_usd = changed.amount_usd;
    } in
    elim (Bool-cases (is_too_small changed)) [
      | inl small ↦ rw small h
      | inr fits ↦
          rw fits
            (record { at = λ j. ground (arith, h.at j, same_due j id f s.deposits (λ _. refl)) })
    ]

request_ends :
    (methods : List PaymentMethod) (id : ℕ) (input : DepositInput) (s : Store)
    → let s' = (create_deposit_request methods id input s).1 in
      (s' ≡ s)
      ⊎ ((find id s.deposits ≡ none)
          × (s' ≡ record s { deposits = (id, new_deposit input) ∷ s.deposits }))
unfolding create_deposit_request
request_ends methods id input s = elim (Option-cases (find input.user_id s.db.users)) [
  | inl missing ↦ inl (ground (arith, missing))
  | inr (u, user) ↦ elim (Bool-cases (lacks_receipt methods input)) [
    | inl lacking ↦ inl (ground (arith, user, lacking))
    | inr receipt ↦ elim (Bool-cases (breaks_schema (new_deposit input))) [
      | inl small ↦ inl (ground (arith, user, receipt, small))
      | inr fits ↦ elim (Option-cases (find id s.deposits)) [
        | inr (d, used) ↦ inl (ground (arith, user, receipt, fits, used))
        | inl fresh ↦ inr (fresh, ground (arith, user, receipt, fits, fresh))
      ]
    ]
  ]
]

request-CreditsOnce :
    (methods : List PaymentMethod) (id : ℕ) (input : DepositInput) (s : Store)
    → CreditsOnce s
    → CreditsOnce (create_deposit_request methods id input s).1
unfolding find
request-CreditsOnce methods id input s h = elim (request_ends methods id input s) [
  | inl same ↦ subst CreditsOnce (sym same) h
  | inr (fresh, ends) ↦ subst CreditsOnce (sym ends) (record {
    at = λ j. elim (Bool-cases (j == id)) [
      | inl same ↦
          let e : j ≡ id = ground arith in rw (e, ==_refl id) (ground (arith, h.at id, fresh))
      | inr other ↦ rw other (h.at j)
    ];
  })
]

pub data DepositCall : Type 0 where
  request : ℕ → DepositInput → DepositCall
  -- the save of an edit, of the document that it read
  save : ℕ → Amount → DepositRequest → DepositCall
  approve : ℕ → ℕ → Option ℕ → ℕ → AdminOverrides → DepositCall
  -- the update of a rejection, whatever its read has found
  reject : ℕ → ℕ → ℕ → Option Text → DepositCall
  reconcile : ℕ → ℕ → DepositRequest → Amount → Text → ℕ → ℕ → DepositCall
  reconcile_all : (ℕ → ℕ) → ℕ → Bool → ReconciliationFilter → DepositCall

module _ (methods : List PaymentMethod) (round : Amount → Amount) (divide : ℕ → ℕ → ℕ)
    (cached : Text → Option Currency) where
  abbrev pub step : DepositCall → Store → Store
  step (DepositCall.request id input) s = (create_deposit_request methods id input s).1
  step (DepositCall.save id amount read) s = (update_pending_save id amount read s).1
  step (DepositCall.approve id commission_id admin now o) s =
      (approve_deposit round divide cached id commission_id admin now o s).1
  step (DepositCall.reject id admin now notes) s = (reject_write id admin now notes s).1
  step (DepositCall.reconcile id deposit_id d amount currency completed_at now) s =
      (process_deposit_referral_commission divide id deposit_id d amount currency completed_at now
        s).1
  step (DepositCall.reconcile_all new_id now dry_run filter) s =
      (reconcile_referral_commissions divide new_id now dry_run filter s).1

  abbrev pub run : List DepositCall → Store → Store
  run [] s = s
  run (call ∷ calls) s = run calls (step call s)

  step-CreditsOnce : (call : DepositCall) (s : Store) → CreditsOnce s → CreditsOnce (step call s)
  step-CreditsOnce (DepositCall.request id input) s h = request-CreditsOnce methods id input s h
  step-CreditsOnce (DepositCall.save id amount read) s h = save-CreditsOnce id amount read s h
  step-CreditsOnce (DepositCall.approve id commission_id admin now o) s h =
      approve_deposit-CreditsOnce round divide cached id commission_id admin now o s h
  step-CreditsOnce (DepositCall.reject id admin now notes) s h =
      reject_write-CreditsOnce id admin now notes s h
  step-CreditsOnce (DepositCall.reconcile id deposit_id d amount currency completed_at now) s h =
      process_deposit_referral_commission-Keeps CreditsOnce once-Stable divide id deposit_id d
        amount currency completed_at now s h
  step-CreditsOnce (DepositCall.reconcile_all new_id now dry_run filter) s h =
      reconcile_referral_commissions-Keeps divide new_id now CreditsOnce once-Stable dry_run filter
        s h

  run-CreditsOnce :
      (calls : List DepositCall) (s : Store) → CreditsOnce s → CreditsOnce (run calls s)
  run-CreditsOnce [] s h = h
  run-CreditsOnce (call ∷ calls) s h =
      run-CreditsOnce calls (step call s) (step-CreditsOnce call s h)

  -- After any sequence of deposit requests, saved edits, approvals, updates of rejections and
  -- commission reconciliations, also with stale documents, the ledger has exactly one credit for
  -- every approved deposit and none for any other id, if that held before.
  pub credited_once :
      (calls : List DepositCall) (s : Store) (id : ℕ)
      → CreditsOnce s
      → let s' = run calls s in
        credit_count id s'.db.wallet_transactions ≡ due_credits (find id s'.deposits)
  credited_once calls s id h = (run-CreditsOnce calls s h).at id
