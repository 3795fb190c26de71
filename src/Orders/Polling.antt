-- ===== src/Orders/Polling.antt =====
-- Repeated status checks of one order by src/modules/orders/orderFulfillment.service.js: what the
-- checks do while the provider has no terminal answer.
use kanz_coins_backend.Prelude.{
  ℕ, ◌+◌, ◌<◌, ◌≡◌, inl, inr, refl, Bool, true, false, some, List, [], ◌∷◌, arith,
}
use kanz_coins_backend.Prelude.Lists.{All, length}
use kanz_coins_backend.Prelude.Tests.{leb, Bool-cases, if◌then◌else◌}
use kanz_coins_backend.Prelude.Table.{find, modify, find-modify_self}
use kanz_coins_backend.Prelude.Exec.{Exec, ok, ◌>>=◌}
use kanz_coins_backend.Money.{Amount}
use kanz_coins_backend.Errors.{Error}
use kanz_coins_backend.Db.{Db, Order, OrderStatus, max_retry_count}
use kanz_coins_backend.Providers.Status.{is_terminal}
use kanz_coins_backend.Orders.Refund.{load_order}
use kanz_coins_backend.Orders.Fulfillment.{
  Action, StatusResult, is_processing, set_checked, set_manual_review, process_order_status_result,
  count_retry, transition_from_processing, find_order_and_update,
}

abbrev pub Waits : StatusResult → Type 0
Waits result = is_terminal result.provider_status ≡ false

module _ (round : Amount → Amount) where
  -- One check of an order that was just read.
  unfoldable pub check_order : Bool → ℕ → ℕ → StatusResult → Exec Db Error Action
  check_order transactions now id result = do
    order ← load_order id
    process_order_status_result round transactions now id order result

  abbrev pub check_all : Bool → ℕ → ℕ → List StatusResult → Db → Db
  check_all transactions now id [] db = db
  check_all transactions now id (result ∷ results) db =
      check_all transactions now id results (check_order transactions now id result db).1

  pub check_counts :
      (tx : Bool) (now id : ℕ) (result : StatusResult) (db : Db) (o : Order)
      → find id db.orders ≡ some o
      → is_processing o.status ≡ true
      → Waits result
      → let n = o.retry_count + 1 in
        let f =
          if leb max_retry_count n
          then set_manual_review now n result
          else set_checked now n result in
        check_order tx now id result db ≡ (
          ok (if leb max_retry_count n then Action.manual_review else Action.pending),
          record db { orders = modify id f db.orders },
        )
  unfolding check_order process_order_status_result count_retry transition_from_processing
      find_order_and_update
  check_counts tx now id result db o found here waits = ground (arith, found, here, waits)

  pub check_skips :
      (tx : Bool) (now id : ℕ) (result : StatusResult) (db : Db) (o : Order)
      → find id db.orders ≡ some o
      → is_processing o.status ≡ false
      → check_order tx now id result db ≡ (ok Action.skipped, db)
  unfolding check_order process_order_status_result
  check_skips tx now id result db o found gone = ground (arith, found, gone)

  check_all_skips :
      (tx : Bool) (now id : ℕ) (results : List StatusResult) (db : Db) (o : Order)
      → find id db.orders ≡ some o
      → is_processing o.status ≡ false
      → check_all tx now id results db ≡ db
  check_all_skips tx now id [] db o found gone = refl
  check_all_skips tx now id (result ∷ results) db o found gone =
      rw (check_skips tx now id result db o found gone)
        (check_all_skips tx now id results db o found gone)

  -- An order that is PROCESSING below the retry limit, checked any number of times without a terminal
  -- answer: it is still PROCESSING while its retry count plus the checks is below the limit and is in
  -- MANUAL_REVIEW from then on, and neither an account nor the ledger changes.
  pub checks_end :
      (tx : Bool) (now id : ℕ) (results : List StatusResult) (db : Db) (o : Order)
      → find id db.orders ≡ some o
      → o.status ≡ OrderStatus.processing
      → o.retry_count < max_retry_count
      → All Waits results
      → let db' = check_all tx now id results db in
        ((o' : Order) × (find id db'.orders ≡ some o')
          × (o'.status ≡ (
              if leb max_retry_count (o.retry_count + length results)
              then OrderStatus.manual_review
              else OrderStatus.processing)))
        × (db'.users ≡ db.users)
        × (db'.wallet_transactions ≡ db.wallet_transactions)
  checks_end tx now id [] db o found here below waits =
      ((o, found, ground (arith, here, below)), refl, refl)
  checks_end tx now id (result ∷ results) db o found here below waits =
      let n = o.retry_count + 1 in
      let step = check_counts tx now id result db o found (ground (arith, here)) waits.0 in
      elim (Bool-cases (leb max_retry_count n)) [
        | inl last ↦
            let f = set_manual_review now n result in
            let found' = find-modify_self id f db.orders found in
            let db' = record db { orders = modify id f db.orders } in
            rw (check_all, step, last, check_all_skips tx now id results db' (f o) found' refl)
              ((f o, found', ground (arith, last)), refl, refl)
        | inr more ↦
            let f = set_checked now n result in
            let db' = record db { orders = modify id f db.orders } in
            let rest =
              checks_end tx now id results db' (f o) (find-modify_self id f db.orders found) here
                (ground (arith, more)) waits.1 in
            let ((o', there, status), users, ledger) = rest in
            rw (check_all, step, more) ((o', there, ground (arith, status)), users, ledger)
      ]
