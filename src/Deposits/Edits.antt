-- ===== src/Deposits/Edits.antt =====
-- updatePendingDeposit of src/modules/deposits/deposit.service.js, with another writer between its
-- read and its save.
use kanz_coins_backend.Prelude.{ℕ, false, some, ◌≡◌, refl, arith}
use kanz_coins_backend.Prelude.Table.{find, find-modify_self}
use kanz_coins_backend.Prelude.Exec.{ok}
use kanz_coins_backend.Money.{Amount}
use kanz_coins_backend.Store.{Store, DepositRequest, DepositStatus}
use kanz_coins_backend.Deposits.{set_amounts, update_pending_read, update_pending_save}
use kanz_coins_backend.Deposits.Requests.{is_too_small}

-- An edit of a deposit that was pending when it was read is saved also if the deposit has been
-- approved since: the deposit stays approved with the edited amounts, whatever it was credited with,
-- and accounts and ledger do not change.
pub late_edit_changes_approved :
    (id : ℕ) (amount : Amount) (s s' : Store) (d d' : DepositRequest)
    → find id s.deposits ≡ some d
    → d.status ≡ DepositStatus.pending
    → find id s'.deposits ≡ some d'
    → d'.status ≡ DepositStatus.approved
    → is_too_small (set_amounts amount d.exchange_rate d) ≡ false
    → let changed = set_amounts amount d.exchange_rate d in
      let (r, after) = update_pending_save id amount d s' in
      (update_pending_read id s ≡ (ok d, s))
      × (r ≡ ok changed)
      × (find id after.deposits
          ≡ some (record d' {
            requested_amount = changed.requested_amount;
            amount_usd = changed.amount_usd;
          }))
      × (after.db ≡ s'.db)
unfolding update_pending_read update_pending_save
late_edit_changes_approved id amount s s' d d' found waits found' approved fits =
    let changed = set_amounts amount d.exchange_rate d in
    let f = λ (e : DepositRequest). record e {
      requested_amount = changed.requested_amount;
      amount_usd = changed.amount_usd;
    } in
    (
      ground (arith, found, waits),
      ground (arith, fits),
      rw fits (find-modify_self id f s'.deposits found'),
      rw fits refl,
    )
