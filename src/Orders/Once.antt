-- ===== src/Orders/Once.antt =====
-- The refund guard of the order services: an order's `refunded` flag against the refunds that the
-- ledger has for it.
pub mod Refunds
pub mod Fulfillment
pub mod Runs
use kanz_coins_backend.Prelude.{
  ℕ, zero, suc, ◌+◌, ◌≤◌, ◌≡◌, ◌≢◌, refl, ◌⊎◌, sym, ap, subst, ◌∙◌, Bool, true, false, not, ◌&&◌,
  Option, none, some, List, [], ◌∷◌, arith, inl, inr,
}
use kanz_coins_backend.Prelude.Int.{ℤ, pos}
use kanz_coins_backend.Prelude.Tests.{
  if◌then◌else◌, ◌==◌, ==_iff, ==_refl, Bool-cases, Option-cases,
}
use kanz_coins_backend.Prelude.Table.{
  find, modify, find-modify_self, find-modify_ne, find-modify-none,
}
use kanz_coins_backend.Prelude.Exec.{ok, err}
use kanz_coins_backend.Money.{Amount}
use kanz_coins_backend.Db.{Db, Order, WalletTransaction}
use kanz_coins_backend.Wallet.{refund_wallet_atomic}
use kanz_coins_backend.Wallet.Effects.{refund_count, refers, refund_at_most_once, RefundsAtMostOnce}
use kanz_coins_backend.Orders.Refund.{
  is_some, return_quantity, mark_order_as_failed, set_failed, refundable_amount,
}

-- One order against its refunds: at most one, none before the flag is set, and the flag comes
-- with its date.
abbrev pub Once : Option Order → ℕ → Type 0
Once none n = n ≡ 0
Once (some o) n =
    (n ≤ 1) × (o.refunded ≡ false → n ≡ 0) × (o.refunded ≡ true → is_some o.refunded_at ≡ true)

pub record IsOnce (db : Db) : Type 0 where
  pub once : (id : ℕ) → Once (find id db.orders) (refund_count id db.wallet_transactions)

-- A state in which an order was just flagged, and no refund for it is on the ledger.
pub record IsArmed (id : ℕ) (db : Db) : Type 0 where
  pub keeps : IsOnce db
  pub flagged : (o : Order) × (find id db.orders ≡ some o) × (o.refunded ≡ true)
  pub unpaid : refund_count id db.wallet_transactions ≡ 0

-- A save of one order that leaves its guard right keeps the rest.
pub save-IsOnce :
    (id : ℕ) (f : Order → Order) (db : Db)
    → IsOnce db
    → ((o : Order)
        → find id db.orders ≡ some o
        → Once (some (f o)) (refund_count id db.wallet_transactions))
    → IsOnce (record db { orders = modify id f db.orders })
save-IsOnce id f db h fits = record { once = once' }
  where
    once' : (j : ℕ) → Once (find j (modify id f db.orders)) (refund_count j db.wallet_transactions)
    once' j = elim (Bool-cases (j == id)) [
      | inl same ↦
          let same_id = (==_iff j id).0 same in
          elim (Option-cases (find id db.orders)) [
            | inl missing ↦
                rw (same_id, find-modify-none id f db.orders missing)
                  (subst (λ p. Once p (refund_count id db.wallet_transactions)) missing (h.once id))
            | inr (o, found) ↦ rw (same_id, find-modify_self id f db.orders found) (fits o found)
          ]
      | inr other ↦ rw (find-modify_ne j id f db.orders (ground arith)) (h.once j)
    ]

-- The guard of an order that is there.
pub guard_of :
    (id : ℕ) (db : Db) {o : Order}
    → IsOnce db
    → find id db.orders ≡ some o
    → Once (some o) (refund_count id db.wallet_transactions)
guard_of id db h found =
    subst (λ p. Once p (refund_count id db.wallet_transactions)) found (h.once id)

pub arm :
    (id : ℕ) (f : Order → Order) (db : Db) {o : Order}
    → IsOnce db
    → find id db.orders ≡ some o
    → o.refunded ≡ false
    → ((p : Order) → (f p).refunded ≡ true)
    → ((p : Order) → is_some (f p).refunded_at ≡ true)
    → IsArmed id (record db { orders = modify id f db.orders })
arm id f db {o} h found clear flag date =
    let unpaid = (guard_of id db h found).1 clear in
    record {
      keeps =
          save-IsOnce id f db h (λ p e. (ground arith, λ c. ground (arith, flag p), λ _. date p));
      flagged = (f o, find-modify_self id f db.orders found, flag o);
      unpaid = unpaid;
    }

-- A call that leaves the orders as they are and adds no refund but one for a flagged order.
pub paid-IsOnce :
    (id : ℕ) (db db' : Db) → IsArmed id db → RefundsAtMostOnce (some id) db db' → IsOnce db'
paid-IsOnce id db db' h pays = record { once = once' }
  where
    once' : (j : ℕ) → Once (find j db'.orders) (refund_count j db'.wallet_transactions)
    once' j = elim (Bool-cases (j == id)) [
      | inl same ↦
          let same_id = (==_iff j id).0 same in
          let (o, found, flag) = h.flagged in
          let here = guard_of id db h.keeps found in
          let most : refund_count id db'.wallet_transactions ≤ 1 =
            ground (arith, pays.most id, h.unpaid, ==_refl id) in
          rw (same_id, pays.orders, found) (most, λ c. ground arith, here.2)
      | inr other ↦
          let same_count : refund_count j db'.wallet_transactions
              ≡ refund_count j db.wallet_transactions =
            ground (arith, pays.most j, pays.least j) in
          rw (pays.orders, same_count) (h.keeps.once j)
    ]

pub undated-clear :
    (id : ℕ) (db : Db) (o : Order)
    → IsOnce db
    → find id db.orders ≡ some o
    → is_some o.refunded_at ≡ false
    → o.refunded ≡ false
undated-clear id db o h found undated =
    let guard = guard_of id db h found in ground (arith, undated, guard.2)

pub return_quantity-IsOnce :
    (user : ℕ) (q : ℤ) (db : Db) → IsOnce db → IsOnce (return_quantity user q db).1
unfolding return_quantity
return_quantity-IsOnce user q db h = record { once = h.once }

-- A save of fields other than the guard's.
pub other-IsOnce :
    (id : ℕ) (f : Order → Order) (db : Db)
    → IsOnce db
    → ((p : Order) → (f p).refunded ≡ p.refunded)
    → ((p : Order) → (f p).refunded_at ≡ p.refunded_at)
    → IsOnce (record db { orders = modify id f db.orders })
other-IsOnce id f db h flag date = save-IsOnce id f db h (λ p found.
    let guard = guard_of id db h found in
    (guard.0, ground (arith, guard.1, flag p), ground (arith, guard.2, flag p, date p)))
