-- ===== src/Orders/Graph.antt =====
-- The status graph of the automatic processing in src/modules/orders/orderFulfillment.service.js
-- and src/modules/orders/order.service.js: which statuses follow which, order by order.
pub mod Automatic
use kanz_coins_backend.Prelude.{
  ℕ, ◌≡◌, ◌≢◌, refl, sym, ap, subst, ◌∙◌, Bool, true, false, Option, none, some, arith, inl, inr,
}
use kanz_coins_backend.Prelude.Tests.{◌==◌, ==_iff, Bool-cases, Option-cases}
use kanz_coins_backend.Prelude.Table.{
  Table, find, modify, find-modify_self, find-modify_ne, find-modify-none,
}
use kanz_coins_backend.Money.{Amount}
use kanz_coins_backend.Orders.Results.{is_result}
use kanz_coins_backend.Db.{Db, Order, OrderStatus}

-- A status after any number of automatic calls: only PENDING and PROCESSING are ever left.
pub data Follows : OrderStatus → OrderStatus → Type 0 where
  stays : {s : OrderStatus} → Follows s s
  placed : Follows OrderStatus.pending OrderStatus.completed
  result : {s : OrderStatus} → is_result s ≡ true → Follows OrderStatus.processing s

pub Follows-trans : {a b c : OrderStatus} → Follows a b → Follows b c → Follows a c
Follows-trans Follows.stays g = g
Follows-trans f Follows.stays = f
Follows-trans (Follows.result e) Follows.placed = absurd (ground arith)
Follows-trans (Follows.result e) (Follows.result e') = Follows.result e'

-- An order after any number of automatic calls: its status follows, and what it was charged stays.
pub record Continues (o o' : Order) : Type 0 where
  pub status : Follows o.status o'.status
  pub user_id : o'.user_id ≡ o.user_id
  pub quantity : o'.quantity ≡ o.quantity
  pub wallet_deducted : o'.wallet_deducted ≡ o.wallet_deducted
  pub credit_used_amount : o'.credit_used_amount ≡ o.credit_used_amount
  pub charged_amount : o'.charged_amount ≡ o.charged_amount

pub Continues-refl : (o : Order) → Continues o o
Continues-refl o = record {
  status = Follows.stays;
  user_id = refl;
  quantity = refl;
  wallet_deducted = refl;
  credit_used_amount = refl;
  charged_amount = refl;
}

pub Continues-trans : (a b c : Order) → Continues a b → Continues b c → Continues a c
Continues-trans a b c h k = record {
  status = Follows-trans h.status k.status;
  user_id = k.user_id ∙ h.user_id;
  quantity = k.quantity ∙ h.quantity;
  wallet_deducted = k.wallet_deducted ∙ h.wallet_deducted;
  credit_used_amount = k.credit_used_amount ∙ h.credit_used_amount;
  charged_amount = k.charged_amount ∙ h.charged_amount;
}

-- Every order of an earlier table, in a later state.
pub record AllContinue (before : Table Order) (db : Db) : Type 0 where
  pub kept :
      (j : ℕ) (o : Order)
      → find j before ≡ some o
      → (o' : Order) × (find j db.orders ≡ some o') × Continues o o'

pub AllContinue-refl : (db : Db) → AllContinue db.orders db
AllContinue-refl db = record { kept = λ j o found. (o, found, Continues-refl o) }

module _ (before : Table Order) where
  pub save-AllContinue :
      (id : ℕ) (f : Order → Order) (db : Db)
      → AllContinue before db
      → ((o : Order) → find id db.orders ≡ some o → Continues o (f o))
      → AllContinue before (record db { orders = modify id f db.orders })
  save-AllContinue id f db h fits = record { kept = kept }
    where
      kept :
          (j : ℕ) (o : Order)
          → find j before ≡ some o
          → (o' : Order) × (find j (modify id f db.orders) ≡ some o') × Continues o o'
      kept j o found =
          let (o', found', c) = h.kept j o found in
          elim (Bool-cases (j == id)) [
            | inl same ↦
                let same_id = (==_iff j id).0 same in
                let here : find id db.orders ≡ some o' = ground (arith, same_id, found') in
                (
                  f o',
                  rw same_id (find-modify_self id f db.orders here),
                  Continues-trans o o' (f o') c (fits o' here),
                )
            | inr other ↦ (o', find-modify_ne j id f db.orders (ground arith) ∙ found', c)
          ]

  -- A call that leaves the orders as they are.
  pub same-AllContinue :
      (db db' : Db) → db'.orders ≡ db.orders → AllContinue before db → AllContinue before db'
  same-AllContinue db db' e h = record { kept = λ j o found. rw e (h.kept j o found) }
