-- ===== src/Wallet/Database.antt =====
-- What the services rely on in the database server's aggregation language.
use kanz_coins_backend.Prelude.{◌≡◌}
use kanz_coins_backend.Money.{Amount}
use kanz_coins_backend.Money.Cents.{IsCents}

-- `{ $round: [x, 2] }` leaves a number alone that has two decimal places already.
pub record KeepsCents (round : Amount → Amount) : Type 0 where
  pub on_cents : (a : Amount) → IsCents a → round a ≡ a
