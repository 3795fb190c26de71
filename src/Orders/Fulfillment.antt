-- ===== src/Orders/Fulfillment.antt =====
-- src/modules/orders/orderFulfillment.service.js: the automatic refund of a failed order and the
-- result of one status check. The raw response of the provider is kept as its two `remains` values.
use kanz_coins_backend.Prelude.{
  ℕ, ◌+◌, ◌*◌, ◌-◌, Bool, true, false, not, ◌&&◌, Option, none, some, [], ◌∷◌,
}
use kanz_coins_backend.Prelude.Int.{ℤ, pos, ◌-ℤ◌, leb_ℤ}
use kanz_coins_backend.Prelude.Tests.{if◌then◌else◌, leb, ◌==◌}
use kanz_coins_backend.Prelude.Text.{Text, trim_start}
use kanz_coins_backend.Prelude.Table.{find, modify}
use kanz_coins_backend.Prelude.Exec.{Exec, pure, throw, in_session, catch, ◌>>=◌, ◌>>◌}
use kanz_coins_backend.Money.{Amount}
use kanz_coins_backend.Errors.{Error}
use kanz_coins_backend.Db.{Db, Order, OrderStatus, max_retry_count}
use kanz_coins_backend.Wallet.{refund_wallet_atomic}
use kanz_coins_backend.Orders.Refund.{save_order, refundable_amount, process_order_refund}
use kanz_coins_backend.Providers.Status.{
  Mapped, status, to_internal_status, is_terminal, requires_refund,
}

-- A value in a provider's response: absent or null, a whole number, or a text.
pub data RawValue : Type 0 where
  absent : RawValue
  number : ℤ → RawValue
  text : Text → RawValue

pub record StatusResult : Type 0 where
  pub provider_status : Option Text
  -- `rawResponse.remains` and `rawResponse.data.remains`
  pub remains : RawValue
  pub data_remains : RawValue

-- The leading digits of a text, with what they add to `acc`; none if there is no digit.
abbrev digits_from : ℕ → Text → ℕ
digits_from acc [] = acc
digits_from acc (c ∷ s) =
    let more = digits_from (acc * 10 + (c - b'0')) s in
    if leb b'0' c && leb c b'9' then more else acc

-- `parseInt(text, 10) || 0`
abbrev pub parse_int : Text → ℤ
parse_int s = elim (trim_start s) [
  | [] ↦ pos 0
  | c ∷ rest ↦
      if c == b'-'
      then pos 0 -ℤ pos (digits_from 0 rest)
      else if c == b'+'
      then pos (digits_from 0 rest)
      else pos (digits_from 0 (c ∷ rest))
]

abbrev is_truthy : RawValue → Bool
is_truthy absent = false
is_truthy (number n) = not (leb_ℤ n (pos 0) && leb_ℤ (pos 0) n)
is_truthy (text []) = false
is_truthy (text (c ∷ s)) = true

abbrev raw_int : RawValue → ℤ
raw_int absent = pos 0
raw_int (number n) = n
raw_int (text s) = parse_int s

-- `parseInt(rawResponse.remains || rawResponse.data.remains || '0', 10) || 0`
abbrev pub extract_remains : StatusResult → ℤ
extract_remains result =
    if is_truthy result.remains
    then raw_int result.remains
    else if is_truthy result.data_remains
    then raw_int result.data_remains
    else pos 0

abbrev pub is_processing : OrderStatus → Bool
is_processing OrderStatus.processing = true
is_processing _ = false

-- `Order.findOneAndUpdate({ _id, …guard }, { $set }, { new: true })`: one step of the server,
-- whose result is the document after the write.
unfoldable pub find_order_and_update :
    ℕ → (Order → Bool) → (Order → Order) → Exec Db Error (Option Order)
find_order_and_update id guard update db = elim (find id db.orders) [
  | none ↦ (pure none db)
  | some o ↦
      if guard o
      then pure (some (update o)) (record db { orders = modify id update db.orders })
      else pure none db
]

-- `transitionFromProcessing` with no extra filter
unfoldable pub transition_from_processing : ℕ → (Order → Order) → Exec Db Error (Option Order)
transition_from_processing order_id set =
    find_order_and_update order_id (λ o. is_processing o.status) set

abbrev pub set_refund_flag : ℕ → Order → Order
set_refund_flag now o = record o { refunded = true; refunded_at = some now }

abbrev pub clear_refund_flag : Order → Order
clear_refund_flag o = record o { refunded = false; refunded_at = none }

pub data Action : Type 0 where
  skipped pending manual_review completed failed : Action

-- The documents that the branches of a terminal result save.
abbrev pub set_terminal : ℕ → OrderStatus → StatusResult → Order → Order
set_terminal now s result o = record o {
  status = s;
  provider_status = result.provider_status;
  last_checked_at = some now;
}

abbrev pub set_partial : ℕ → StatusResult → Order → Order
set_partial now result o =
    let o' = set_terminal now OrderStatus.partial result o in
    record o' { remains = extract_remains result }

-- `status` is CANCELED or FAILED
abbrev pub set_ended : ℕ → OrderStatus → StatusResult → Order → Order
set_ended now s result o =
    let o' = set_terminal now s result o in record o' { failed_at = some now }

-- The documents of a result that is not terminal.
abbrev pub set_checked : ℕ → ℕ → StatusResult → Order → Order
set_checked now retry result o = record o {
  provider_status = result.provider_status;
  retry_count = retry;
  last_checked_at = some now;
}

abbrev pub set_manual_review : ℕ → ℕ → StatusResult → Order → Order
set_manual_review now retry result o =
    let o' = set_checked now retry result o in record o' { status = OrderStatus.manual_review }

-- The result of a branch whose transition may have matched nothing.
abbrev pub if_moved : Option Order → (Order → Exec Db Error Action) → Exec Db Error Action
if_moved none next = pure Action.skipped
if_moved (some o) next = next o

-- The refund's error is logged and dropped.
abbrev pub then_refund : {A : Type 0} → Exec Db Error A → Exec Db Error Action
then_refund refund = catch (refund >> pure Action.failed) (λ _. pure Action.failed)

-- The branch of a result that is not terminal: one more try, or the manual review.
unfoldable pub count_retry : ℕ → ℕ → Order → StatusResult → Exec Db Error Action
count_retry now order_id order result =
    let new_retry = order.retry_count + 1 in
    if leb max_retry_count new_retry
    then (do
      moved ← transition_from_processing order_id (set_manual_review now new_retry result)
      if_moved moved (λ _. pure Action.manual_review))
    else (do
      kept ← transition_from_processing order_id (set_checked now new_retry result)
      if_moved kept (λ _. pure Action.pending))

unfoldable pub complete_terminal : ℕ → ℕ → StatusResult → Exec Db Error Action
complete_terminal now order_id result = do
  moved ← transition_from_processing order_id (set_terminal now OrderStatus.completed result)
  if_moved moved (λ _. pure Action.completed)

module _ (round : Amount → Amount) where
  -- What `refundFailedOrder` does once it has set the flag, from the document it was given.
  unfoldable pub pay_refund : ℕ → Order → Exec Db Error Bool
  pay_refund order_id order =
      let undo = save_order order_id clear_refund_flag in
      let total_refund = refundable_amount order in
      if leb_ℤ total_refund (pos 0)
      then (undo >> pure false)
      else catch
          (in_session true (
              refund_wallet_atomic round order.user_id total_refund order.credit_used_amount
                (some order_id))
            >> pure true)
          (λ e. undo >> throw e)

  -- `refundFailedOrder`, on a server that has transactions
  unfoldable pub refund_failed_order : ℕ → ℕ → Order → Exec Db Error Bool
  refund_failed_order now order_id order = do
    swapped ← find_order_and_update order_id (λ o. not o.refunded) (set_refund_flag now)
    elim swapped [ none ↦ pure false | some _ ↦ pay_refund order_id order ]

  -- PARTIAL, CANCELED, or any other status: the status and the refund it calls for.
  unfoldable pub refund_terminal : Bool → ℕ → ℕ → StatusResult → Mapped → Exec Db Error Action
  refund_terminal transactions now order_id result (status OrderStatus.partial) = do
    moved ← transition_from_processing order_id (set_partial now result)
    if_moved moved (λ _.
        then_refund (process_order_refund round transactions now order_id (extract_remains result)))
  refund_terminal transactions now order_id result (status OrderStatus.canceled) = do
    moved ← transition_from_processing order_id (set_ended now OrderStatus.canceled result)
    if_moved moved (λ _. then_refund (process_order_refund round transactions now order_id (pos 0)))
  refund_terminal transactions now order_id result mapped = do
    moved ← transition_from_processing order_id (set_ended now OrderStatus.failed result)
    if_moved moved (λ o. then_refund (refund_failed_order now order_id o))

  -- `processOrderStatusResult`, for a document that was read before the provider was asked.
  unfoldable pub process_order_status_result :
      Bool → ℕ → ℕ → Order → StatusResult → Exec Db Error Action
  process_order_status_result transactions now order_id order result =
      if not (is_processing order.status)
      then pure skipped
      else if not (is_terminal result.provider_status)
      then count_retry now order_id order result
      else if not (requires_refund result.provider_status)
      then complete_terminal now order_id result
      else refund_terminal transactions now order_id result
          (to_internal_status result.provider_status)
