-- ===== src/Providers/Status.antt =====
-- src/modules/providers/statusMapper.js: from a provider's status text to the order's status.
pub mod Refunds
mod Tests
use kanz_coins_backend.Prelude.{Bool, true, false, ◌||◌, Option, none, some, List, [], ◌∷◌}
use kanz_coins_backend.Prelude.Tests.{if◌then◌else◌}
use kanz_coins_backend.Prelude.Text.{Text, codes, same_text, to_lower_case, trim, includes, get}
use kanz_coins_backend.Db.{OrderStatus}

-- `_MAP`
unfoldable pub status_map : List (Text × OrderStatus)
status_map =
    (codes "completed", OrderStatus.completed)
    ∷ (codes "complete", OrderStatus.completed)
    ∷ (codes "success", OrderStatus.completed)
    ∷ (codes "done", OrderStatus.completed)
    ∷ (codes "accept", OrderStatus.completed)
    ∷ (codes "accepted", OrderStatus.completed)
    ∷ (codes "ok", OrderStatus.completed)
    ∷ (codes "delivered", OrderStatus.completed)
    ∷ (codes "fulfilled", OrderStatus.completed)
    ∷ (codes "processing", OrderStatus.processing)
    ∷ (codes "in_progress", OrderStatus.processing)
    ∷ (codes "in progress", OrderStatus.processing)
    ∷ (codes "inprogress", OrderStatus.processing)
    ∷ (codes "in_process", OrderStatus.processing)
    ∷ (codes "running", OrderStatus.processing)
    ∷ (codes "active", OrderStatus.processing)
    ∷ (codes "pending", OrderStatus.processing)
    ∷ (codes "queued", OrderStatus.processing)
    ∷ (codes "wait", OrderStatus.processing)
    ∷ (codes "waiting", OrderStatus.processing)
    ∷ (codes "awaiting", OrderStatus.processing)
    ∷ (codes "new", OrderStatus.processing)
    ∷ (codes "created", OrderStatus.processing)
    ∷ (codes "placement_uncertain", OrderStatus.processing)
    ∷ (codes "partial", OrderStatus.partial)
    ∷ (codes "partially_completed", OrderStatus.partial)
    ∷ (codes "partial_complete", OrderStatus.partial)
    ∷ (codes "cancelled", OrderStatus.canceled)
    ∷ (codes "canceled", OrderStatus.canceled)
    ∷ (codes "cancel", OrderStatus.canceled)
    ∷ (codes "failed", OrderStatus.failed)
    ∷ (codes "fail", OrderStatus.failed)
    ∷ (codes "error", OrderStatus.failed)
    ∷ (codes "rejected", OrderStatus.failed)
    ∷ (codes "reject", OrderStatus.failed)
    ∷ (codes "refunded", OrderStatus.failed)
    ∷ (codes "expired", OrderStatus.failed)
    ∷ []

-- What `_MAP[key]` gives when it is truthy: a status, or a member that the object inherits from
-- `Object.prototype`. Of the inherited names only these two have no capital letter.
pub data Mapped : Type 0 where
  status : OrderStatus → Mapped
  inherited : Mapped

unfoldable pub inherited_keys : List Text
inherited_keys = codes "constructor" ∷ codes "__proto__" ∷ []

-- `String(providerStatus ?? '').toLowerCase().trim()`
abbrev pub status_key : Option Text → Text
status_key none = trim (to_lower_case [])
status_key (some s) = trim (to_lower_case s)

unfoldable pub map_key : Text → Mapped
map_key key = elim (get key status_map) [
  | some s ↦ status s
  | none ↦ if includes key inherited_keys then inherited else status OrderStatus.processing
]

-- `toInternalStatus`
unfoldable pub to_internal_status : Option Text → Mapped
to_internal_status provider_status = map_key (status_key provider_status)

abbrev pub ends_order : Mapped → Bool
ends_order (status OrderStatus.completed) = true
ends_order (status OrderStatus.failed) = true
ends_order (status OrderStatus.canceled) = true
ends_order (status OrderStatus.partial) = true
ends_order _ = false

-- `isTerminal`
unfoldable pub is_terminal : Option Text → Bool
is_terminal provider_status = ends_order (to_internal_status provider_status)

-- The two lists of `requiresRefund`.
unfoldable pub full_refund_keys : List Text
full_refund_keys =
    codes "cancelled"
    ∷ codes "canceled"
    ∷ codes "cancel"
    ∷ codes "failed"
    ∷ codes "fail"
    ∷ codes "error"
    ∷ codes "reject"
    ∷ codes "rejected"
    ∷ codes "refunded"
    ∷ codes "expired"
    ∷ []

unfoldable pub partial_refund_keys : List Text
partial_refund_keys = codes "partial" ∷ codes "partially_completed" ∷ codes "partial_complete" ∷ []

-- `requiresRefund`
unfoldable pub requires_refund : Option Text → Bool
requires_refund provider_status =
    let key = status_key provider_status in
    if includes key full_refund_keys
    then true
    else if includes key partial_refund_keys
    then true
    else false
