-- ===== src/Orders.antt =====
-- Orders after their creation: src/modules/orders/order.service.js (refunds and completion),
-- src/modules/orders/orderFulfillment.service.js (provider results), and the administrator's
-- operations of src/modules/admin/admin.orders.service.js.
pub mod Refund
pub mod Fulfillment
pub mod Admin
pub mod Branches
pub mod Polling
pub mod Proportional
pub mod Payments
pub mod Lifecycle
pub mod Overrides
mod Tests
pub mod Quota
pub mod Results
pub mod Once
pub mod Graph
