-- ===== src/Worker.antt =====
-- internal/sync: the worker that delivers paid orders to SAP.
pub mod Retry
pub mod Job
pub mod Deliver
pub mod Claims
pub mod Order
pub mod Attempts
pub mod Requests
pub mod Wake
pub mod Loop
pub mod Budget
pub mod Settle
pub mod Finish
pub mod Control
pub mod Stale
