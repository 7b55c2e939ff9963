-- ===== src/Shop.antt =====
-- internal/shop.
pub mod Webhook
pub mod Service
pub mod SameOrder
