-- ===== src/Payment.antt =====
-- internal/payment.
pub mod Webhook
pub mod Service
