-- ===== src/Sap.antt =====
-- internal/infrastructure/sap: the client that sends an order to SAP.
pub mod Response
pub mod Outcome
pub mod Retries
pub mod Inflight
pub mod Interleaving
pub mod Callers
pub mod Waiters
