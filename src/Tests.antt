-- ===== src/Tests.antt =====
-- Runs on concrete data, and each property at an input that meets its hypotheses.
mod Data
mod Webhooks
mod Order
mod Cancellation
mod Worker
mod Settings
mod Sap
mod Router
mod Routes
mod Delay
mod Loop
mod Operations
mod System
mod Listener
