-- ===== src/Postgres/Queries.antt =====
-- internal/infrastructure/postgres/queries: each statement as a function on the tables.
pub mod Orders
pub mod Payments
pub mod Events
pub mod Jobs
pub mod Skus
