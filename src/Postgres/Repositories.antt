-- ===== src/Postgres/Repositories.antt =====
-- internal/infrastructure/postgres/repositories: what each method does with its statement's rows.
pub mod Orders
pub mod Payments
pub mod Events
pub mod Watch
