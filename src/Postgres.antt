-- ===== src/Postgres.antt =====
-- internal/infrastructure/postgres and the tables of migrations/001_initial.sql.
pub mod Migration
pub mod Schema
pub mod Tx
pub mod Ids
pub mod Silent
pub mod Evolution
pub mod Queries
pub mod Repositories
