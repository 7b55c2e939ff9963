-- ===== src/Postgres/Evolution.antt =====
-- How the tables may change in a webhook's transaction: each statement, and so each sequence of
-- statements, takes the tables to ones that come after them in this order.
mod Tables
pub use Tables.*
mod Calls
pub use Calls.*
mod Statements
pub use Statements.*
mod Repositories
pub use Repositories.*
