-- ===== src/App.antt =====
-- internal/app: the HTTP routes, and the hooks that start and stop the process.
pub mod Router
pub mod Replies
pub mod Routes
pub mod Answers
pub mod RequestIds
pub mod Lifecycle
