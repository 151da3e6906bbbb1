-- ===== src/Infrastructure.antt =====
-- internal/infrastructure: the repository contract and its in-memory implementation.
pub mod Repository
pub mod InMemory
pub mod LockManager
pub mod Clock
pub mod Tables
pub mod Statements
pub mod Postgres
pub mod Migrations
