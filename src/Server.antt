-- ===== src/Server.antt =====
-- cmd/server/main.go: what the server does besides its wiring.
pub mod Seed
pub mod Health
pub mod Sweeper
