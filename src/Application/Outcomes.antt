-- ===== src/Application/Outcomes.antt =====
-- internal/application/reservation_service.go, what its calls answer.
pub mod Reserve
pub mod Settle
