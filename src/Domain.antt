-- ===== src/Domain.antt =====
-- internal/domain: the product counters, the reservations, the event log's records and the sentinel
-- errors.
pub mod Inventory
pub mod Reservation
pub mod Event
pub mod Errors
