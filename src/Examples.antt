-- ===== src/Examples.antt =====
-- Concrete runs of the service, the demo, the handlers and the server's helpers.
pub mod Scenario
pub mod Calls
pub mod Boundary
pub mod Server
pub mod Locks
pub mod Durable
pub mod Metrics
pub mod Startup
