-- ===== src/Http.antt =====
-- internal/interface/http: the handlers and the ids that they accept.
pub mod ExternalId
pub mod Handler
pub mod Metrics
