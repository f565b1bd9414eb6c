-- ===== src/Core.antt =====
-- The event types that every component shares, and the clocks (src/quantdesk/core).
pub mod Types
pub mod Clock
mod Tests
