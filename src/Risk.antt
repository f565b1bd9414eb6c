-- ===== src/Risk.antt =====
-- Risk: src/quantdesk/risk/.
pub mod Limits
pub mod Emergency
pub mod Flatten
mod Tests
