-- ===== src/Execution.antt =====
-- Orders from approval to settlement (src/quantdesk/execution).
pub mod Permits
pub mod OrderState
pub mod Intents
pub mod Oms
pub mod Protection
mod Tests
