-- ===== src/Persistence.antt =====
-- The raw journal of src/quantdesk/persistence.
pub mod RawJournal
mod Tests
