-- ===== src/Data.antt =====
-- Market data: src/quantdesk/data/.
pub mod Json
pub mod Book
mod Tests
