-- ===== src/Portfolio.antt =====
-- Positions and the ledger (src/quantdesk/portfolio).
pub mod State
pub mod Amounts
pub mod Instruments
pub mod Positions
pub mod Ledger
mod Tests
