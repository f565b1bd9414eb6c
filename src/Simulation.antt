-- ===== src/Simulation.antt =====
-- The replay simulator: src/quantdesk/simulation/.
pub mod Liquidity
pub mod Queue
pub mod Trades
mod Tests
