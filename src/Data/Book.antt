-- ===== src/Data/Book.antt =====
-- The order book of src/quantdesk/data/orderbook/: its data, `sequence.py` (Sequence), `validator.py`
-- (Levels) and `builder.py` (Builder). Validity is about what the builder publishes, Delta about
-- what one message does to a side.
pub mod Types
pub mod Sequence
pub mod Levels
pub mod Builder
pub mod Apply
pub mod Ordered
pub mod Validity
pub mod Runs
pub mod Broken
pub mod Delta
