-- ===== src/Portfolio/Ledger.antt =====
-- The account ledger of src/quantdesk/portfolio/ledger.py: Facts is its input and what it takes from
-- libraries, Reserve and Observe the branches that book nothing, Evidence what each financial payload
-- says, Known the duplicates, Book the booking, Apply the whole of `Ledger.apply`.
pub mod Facts
pub mod Reserve
pub mod Observe
pub mod Evidence
pub mod Known
pub mod Book
pub mod Apply
pub mod Postings
pub mod Balanced
pub mod Sums
pub mod Statement
pub mod Closing
pub mod Matches
pub mod Replay
pub mod Duplicates
