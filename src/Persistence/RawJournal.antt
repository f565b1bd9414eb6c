-- ===== src/Persistence/RawJournal.antt =====
-- The frames of src/quantdesk/persistence/raw_journal.py: Bytes is the packing of integers, Metadata
-- the contract of a frame's metadata, Scan the reading of a chunk.
pub mod Bytes
pub mod Metadata
pub mod Scan
pub mod Frames
pub mod Recovery
pub mod Chunks
pub mod Torn
