-- ===== src/Persistence/RawJournal/Scan.antt =====
-- `_has_later_complete_frame` and `_scan` of src/quantdesk/persistence/raw_journal.py, and the frame
-- that `RawJournal.append` writes.
use rs_quant.Base.{
  ℕ, zero, suc, ◌+◌, ◌-◌, ◌*◌, Bool, false, not, ◌&&◌, ◌||◌, Option, none, some, List, [], ◌∷◌,
  ◌++◌, ◌==◌, Result, ok, raise, ◌>>=◌, ◌>>◌, raise_if, if◌then◌else◌, leb, ltb, length,
}
use rs_quant.Core.Types.{Ident}
use rs_quant.Persistence.RawJournal.Bytes.{Bytes, take, drop, starts_with, big_endian, number_of}
use rs_quant.Persistence.RawJournal.Metadata.{
  JournalLibrary, JournalError, incomplete_header, invalid_header, incomplete_frame, crc_mismatch,
  ordinal_discontinuity, validated_frame_ordinal,
}

-- b"QDJ1"
abbrev pub magic : Bytes
magic = 81 ∷ 68 ∷ 74 ∷ 49 ∷ []

abbrev pub header_size : ℕ
header_size = 16

abbrev pub max_metadata : ℕ
max_metadata = 64 * 1024

abbrev pub max_payload : ℕ
max_payload = 64 * 1024 * 1024

-- The lengths that a header declares.
abbrev pub metadata_length : Bytes → ℕ
metadata_length bytes = number_of (take 4 (drop 4 bytes))

abbrev pub payload_length : Bytes → ℕ
payload_length bytes = number_of (take 8 (drop 8 bytes))

-- The end of the frame at the start of the data.
abbrev pub frame_end : Bytes → ℕ
frame_end bytes = header_size + metadata_length bytes + payload_length bytes + 4

abbrev pub metadata_at : Bytes → Bytes
metadata_at bytes = take (metadata_length bytes) (drop header_size bytes)

abbrev pub payload_at : Bytes → Bytes
payload_at bytes = take (payload_length bytes) (drop (header_size + metadata_length bytes) bytes)

abbrev pub is_sized : Bytes → Bool
is_sized bytes = leb (metadata_length bytes) max_metadata && leb (payload_length bytes) max_payload

-- A chunk's frame, as `RawRef` and `_StoredFrame` keep it.
pub record RawRef : Type 0 where
  pub journal_id : Ident
  pub chunk_index : ℕ
  pub start_offset : ℕ
  pub end_offset : ℕ
  pub frame_ordinal : ℕ

pub record StoredFrame : Type 0 where
  pub ref : RawRef
  pub metadata : Bytes
  pub payload : Bytes

-- What stands at an offset: the rest of an interrupted write, or a complete frame.
pub data AtOffset : Type 0 where
  tail : AtOffset
  frame : Bytes → Bytes → ℕ → AtOffset

module _ (py : JournalLibrary) where
  abbrev pub crc_holds : Bytes → Bool
  crc_holds bytes =
      py.crc32 (take (frame_end bytes - 4) bytes)
      == number_of (take 4 (drop (frame_end bytes - 4) bytes))

  abbrev reaches : ℕ → Result JournalError ℕ → Bool
  reaches minimum (ok ordinal) = leb minimum ordinal
  reaches minimum (raise e) = false

  -- A complete frame at the start of the data, with a valid ordinal from the minimum on.
  unfoldable pub is_complete_frame : ℕ → Bytes → Bool
  is_complete_frame minimum bytes =
      leb header_size (length bytes)
      && is_sized bytes
      && leb (frame_end bytes) (length bytes)
      && crc_holds bytes
      && reaches minimum (validated_frame_ordinal py (metadata_at bytes))

  -- The search goes on behind a magic that it has found; `skip` bytes are passed over first.
  unfoldable pub later_complete_frame : ℕ → ℕ → Bytes → Bool
  unfolding is_complete_frame
  later_complete_frame minimum skip [] = false
  later_complete_frame minimum (suc skip) (b ∷ bs) = later_complete_frame minimum skip bs
  later_complete_frame minimum zero (b ∷ bs) =
      if starts_with magic (b ∷ bs)
      then is_complete_frame minimum (b ∷ bs) || later_complete_frame minimum 3 bs
      else later_complete_frame minimum 0 bs

  abbrev pub has_later_complete_frame : Bytes → ℕ → Bool
  has_later_complete_frame bytes minimum = later_complete_frame minimum 0 bytes

  -- The body of the loop of `_scan`.
  unfoldable pub read_frame : Bool → ℕ → Bytes → Result JournalError AtOffset
  unfolding later_complete_frame
  read_frame allow_tail ordinal bytes =
      if ltb (length bytes) header_size
      then (raise_if (not allow_tail) incomplete_header >> ok tail)
      else (do
        raise_if (not (starts_with magic bytes) || not (is_sized bytes)) invalid_header
        if ltb (length bytes) (frame_end bytes)
            then (do
              raise_if
                  (not allow_tail
                    || has_later_complete_frame (drop header_size bytes) (ordinal + 1))
                  incomplete_frame
              ok tail)
            else (do
              raise_if (not (crc_holds bytes)) crc_mismatch
              found ← validated_frame_ordinal py (metadata_at bytes)
              raise_if (not (found == ordinal)) ordinal_discontinuity
              ok (frame (metadata_at bytes) (payload_at bytes) (frame_end bytes))))

  module _ (journal_id : Ident) (chunk : ℕ) (allow_tail : Bool) where
    abbrev pub stored : ℕ → ℕ → Bytes → Bytes → ℕ → StoredFrame
    stored offset ordinal metadata payload size = record {
      ref = record {
        journal_id = journal_id;
        chunk_index = chunk;
        start_offset = offset;
        end_offset = offset + size;
        frame_ordinal = ordinal;
      };
      metadata = metadata;
      payload = payload;
    }

    abbrev pub add_frame :
        StoredFrame
        → Option (Result JournalError (List StoredFrame × ℕ))
        → Option (Result JournalError (List StoredFrame × ℕ))
    add_frame f none = none
    add_frame f (some (raise e)) = some (raise e)
    add_frame f (some (ok (fs, torn))) = some (ok (f ∷ fs, torn))

    -- A round of the loop, with the rest of the loop behind a frame of some size.
    abbrev pub after_read :
        ℕ
        → ℕ
        → Bytes
        → Result JournalError AtOffset
        → (ℕ → Option (Result JournalError (List StoredFrame × ℕ)))
        → Option (Result JournalError (List StoredFrame × ℕ))
    after_read offset ordinal bytes (raise e) rest = some (raise e)
    after_read offset ordinal bytes (ok tail) rest = some (ok ([], length bytes))
    after_read offset ordinal bytes (ok (frame metadata payload size)) rest =
        add_frame (stored offset ordinal metadata payload size) (rest size)

    -- The loop, which needs no more rounds than there are bytes; `none` is one that needs more.
    unfoldable pub scan_rounds :
        ℕ → ℕ → ℕ → Bytes → Option (Result JournalError (List StoredFrame × ℕ))
    unfolding read_frame
    scan_rounds rounds offset ordinal [] = some (ok ([], 0))
    scan_rounds zero offset ordinal (b ∷ bs) = none
    scan_rounds (suc rounds) offset ordinal (b ∷ bs) =
        after_read offset ordinal (b ∷ bs) (read_frame allow_tail ordinal (b ∷ bs))
          (λ size. scan_rounds rounds (offset + size) (ordinal + 1) (drop size (b ∷ bs)))

    -- `_scan`
    unfoldable pub scan : ℕ → Bytes → Option (Result JournalError (List StoredFrame × ℕ))
    unfolding scan_rounds
    scan first_ordinal bytes = scan_rounds (length bytes) 0 first_ordinal bytes

  -- `_HEADER.pack(_MAGIC, ...)`
  abbrev pub frame_header : ℕ → ℕ → Bytes
  frame_header metadata_size payload_size =
      magic ++ (big_endian 4 metadata_size ++ big_endian 8 payload_size)

  abbrev pub frame_body : Bytes → Bytes → Bytes
  frame_body metadata payload =
      frame_header (length metadata) (length payload) ++ (metadata ++ payload)

  -- The bytes that `append` writes.
  unfoldable pub encoded_frame : Bytes → Bytes → Bytes
  encoded_frame metadata payload =
      frame_body metadata payload ++ big_endian 4 (py.crc32 (frame_body metadata payload))
