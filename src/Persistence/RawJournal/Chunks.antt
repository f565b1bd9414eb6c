-- ===== src/Persistence/RawJournal/Chunks.antt =====
-- What a scan says of any bytes, of a chunk, and of a chunk whose last write was interrupted
-- (`_scan` of src/quantdesk/persistence/raw_journal.py).
use rs_quant.Base.{
  ℕ, zero, suc, ◌+◌, ◌≤◌, ◌≡◌, refl, sym, ap, ◌∙◌, Bool, true, ◌&&◌, Option, none, some, List, [],
  ◌∷◌, ◌++◌, Result, ok, raise, leb, length, arith, is_some,
}
use rs_quant.Core.Types.{Ident}
use rs_quant.Persistence.RawJournal.Bytes.{
  Bytes, take, drop, append_assoc, append_nil, big_endian, number_of, take_at, drop_at,
  length-big_endian, number_of-big_endian, length-drop_le,
}
use rs_quant.Persistence.RawJournal.Metadata.{JournalLibrary, JournalError}
use rs_quant.Persistence.RawJournal.Scan.{
  max_metadata, max_payload, metadata_length, payload_length, frame_end, is_sized, AtOffset, tail,
  frame, read_frame, StoredFrame, stored, add_frame, after_read, scan_rounds, scan, frame_header,
}
use rs_quant.Persistence.RawJournal.Frames.{IsCrc}
use rs_quant.Persistence.RawJournal.Recovery.{
  Written, encode_all, AreFrames, stored_all, add_frames, tail_step, scan_frames,
}

module _ (py : JournalLibrary) (journal_id : Ident) (chunk : ℕ) (allow_tail : Bool) where
  frame-advances :
      (ordinal : ℕ) (bytes m p : Bytes) (size : ℕ)
      → read_frame py allow_tail ordinal bytes ≡ ok (frame m p size)
      → 1 ≤ size
  unfolding read_frame
  frame-advances ordinal bytes m p size e = ground arith

  rest_shorter : (n b : ℕ) (bs : Bytes) → 1 ≤ n → length (drop n (b ∷ bs)) ≤ length bs
  rest_shorter zero b bs h = ground arith
  rest_shorter (suc n) b bs h = length-drop_le n bs

  added-returns :
      (f : StoredFrame) (out : Option (Result JournalError (List StoredFrame × ℕ)))
      → is_some out ≡ true
      → is_some (add_frame py journal_id chunk allow_tail f out) ≡ true
  added-returns f none h = h
  added-returns f (some (raise e)) h = refl
  added-returns f (some (ok (fs, n))) h = refl

  after-returns :
      (offset ordinal : ℕ) (bytes : Bytes) (x : Result JournalError AtOffset)
      (rest : ℕ → Option (Result JournalError (List StoredFrame × ℕ)))
      → ((m p : Bytes) (size : ℕ) → x ≡ ok (frame m p size) → is_some (rest size) ≡ true)
      → is_some (after_read py journal_id chunk allow_tail offset ordinal bytes x rest) ≡ true
  after-returns offset ordinal bytes (raise e) rest h = refl
  after-returns offset ordinal bytes (ok tail) rest h = refl
  after-returns offset ordinal bytes (ok (frame m p size)) rest h =
      added-returns (stored py journal_id chunk allow_tail offset ordinal m p size) (rest size)
        (h m p size refl)

  rounds-enough :
      (r offset ordinal : ℕ) (bytes : Bytes)
      → length bytes ≤ r
      → is_some (scan_rounds py journal_id chunk allow_tail r offset ordinal bytes) ≡ true
  unfolding scan_rounds
  rounds-enough r offset ordinal [] h = refl
  rounds-enough zero offset ordinal (b ∷ bs) h = ground arith
  rounds-enough (suc r) offset ordinal (b ∷ bs) h =
      after-returns offset ordinal (b ∷ bs) (read_frame py allow_tail ordinal (b ∷ bs)) _
        (λ m p size e.
          rounds-enough r (offset + size) (ordinal + 1) (drop size (b ∷ bs))
            (omega (arith, rest_shorter size b bs (frame-advances ordinal (b ∷ bs) m p size e))))

  -- A scan of any bytes at all ends within as many rounds as there are bytes.
  pub scan-returns :
      (first_ordinal : ℕ) (bytes : Bytes)
      → is_some (scan py journal_id chunk allow_tail first_ordinal bytes) ≡ true
  unfolding scan
  scan-returns first_ordinal bytes =
      rounds-enough (length bytes) 0 first_ordinal bytes (omega arith)

  pub added :
      (fs : List StoredFrame) (n : ℕ)
      → add_frames py journal_id chunk allow_tail fs (some (ok ([], n))) ≡ some (ok (fs, n))
  added [] n = refl
  added (f ∷ fs) n = ap (add_frame py journal_id chunk allow_tail f) (added fs n)

  -- A chunk of the frames that were appended, whatever their contents, is scanned into exactly these
  -- frames, with their offsets and ordinals, and nothing is left over.
  pub scan-encode_all :
      (first_ordinal : ℕ) (fs : List Written)
      → IsCrc py
      → AreFrames py first_ordinal fs
      → scan py journal_id chunk allow_tail first_ordinal (encode_all py fs)
        ≡ some (ok (stored_all py journal_id chunk 0 first_ordinal fs, 0))
  unfolding scan
  scan-encode_all first_ordinal fs c w =
      let whole : encode_all py fs ++ [] ≡ encode_all py fs = append_nil (encode_all py fs) in
      ap (scan_rounds py journal_id chunk allow_tail (length (encode_all py fs)) 0 first_ordinal)
        (sym whole)
      ∙ scan_frames py journal_id chunk allow_tail (length (encode_all py fs)) 0 first_ordinal fs []
          (some (ok ([], 0))) c w
          (λ k o l.
            tail_step py journal_id chunk allow_tail k o (first_ordinal + length fs) []
              (λ n. ground arith) l)
          (omega (arith, ap length whole))
      ∙ added (stored_all py journal_id chunk 0 first_ordinal fs) 0

-- An interrupted write: the first bytes of a frame.
module _ (py : JournalLibrary) (m p : Bytes) (hm : length m ≤ max_metadata)
    (hp : length p ≤ max_payload) where
  abbrev pub header : Bytes
  header = frame_header py (length m) (length p)

  metadata_length_of : (z : Bytes) → metadata_length (header ++ z) ≡ length m
  metadata_length_of z =
      ap (λ r. number_of (take 4 r))
        (append_assoc (big_endian 4 (length m)) (big_endian 8 (length p)) z)
      ∙ ap number_of (
          take_at 4 (big_endian 4 (length m)) (big_endian 8 (length p) ++ z)
            (length-big_endian 4 (length m)))
      ∙ number_of-big_endian 4 (length m) (omega arith)

  payload_length_of : (z : Bytes) → payload_length (header ++ z) ≡ length p
  payload_length_of z =
      ap (λ r. number_of (take 8 (drop 4 r)))
        (append_assoc (big_endian 4 (length m)) (big_endian 8 (length p)) z)
      ∙ ap (λ r. number_of (take 8 r))
          (drop_at 4 (big_endian 4 (length m)) (big_endian 8 (length p) ++ z)
            (length-big_endian 4 (length m)))
      ∙ ap number_of (take_at 8 (big_endian 8 (length p)) z (length-big_endian 8 (length p)))
      ∙ number_of-big_endian 8 (length p) (omega arith)

  pub sized_of : (z : Bytes) → is_sized (header ++ z) ≡ true
  sized_of z =
      let a : leb (length m) max_metadata ≡ true = ground arith in
      let b : leb (length p) max_payload ≡ true = ground arith in
      ap (λ n. leb n max_metadata && leb (payload_length (header ++ z)) max_payload)
        (metadata_length_of z)
      ∙ ap (λ n. leb (length m) max_metadata && leb n max_payload) (payload_length_of z)
      ∙ rw a b

  pub frame_end_of : (z : Bytes) → frame_end (header ++ z) ≡ 16 + length m + length p + 4
  frame_end_of z = omega (arith, metadata_length_of z, payload_length_of z)
