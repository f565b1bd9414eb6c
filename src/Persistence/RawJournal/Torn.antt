-- ===== src/Persistence/RawJournal/Torn.antt =====
-- A chunk whose last write was interrupted (`_scan` of src/quantdesk/persistence/raw_journal.py).
use rs_quant.Base.{
  ℕ, ◌+◌, ◌-◌, ◌≤◌, ◌<◌, ◌≡◌, refl, sym, ap, ◌∙◌, true, false, some, List, [], ◌∷◌, ◌++◌, ok, raise,
  leb, ltb, length, arith, Bool-cases, inl, inr,
}
use rs_quant.Core.Types.{Ident}
use rs_quant.Persistence.RawJournal.Bytes.{
  Bytes, take, drop, starts_with, append_assoc, append_nil, length-take, take_beyond, big_endian,
}
use rs_quant.Persistence.RawJournal.Metadata.{
  JournalLibrary, JournalError, incomplete_header, incomplete_frame,
}
use rs_quant.Persistence.RawJournal.Scan.{
  magic, header_size, max_metadata, max_payload, frame_end, is_sized, tail, read_frame, StoredFrame,
  scan, add_frame, encoded_frame, frame_body, has_later_complete_frame,
}
use rs_quant.Persistence.RawJournal.Frames.{IsCrc, length-encoded_frame, length-header}
use rs_quant.Persistence.RawJournal.Recovery.{
  Written, encode_all, AreFrames, stored_all, add_frames, tail_step, raise_step, scan_frames,
}
use rs_quant.Persistence.RawJournal.Chunks.{header, sized_of, frame_end_of, added}

-- What a scan says of an interrupted frame, with and without a tail allowed.
record IsTorn (py : JournalLibrary) (ordinal : ℕ) (bytes : Bytes) : Type 0 where
  open_chunk :
      (16 ≤ length bytes
        → has_later_complete_frame py (drop header_size bytes) (ordinal + 1) ≡ false)
      → read_frame py true ordinal bytes ≡ ok tail
  sealed_chunk : (e : JournalError) × (read_frame py false ordinal bytes ≡ raise e)

short-IsTorn :
    (py : JournalLibrary) (ordinal : ℕ) (bytes : Bytes)
    → length bytes < header_size
    → IsTorn py ordinal bytes
unfolding read_frame
short-IsTorn py ordinal bytes h =
    let a : ltb (length bytes) header_size ≡ true = ground arith in
    record { open_chunk = λ l. rw a refl; sealed_chunk = (incomplete_header, rw a refl) }

long-IsTorn :
    (py : JournalLibrary) (ordinal : ℕ) (bytes : Bytes)
    → header_size ≤ length bytes
    → starts_with magic bytes ≡ true
    → is_sized bytes ≡ true
    → length bytes < frame_end bytes
    → IsTorn py ordinal bytes
unfolding read_frame
long-IsTorn py ordinal bytes l s z t =
    let a : ltb (length bytes) header_size ≡ false = ground arith in
    let b : ltb (length bytes) (frame_end bytes) ≡ true = ground arith in
    record {
      open_chunk = λ later. rw a (rw s (rw z (rw b (rw (later l) refl))));
      sealed_chunk = (incomplete_frame, rw a (rw s (rw z (rw b refl))));
    }

module _ (py : JournalLibrary) (m p : Bytes) (n : ℕ) (hm : length m ≤ max_metadata)
    (hp : length p ≤ max_payload) (short : n < 16 + length m + length p + 4) where
  -- The bytes of the frame that were written.
  abbrev pub torn : Bytes
  torn = take n (encoded_frame py m p)

  length-encoded : length (encoded_frame py m p) ≡ 16 + length m + length p + 4
  length-encoded =
      ap length (sym (append_nil (encoded_frame py m p)))
      ∙ length-encoded_frame py m p [] hm hp
      ∙ omega arith

  pub length-torn : length torn ≡ n
  length-torn = length-take n (encoded_frame py m p) (omega (arith, length-encoded))

  torn_header : 16 ≤ n → (z : Bytes) × (torn ≡ header py m p hm hp ++ z)
  unfolding encoded_frame
  torn_header long =
      let h = header py m p hm hp in
      let crc = big_endian 4 (py.crc32 (frame_body py m p)) in
      let z = take (n - length h) ((m ++ p) ++ crc) in
      (
        z,
        ap (take n) (append_assoc h (m ++ p) crc)
            ∙ take_beyond h ((m ++ p) ++ crc) n (omega (arith, length-header py m p [])),
      )

  torn-IsTorn : (ordinal : ℕ) → IsTorn py ordinal torn
  torn-IsTorn ordinal = elim (Bool-cases (leb 16 n)) [
    | inl yes' ↦
        let long : 16 ≤ n = ground arith in
        let (z, e) = torn_header long in
        let h = header py m p hm hp in
        long-IsTorn py ordinal torn (omega (arith, length-torn)) (ap (starts_with magic) e)
          (ap is_sized e ∙ sized_of py m p hm hp z)
          (omega (arith, length-torn, ap frame_end e, frame_end_of py m p hm hp z))
    | inr no' ↦ short-IsTorn py ordinal torn (ground (arith, length-torn))
  ]

  module _ (journal_id : Ident) (chunk first_ordinal : ℕ) (fs : List Written) where
    -- A chunk of appended frames, followed by the first bytes of one more frame whose write was
    -- interrupted, and of which no part looks like a complete later frame, is recovered: where a torn
    -- tail is allowed, the scan gives all the frames and the number of bytes to cut off.
    pub scan-torn :
        IsCrc py
        → AreFrames py first_ordinal fs
        → (16 ≤ n
            → has_later_complete_frame py (drop header_size torn) (first_ordinal + length fs + 1)
              ≡ false)
        → scan py journal_id chunk true first_ordinal (encode_all py fs ++ torn)
          ≡ some (ok (stored_all py journal_id chunk 0 first_ordinal fs, n))
    unfolding scan
    scan-torn c w later =
        let t = torn-IsTorn (first_ordinal + length fs) in
        scan_frames py journal_id chunk true (length (encode_all py fs ++ torn)) 0 first_ordinal fs
          torn (some (ok ([], length torn))) c w
          (λ k o l.
            tail_step py journal_id chunk true k o (first_ordinal + length fs) torn
              (λ x. t.open_chunk (λ y. later (omega (arith, length-torn)))) l)
          (omega arith)
        ∙ added py journal_id chunk true (stored_all py journal_id chunk 0 first_ordinal fs)
            (length torn)
        ∙ ap (λ k. some (ok (stored_all py journal_id chunk 0 first_ordinal fs, k))) length-torn

    raised :
        (xs : List StoredFrame) (e : JournalError)
        → add_frames py journal_id chunk false xs (some (raise e)) ≡ some (raise e)
    raised [] e = refl
    raised (x ∷ xs) e = ap (add_frame py journal_id chunk false x) (raised xs e)

    -- The same bytes in a sealed chunk are refused with an error, unless nothing of the last frame was
    -- written.
    pub scan-torn_sealed :
        IsCrc py
        → AreFrames py first_ordinal fs
        → 1 ≤ n
        → (e : JournalError) × (scan py journal_id chunk false first_ordinal
              (encode_all py fs ++ torn)
            ≡ some (raise e))
    unfolding scan
    scan-torn_sealed c w some_bytes =
        let t = torn-IsTorn (first_ordinal + length fs) in
        let (e, refused) = t.sealed_chunk in
        (
          e,
          scan_frames py journal_id chunk false (length (encode_all py fs ++ torn)) 0 first_ordinal
                fs torn (some (raise e)) c w
                (λ k o l.
                  raise_step py journal_id chunk false k o (first_ordinal + length fs) torn e
                    (omega (arith, length-torn)) refused l)
                (omega arith)
              ∙ raised (stored_all py journal_id chunk 0 first_ordinal fs) e,
        )
