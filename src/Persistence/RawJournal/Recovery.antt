-- ===== src/Persistence/RawJournal/Recovery.antt =====
-- A chunk of frames, whole or torn, is scanned into its frames (`_scan` of
-- src/quantdesk/persistence/raw_journal.py).
use rs_quant.Base.{
  ℕ, zero, suc, ◌+◌, ◌≤◌, ◌≡◌, refl, ap, ◌∙◌, Bool, true, Option, some, List, [], ◌∷◌, ◌++◌, Result,
  ok, raise, length, arith,
}
use rs_quant.Core.Types.{Ident}
use rs_quant.Persistence.RawJournal.Bytes.{Bytes, drop, append_assoc}
use rs_quant.Persistence.RawJournal.Metadata.{JournalLibrary, JournalError, validated_frame_ordinal}
use rs_quant.Persistence.RawJournal.Scan.{
  max_metadata, max_payload, tail, frame, read_frame, StoredFrame, stored, add_frame, after_read,
  scan_rounds, encoded_frame,
}
use rs_quant.Persistence.RawJournal.Frames.{
  IsCrc, read_frame-encoded_frame, drop-encoded_frame, length-encoded_frame,
}

-- The metadata and the payload of a frame.
abbrev pub Written : Type 0
Written = Bytes × Bytes

abbrev pub frame_size : Written → ℕ
frame_size f = 16 + length f.0 + length f.1 + 4

module _ (py : JournalLibrary) where
  -- The bytes of a chunk to which the frames were appended.
  unfoldable pub encode_all : List Written → Bytes
  encode_all [] = []
  encode_all (f ∷ fs) = encoded_frame py f.0 f.1 ++ encode_all fs

  -- Frames that `append` accepts one after the other, from an ordinal on.
  unfoldable pub AreFrames : ℕ → List Written → Type 0
  AreFrames ordinal [] = Unit
  AreFrames ordinal (f ∷ fs) =
      (length f.0 ≤ max_metadata)
      × (length f.1 ≤ max_payload)
      × (validated_frame_ordinal py f.0 ≡ ok ordinal)
      × AreFrames (ordinal + 1) fs

  module _ (journal_id : Ident) (chunk : ℕ) where
    -- What a scan should say of the frames.
    unfoldable pub stored_all : ℕ → ℕ → List Written → List StoredFrame
    stored_all offset ordinal [] = []
    stored_all offset ordinal (f ∷ fs) =
        stored py journal_id chunk true offset ordinal f.0 f.1 (frame_size f)
        ∷ stored_all (offset + frame_size f) (ordinal + 1) fs

    module _ (allow_tail : Bool) where
      abbrev Scanned : Type 0
      Scanned = Option (Result JournalError (List StoredFrame × ℕ))

      abbrev rounds_of : ℕ → ℕ → ℕ → Bytes → Scanned
      rounds_of = scan_rounds py journal_id chunk allow_tail

      abbrev pub add_frames : List StoredFrame → Scanned → Scanned
      add_frames [] out = out
      add_frames (f ∷ fs) out = add_frame py journal_id chunk allow_tail f (add_frames fs out)

      frame_step :
          (r offset ordinal : ℕ) (bytes m p : Bytes) (size : ℕ)
          → read_frame py allow_tail ordinal bytes ≡ ok (frame m p size)
          → 1 ≤ length bytes
          → rounds_of (suc r) offset ordinal bytes
            ≡ add_frame py journal_id chunk allow_tail
                (stored py journal_id chunk allow_tail offset ordinal m p size)
                (rounds_of r (offset + size) (ordinal + 1) (drop size bytes))
      unfolding scan_rounds
      frame_step r offset ordinal [] m p size e h = ground arith
      frame_step r offset ordinal (b ∷ bs) m p size e h =
          ap
            (λ x.
              after_read py journal_id chunk allow_tail offset ordinal (b ∷ bs) x
                (λ n. rounds_of r (offset + n) (ordinal + 1) (drop n (b ∷ bs))))
            e

      pub tail_step :
          (r offset ordinal : ℕ) (bytes : Bytes)
          → (1 ≤ length bytes → read_frame py allow_tail ordinal bytes ≡ ok tail)
          → length bytes ≤ r
          → rounds_of r offset ordinal bytes ≡ some (ok ([], length bytes))
      unfolding scan_rounds
      tail_step r offset ordinal [] e h = refl
      tail_step zero offset ordinal (b ∷ bs) e h = ground arith
      tail_step (suc r) offset ordinal (b ∷ bs) e h =
          ap
            (λ x.
              after_read py journal_id chunk allow_tail offset ordinal (b ∷ bs) x
                (λ n. rounds_of r (offset + n) (ordinal + 1) (drop n (b ∷ bs))))
            (e (omega arith))

      pub raise_step :
          (r offset ordinal : ℕ) (bytes : Bytes) (x : JournalError)
          → 1 ≤ length bytes
          → read_frame py allow_tail ordinal bytes ≡ raise x
          → length bytes ≤ r
          → rounds_of r offset ordinal bytes ≡ some (raise x)
      unfolding scan_rounds
      raise_step r offset ordinal [] x l e h = ground arith
      raise_step zero offset ordinal (b ∷ bs) x l e h = ground arith
      raise_step (suc r) offset ordinal (b ∷ bs) x l e h =
          ap
            (λ y.
              after_read py journal_id chunk allow_tail offset ordinal (b ∷ bs) y
                (λ n. rounds_of r (offset + n) (ordinal + 1) (drop n (b ∷ bs))))
            e

      -- Frames are scanned before what follows them.
      pub scan_frames :
          (r offset ordinal : ℕ) (fs : List Written) (rest : Bytes) (out : Scanned)
          → IsCrc py
          → AreFrames ordinal fs
          → ((k o : ℕ) → length rest ≤ k → rounds_of k o (ordinal + length fs) rest ≡ out)
          → length (encode_all fs ++ rest) ≤ r
          → rounds_of r offset ordinal (encode_all fs ++ rest)
            ≡ add_frames (stored_all offset ordinal fs) out
      unfolding encode_all AreFrames stored_all
      scan_frames r offset ordinal [] rest out c w last h =
          ap (λ n. rounds_of r offset n rest) (omega arith) ∙ last r offset h
      scan_frames zero offset ordinal (f ∷ fs) rest out c w last h =
          let later = encode_all fs ++ rest in
          let long : length (encoded_frame py f.0 f.1 ++ later) ≡ frame_size f + length later =
            length-encoded_frame py f.0 f.1 later w.0 w.1 in
          let assoc : length (encode_all (f ∷ fs) ++ rest)
              ≡ length (encoded_frame py f.0 f.1 ++ later) =
            ap length (append_assoc (encoded_frame py f.0 f.1) (encode_all fs) rest) in
          ground (arith, long, assoc)
      scan_frames (suc r) offset ordinal (f ∷ fs) rest out c w last h =
          let later = encode_all fs ++ rest in
          let all = encoded_frame py f.0 f.1 ++ later in
          let size = frame_size f in
          let long : length all ≡ size + length later =
            length-encoded_frame py f.0 f.1 later w.0 w.1 in
          let assoc : encode_all (f ∷ fs) ++ rest ≡ all =
            append_assoc (encoded_frame py f.0 f.1) (encode_all fs) rest in
          let room : length later ≤ r = omega (arith, long, ap length assoc) in
          let cut : drop size all ≡ later = drop-encoded_frame py f.0 f.1 later w.0 w.1 in
          let next : rounds_of r (offset + size) (ordinal + 1) later
              ≡ add_frames (stored_all (offset + size) (ordinal + 1) fs) out =
            scan_frames r (offset + size) (ordinal + 1) fs rest out c w.3
              (λ k o l. ap (λ n. rounds_of k o n rest) (omega arith) ∙ last k o l) room in
          ap (rounds_of (suc r) offset ordinal) assoc
          ∙ frame_step r offset ordinal all f.0 f.1 size
              (read_frame-encoded_frame py allow_tail ordinal f.0 f.1 later c w.0 w.1 w.2)
              (omega (arith, long))
          ∙ ap
              (λ b.
                add_frame py journal_id chunk allow_tail
                  (stored py journal_id chunk allow_tail offset ordinal f.0 f.1 size)
                  (rounds_of r (offset + size) (ordinal + 1) b))
              cut
          ∙ ap
              (add_frame py journal_id chunk allow_tail
                (stored py journal_id chunk allow_tail offset ordinal f.0 f.1 size))
              next
