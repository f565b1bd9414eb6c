-- ===== src/Persistence/RawJournal/Frames.antt =====
-- A frame that was written is read back (`RawJournal.append` and `_scan` of
-- src/quantdesk/persistence/raw_journal.py).
use rs_quant.Base.{
  ℕ, ◌+◌, ◌-◌, ◌^◌, ◌≤◌, ◌<◌, ◌≡◌, refl, sym, ap, ◌∙◌, Bool, true, false, ◌&&◌, ◌++◌, ◌==◌, ok, leb,
  ltb, length, arith, length-append, ==_refl,
}
use rs_quant.Persistence.RawJournal.Bytes.{
  Bytes, take, drop, starts_with, big_endian, number_of, append_assoc, take_at, drop_at,
  length-big_endian, number_of-big_endian,
}
use rs_quant.Persistence.RawJournal.Metadata.{JournalLibrary, validated_frame_ordinal}
use rs_quant.Persistence.RawJournal.Scan.{
  magic, header_size, max_metadata, max_payload, metadata_length, payload_length, frame_end,
  metadata_at, payload_at, is_sized, frame, crc_holds, read_frame, frame_header, frame_body,
  encoded_frame,
}

-- `zlib.crc32` is a number of 32 bits.
abbrev pub IsCrc : JournalLibrary → Type 0
IsCrc py = (bs : Bytes) → py.crc32 bs < 256 ^ 4

module _ (py : JournalLibrary) (m p rest : Bytes) where
  abbrev header : Bytes
  header = frame_header py (length m) (length p)

  abbrev crc : Bytes
  crc = big_endian 4 (py.crc32 (frame_body py m p))

  abbrev written : Bytes
  written = (frame_body py m p ++ crc) ++ rest

  pub length-header : length header ≡ 16
  length-header = omega (
    arith,
    length-append (big_endian 4 (length m)) (big_endian 8 (length p)),
    length-big_endian 4 (length m),
    length-big_endian 8 (length p),
  )

  after_header : written ≡ header ++ (m ++ (p ++ (crc ++ rest)))
  after_header =
      append_assoc (frame_body py m p) crc rest
      ∙ append_assoc header (m ++ p) (crc ++ rest)
      ∙ ap (λ r. header ++ r) (append_assoc m p (crc ++ rest))

  after_metadata : written ≡ (header ++ m) ++ (p ++ (crc ++ rest))
  after_metadata = after_header ∙ sym (append_assoc header m (p ++ (crc ++ rest)))

  after_magic :
      written
      ≡ magic
        ++ (big_endian 4 (length m) ++ (big_endian 8 (length p) ++ (m ++ (p ++ (crc ++ rest)))))
  after_magic =
      after_header
      ∙ ap (λ r. magic ++ r)
          (append_assoc (big_endian 4 (length m)) (big_endian 8 (length p))
            (m ++ (p ++ (crc ++ rest))))

  read-metadata_length : length m ≤ max_metadata → metadata_length written ≡ length m
  read-metadata_length h =
      ap metadata_length after_magic
      ∙ ap number_of (
          take_at 4 (big_endian 4 (length m))
            (big_endian 8 (length p) ++ (m ++ (p ++ (crc ++ rest))))
            (length-big_endian 4 (length m)))
      ∙ number_of-big_endian 4 (length m) (omega arith)

  read-payload_length : length p ≤ max_payload → payload_length written ≡ length p
  read-payload_length h =
      ap payload_length after_magic
      ∙ ap (λ r. number_of (take 8 r))
          (drop_at 4 (big_endian 4 (length m))
            (big_endian 8 (length p) ++ (m ++ (p ++ (crc ++ rest))))
            (length-big_endian 4 (length m)))
      ∙ ap number_of (
          take_at 8 (big_endian 8 (length p)) (m ++ (p ++ (crc ++ rest)))
            (length-big_endian 8 (length p)))
      ∙ number_of-big_endian 8 (length p) (omega arith)

  module _ (hm : length m ≤ max_metadata) (hp : length p ≤ max_payload) where
    read-sized : is_sized written ≡ true
    read-sized =
        let a : leb (length m) max_metadata ≡ true = ground arith in
        let b : leb (length p) max_payload ≡ true = ground arith in
        ap (λ n. leb n max_metadata && leb (payload_length written) max_payload)
          (read-metadata_length hm)
        ∙ ap (λ n. leb (length m) max_metadata && leb n max_payload) (read-payload_length hp)
        ∙ rw a b

    read-frame_end : frame_end written ≡ 16 + length m + length p + 4
    read-frame_end = omega (arith, read-metadata_length hm, read-payload_length hp)

    length-body : length (frame_body py m p) ≡ 16 + length m + length p
    length-body = omega (arith, length-append header (m ++ p), length-append m p, length-header)

    length-written : length written ≡ 16 + length m + length p + 4 + length rest
    length-written = omega (
      arith,
      length-append (frame_body py m p ++ crc) rest,
      length-append (frame_body py m p) crc,
      length-body,
      length-big_endian 4 (py.crc32 (frame_body py m p)),
    )

    read-metadata : metadata_at written ≡ m
    read-metadata =
        ap (λ n. take n (drop 16 written)) (read-metadata_length hm)
        ∙ ap (λ r. take (length m) (drop 16 r)) after_header
        ∙ ap (take (length m)) (drop_at 16 header (m ++ (p ++ (crc ++ rest))) length-header)
        ∙ take_at (length m) m (p ++ (crc ++ rest)) refl

    length-header_m : length (header ++ m) ≡ 16 + length m
    length-header_m = omega (arith, length-append header m, length-header)

    read-payload : payload_at written ≡ p
    read-payload =
        ap (λ n. take n (drop (16 + metadata_length written) written)) (read-payload_length hp)
        ∙ ap (λ n. take (length p) (drop (16 + n) written)) (read-metadata_length hm)
        ∙ ap (λ r. take (length p) (drop (16 + length m) r)) after_metadata
        ∙ ap (take (length p))
            (drop_at (16 + length m) (header ++ m) (p ++ (crc ++ rest)) length-header_m)
        ∙ take_at (length p) p (crc ++ rest) refl

    body_end : frame_end written - 4 ≡ length (frame_body py m p)
    body_end = omega (arith, read-frame_end, length-body)

    read-body : take (frame_end written - 4) written ≡ frame_body py m p
    read-body =
        ap (λ n. take n written) body_end
        ∙ ap (take (length (frame_body py m p))) (append_assoc (frame_body py m p) crc rest)
        ∙ take_at (length (frame_body py m p)) (frame_body py m p) (crc ++ rest) refl

    read-crc :
        IsCrc py
        → number_of (take 4 (drop (frame_end written - 4) written)) ≡ py.crc32 (frame_body py m p)
    read-crc c =
        ap (λ n. number_of (take 4 (drop n written))) body_end
        ∙ ap (λ r. number_of (take 4 (drop (length (frame_body py m p)) r)))
            (append_assoc (frame_body py m p) crc rest)
        ∙ ap (λ r. number_of (take 4 r))
            (drop_at (length (frame_body py m p)) (frame_body py m p) (crc ++ rest) refl)
        ∙ ap number_of (take_at 4 crc rest (length-big_endian 4 (py.crc32 (frame_body py m p))))
        ∙ number_of-big_endian 4 (py.crc32 (frame_body py m p)) (c (frame_body py m p))

    read-crc_holds : IsCrc py → crc_holds py written ≡ true
    read-crc_holds c =
        ap (λ n. py.crc32 (take (frame_end written - 4) written) == n) (read-crc c)
        ∙ ap (λ b. py.crc32 b == py.crc32 (frame_body py m p)) read-body
        ∙ ==_refl (py.crc32 (frame_body py m p))

    drop-frame : drop (16 + length m + length p + 4) written ≡ rest
    drop-frame = drop_at (16 + length m + length p + 4) (frame_body py m p ++ crc) rest (
        omega (
          arith,
          length-append (frame_body py m p) crc,
          length-body,
          length-big_endian 4 (py.crc32 (frame_body py m p)),
        ))

accept_frame :
    (py : JournalLibrary) (allow_tail : Bool) (ordinal : ℕ) (bytes : Bytes)
    → header_size ≤ length bytes
    → starts_with magic bytes ≡ true
    → is_sized bytes ≡ true
    → frame_end bytes ≤ length bytes
    → crc_holds py bytes ≡ true
    → validated_frame_ordinal py (metadata_at bytes) ≡ ok ordinal
    → read_frame py allow_tail ordinal bytes
      ≡ ok (frame (metadata_at bytes) (payload_at bytes) (frame_end bytes))
unfolding read_frame
accept_frame py allow_tail ordinal bytes long starts sized whole crc valid =
    let a : ltb (length bytes) header_size ≡ false = ground arith in
    let b : ltb (length bytes) (frame_end bytes) ≡ false = ground arith in
    rw a (rw starts (rw sized (rw b (rw crc (rw valid (rw (==_refl ordinal) refl))))))

-- A frame that `append` writes, at the start of any bytes, is read back as it was.
pub read_frame-encoded_frame :
    (py : JournalLibrary) (allow_tail : Bool) (ordinal : ℕ) (m p rest : Bytes)
    → IsCrc py
    → length m ≤ max_metadata
    → length p ≤ max_payload
    → validated_frame_ordinal py m ≡ ok ordinal
    → read_frame py allow_tail ordinal (encoded_frame py m p ++ rest)
      ≡ ok (frame m p (16 + length m + length p + 4))
unfolding encoded_frame
read_frame-encoded_frame py allow_tail ordinal m p rest crc32 hm hp valid =
    let bytes = written py m p rest in
    accept_frame py allow_tail ordinal bytes (omega (arith, length-written py m p rest hm hp)) refl
      (read-sized py m p rest hm hp)
      (omega (arith, length-written py m p rest hm hp, read-frame_end py m p rest hm hp))
      (read-crc_holds py m p rest hm hp crc32)
      (ap (validated_frame_ordinal py) (read-metadata py m p rest hm hp) ∙ valid)
    ∙ ap (λ x. ok (frame x (payload_at bytes) (frame_end bytes))) (read-metadata py m p rest hm hp)
    ∙ ap (λ x. ok (frame m x (frame_end bytes))) (read-payload py m p rest hm hp)
    ∙ ap (λ x. ok (frame m p x)) (read-frame_end py m p rest hm hp)

module _ (py : JournalLibrary) (m p rest : Bytes) (hm : length m ≤ max_metadata)
    (hp : length p ≤ max_payload) where
  pub length-encoded_frame :
      length (encoded_frame py m p ++ rest) ≡ 16 + length m + length p + 4 + length rest
  unfolding encoded_frame
  length-encoded_frame = length-written py m p rest hm hp

  pub drop-encoded_frame : drop (16 + length m + length p + 4) (encoded_frame py m p ++ rest) ≡ rest
  unfolding encoded_frame
  drop-encoded_frame = drop-frame py m p rest hm hp
