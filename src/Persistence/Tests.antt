-- ===== src/Persistence/Tests.antt =====
-- The theorems of the raw journal at a chunk of one frame, and at a second one whose write was cut.
use rs_quant.Base.{
  ℕ, ◌%◌, ◌≡◌, refl, ap, true, false, Option, none, some, List, [], ◌∷◌, ◌++◌, ◌==◌, arith, ok,
  raise, is_some, if◌then◌else◌, length,
}
use rs_quant.Base.Int.{pos, negsuc}
use rs_quant.Persistence.RawJournal.Bytes.{Bytes}
use rs_quant.Persistence.RawJournal.Metadata.{
  MetaValue, text, integer, flag, null, other, JournalLibrary, JournalError, RawFrame,
  metadata_bytes, validated_frame_ordinal, IsJson, validated-metadata_bytes,
}
use rs_quant.Persistence.RawJournal.Scan.{scan}
use rs_quant.Persistence.RawJournal.Frames.{IsCrc}
use rs_quant.Persistence.RawJournal.Recovery.{AreFrames, encode_all, stored_all, Written}
use rs_quant.Persistence.RawJournal.Chunks
use rs_quant.Persistence.RawJournal.Torn

-- A small encoding of pairs, with 9 for a wrong tag.
abbrev value_bytes : MetaValue → Bytes
value_bytes (text t) = 0 ∷ t ∷ []
value_bytes (integer (pos n)) = 1 ∷ n ∷ []
value_bytes (integer (negsuc n)) = 2 ∷ n ∷ []
value_bytes (flag true) = 3 ∷ 0 ∷ []
value_bytes (flag false) = 4 ∷ 0 ∷ []
value_bytes null = 5 ∷ 0 ∷ []
value_bytes other = 6 ∷ 0 ∷ []

abbrev value_from : ℕ → ℕ → MetaValue
value_from tag n =
    if tag == 0
    then text n
    else if tag == 1
    then integer (pos n)
    else if tag == 2
    then integer (negsuc n)
    else if tag == 3
    then flag true
    else if tag == 4
    then flag false
    else if tag == 5
    then null
    else other

abbrev encode : List (ℕ × MetaValue) → Bytes
encode [] = []
encode ((k, v) ∷ ps) = k ∷ (value_bytes v ++ encode ps)

abbrev add_pair : ℕ × MetaValue → Option (List (ℕ × MetaValue)) → Option (List (ℕ × MetaValue))
add_pair x none = none
add_pair x (some xs) = some (x ∷ xs)

abbrev decode : Bytes → Option (List (ℕ × MetaValue))
decode [] = some []
decode (k ∷ []) = none
decode (k ∷ tag ∷ []) = none
decode (k ∷ tag ∷ n ∷ bs) = add_pair (k, value_from tag n) (decode bs)

decode-encode : (ps : List (ℕ × MetaValue)) → decode (encode ps) ≡ some ps
decode-encode [] = refl
decode-encode ((k, text t) ∷ ps) = ap (add_pair (k, text t)) (decode-encode ps)
decode-encode ((k, integer (pos n)) ∷ ps) = ap (add_pair (k, integer (pos n))) (decode-encode ps)
decode-encode ((k, integer (negsuc n)) ∷ ps) =
    ap (add_pair (k, integer (negsuc n))) (decode-encode ps)
decode-encode ((k, flag true) ∷ ps) = ap (add_pair (k, flag true)) (decode-encode ps)
decode-encode ((k, flag false) ∷ ps) = ap (add_pair (k, flag false)) (decode-encode ps)
decode-encode ((k, null) ∷ ps) = ap (add_pair (k, null)) (decode-encode ps)
decode-encode ((k, other) ∷ ps) = ap (add_pair (k, other)) (decode-encode ps)

abbrev library : JournalLibrary
library = record {
  crc32 = λ bs. length bs % 256;
  loads = decode;
  dumps = encode;
  numeral = λ t. some t;
  str = λ n. n;
  is_key_id = λ t. true;
}

abbrev json : IsJson library
json = record { loads-dumps = decode-encode; numeral-str = λ n. refl }

abbrev message : RawFrame
message = record {
  payload = 1 ∷ 2 ∷ [];
  venue = 1;
  environment = 2;
  transport = 3;
  receive_wall_ns = 40;
  receive_monotonic_ns = 41;
  connection_epoch = 4;
  message_ordinal = 1;
  private = false;
  url = none;
}

validated-metadata_bytes_example :
    validated_frame_ordinal library (metadata_bytes library message 1 none) ≡ ok 1
validated-metadata_bytes_example =
    validated-metadata_bytes library json message 1 none
      (record {
        venue = refl;
        environment = refl;
        transport = refl;
        connection = refl;
        keyed = refl;
      })
      (omega arith)

abbrev first_frame : Written
first_frame = (metadata_bytes library message 1 none, 1 ∷ 2 ∷ [])

scan-returns_example : is_some (scan library 1 0 true 1 (81 ∷ 68 ∷ [])) ≡ true
scan-returns_example = Chunks.scan-returns library 1 0 true 1 (81 ∷ 68 ∷ [])

library-IsCrc : IsCrc library
library-IsCrc bs = omega arith

first-AreFrames : AreFrames library 1 (first_frame ∷ [])
unfolding AreFrames metadata_bytes
first-AreFrames = (omega arith, omega arith, validated-metadata_bytes_example, tt)

scan-encode_all_example :
    scan library 7 0 false 1 (encode_all library (first_frame ∷ []))
    ≡ some (ok (stored_all library 7 0 0 1 (first_frame ∷ []), 0))
scan-encode_all_example =
    Chunks.scan-encode_all library 7 0 false 1 (first_frame ∷ []) library-IsCrc first-AreFrames

abbrev cut_frame : Bytes
cut_frame = Torn.torn library (9 ∷ 9 ∷ []) (8 ∷ []) 2 (omega arith) (omega arith) (omega arith)

scan-torn_example :
    scan library 7 0 true 1 (encode_all library (first_frame ∷ []) ++ cut_frame)
    ≡ some (ok (stored_all library 7 0 0 1 (first_frame ∷ []), 2))
scan-torn_example =
    Torn.scan-torn library (9 ∷ 9 ∷ []) (8 ∷ []) 2 (omega arith) (omega arith) (omega arith) 7 0 1
      (first_frame ∷ []) library-IsCrc first-AreFrames (λ l. ground arith)

scan-torn_sealed_example :
    (e : JournalError) × (scan library 7 0 false 1
        (encode_all library (first_frame ∷ []) ++ cut_frame)
      ≡ some (raise e))
scan-torn_sealed_example =
    Torn.scan-torn_sealed library (9 ∷ 9 ∷ []) (8 ∷ []) 2 (omega arith) (omega arith) (omega arith)
      7 0 1 (first_frame ∷ []) library-IsCrc first-AreFrames (omega arith)
