-- ===== src/Persistence/RawJournal/Metadata.antt =====
-- `_validated_frame_ordinal` of src/quantdesk/persistence/raw_journal.py, and the metadata that
-- `RawJournal.append` writes.
use rs_quant.Base.{
  ℕ, ◌≤◌, ◌≡◌, refl, Bool, true, false, not, ◌&&◌, ◌||◌, Option, none, some, List, [], ◌∷◌, ◌==◌,
  Result, ok, raise, ◌>>=◌, ◌>>◌, raise_if, or_raise, if◌then◌else◌, ltb, length, arith, is_some,
  inl, inr, Bool-cases,
}
use rs_quant.Base.Dict.{Dict, lookup}
use rs_quant.Base.Int.{ℤ, pos}
use rs_quant.Core.Types.{Ident, truthy}
use rs_quant.Persistence.RawJournal.Bytes.{Bytes}

-- A value of a JSON object; `other` is a float, an array or an object.
pub data MetaValue : Type 0 where
  text : Ident → MetaValue
  integer : ℤ → MetaValue
  flag : Bool → MetaValue
  null : MetaValue
  other : MetaValue

-- The required fields by their places in the order of names.
abbrev pub connection_epoch_field : ℕ
connection_epoch_field = 1

abbrev pub environment_field : ℕ
environment_field = 2

abbrev pub frame_ordinal_field : ℕ
frame_ordinal_field = 3

abbrev pub key_id_field : ℕ
key_id_field = 4

abbrev pub message_ordinal_field : ℕ
message_ordinal_field = 5

abbrev pub private_field : ℕ
private_field = 6

abbrev pub receive_monotonic_ns_field : ℕ
receive_monotonic_ns_field = 7

abbrev pub receive_wall_ns_field : ℕ
receive_wall_ns_field = 8

abbrev pub transport_field : ℕ
transport_field = 9

abbrev pub url_field : ℕ
url_field = 10

abbrev pub venue_field : ℕ
venue_field = 11

pub data JournalError : Type 0 where
  not_json duplicate_field unknown_fields invalid_identity invalid_integer invalid_ordinal :
      JournalError
  invalid_url key_required key_refused incomplete_header invalid_header : JournalError
  incomplete_frame crc_mismatch ordinal_discontinuity : JournalError

-- What the journal takes from libraries.
pub record JournalLibrary : Type 0 where
  pub crc32 : Bytes → ℕ
  -- `json.loads` of an object as its pairs, and `json.dumps` of pairs in their order
  pub loads : Bytes → Option (List (ℕ × MetaValue))
  pub dumps : List (ℕ × MetaValue) → Bytes
  -- `int(s)` if the text is a canonical decimal numeral
  pub numeral : Ident → Option ℕ
  -- `str(n)`
  pub str : ℕ → Ident
  -- `re.fullmatch(r"[A-Za-z0-9_.-]{1,128}", s)`
  pub is_key_id : Ident → Bool

abbrev required : List ℕ
required =
    connection_epoch_field ∷ environment_field ∷ frame_ordinal_field ∷ key_id_field
    ∷ message_ordinal_field ∷ private_field ∷ receive_monotonic_ns_field ∷ receive_wall_ns_field
    ∷ transport_field ∷ url_field ∷ venue_field ∷ []

-- `len(dict(pairs)) != len(pairs)`
abbrev repeats : Dict MetaValue → Bool
repeats [] = false
repeats ((k, v) ∷ ps) = is_some (lookup k ps) || repeats ps

abbrev has_all : List ℕ → Dict MetaValue → Bool
has_all [] ps = true
has_all (k ∷ ks) ps = is_some (lookup k ps) && has_all ks ps

abbrev pub check_identity : Option MetaValue → Result JournalError (Unit {0})
check_identity (some (text t)) = raise_if (not (truthy t)) invalid_identity
check_identity _ = raise invalid_identity

abbrev pub check_url : Option MetaValue → Result JournalError (Unit {0})
check_url (some null) = ok tt
check_url (some (text t)) = ok tt
check_url _ = raise invalid_url

module _ (py : JournalLibrary) where
  -- `_metadata_integer`
  abbrev pub metadata_integer : Option MetaValue → Result JournalError ℕ
  metadata_integer (some (integer (pos n))) = ok n
  metadata_integer (some (text t)) = or_raise (py.numeral t) invalid_integer
  metadata_integer _ = raise invalid_integer

  -- A private frame names its key, a public one does not.
  abbrev pub check_key : Bool → Option MetaValue → Result JournalError (Unit {0})
  check_key true (some (text t)) = raise_if (not (py.is_key_id t)) key_required
  check_key true _ = raise key_required
  check_key false (some null) = ok tt
  check_key false _ = raise key_refused

  abbrev pub privacy : Option MetaValue → Result JournalError Bool
  privacy (some (flag b)) = ok b
  privacy _ = raise invalid_ordinal

  unfoldable pub ordinal_of : Dict MetaValue → Result JournalError ℕ
  ordinal_of ps = do
    raise_if (not (length ps == 11) || not (has_all required ps)) unknown_fields
    check_identity (lookup venue_field ps)
    check_identity (lookup environment_field ps)
    check_identity (lookup transport_field ps)
    check_identity (lookup connection_epoch_field ps)
    wall ← metadata_integer (lookup receive_wall_ns_field ps)
    monotonic ← metadata_integer (lookup receive_monotonic_ns_field ps)
    message ← metadata_integer (lookup message_ordinal_field ps)
    ordinal ← metadata_integer (lookup frame_ordinal_field ps)
    raise_if (ordinal == 0) invalid_ordinal
    is_private ← privacy (lookup private_field ps)
    check_url (lookup url_field ps)
    check_key is_private (lookup key_id_field ps)
    ok ordinal

  unfoldable pub validated_frame_ordinal : Bytes → Result JournalError ℕ
  unfolding ordinal_of
  validated_frame_ordinal bytes = do
    pairs ← or_raise (py.loads bytes) not_json
    raise_if (repeats pairs) duplicate_field
    ordinal_of pairs

-- The frame that `append` writes, after it was sanitized.
pub record RawFrame : Type 0 where
  pub payload : Bytes
  pub venue : Ident
  pub environment : Ident
  pub transport : Ident
  pub receive_wall_ns : ℕ
  pub receive_monotonic_ns : ℕ
  pub connection_epoch : Ident
  pub message_ordinal : ℕ
  pub private : Bool
  pub url : Option Ident

abbrev text_or_null : Option Ident → MetaValue
text_or_null none = null
text_or_null (some t) = text t

-- `2 ** 53 - 1`
abbrev max_safe_integer : ℕ
max_safe_integer = 9007199254740991

module _ (py : JournalLibrary) where
  -- An integer, which canonical JSON writes as a text when a float would not hold it.
  abbrev pub canonical_integer : ℕ → MetaValue
  canonical_integer n = if ltb max_safe_integer n then text (py.str n) else integer (pos n)

  -- `canonical_bytes` of the metadata, whose fields are sorted
  unfoldable pub metadata_of : RawFrame → ℕ → Option Ident → Dict MetaValue
  metadata_of f ordinal key =
      (connection_epoch_field, text f.connection_epoch)
      ∷ (environment_field, text f.environment)
      ∷ (frame_ordinal_field, canonical_integer ordinal)
      ∷ (key_id_field, text_or_null key)
      ∷ (message_ordinal_field, canonical_integer f.message_ordinal)
      ∷ (private_field, flag f.private)
      ∷ (receive_monotonic_ns_field, canonical_integer f.receive_monotonic_ns)
      ∷ (receive_wall_ns_field, canonical_integer f.receive_wall_ns)
      ∷ (transport_field, text f.transport)
      ∷ (url_field, text_or_null f.url)
      ∷ (venue_field, text f.venue)
      ∷ []

  unfoldable pub metadata_bytes : RawFrame → ℕ → Option Ident → Bytes
  unfolding metadata_of
  metadata_bytes f ordinal key = py.dumps (metadata_of f ordinal key)

-- What the documentation of Python's json and int says: reading a text gives back the pairs that were
-- written, and the decimal text of a natural number is a numeral of that number.
pub record IsJson (py : JournalLibrary) : Type 0 where
  pub loads-dumps : (ps : List (ℕ × MetaValue)) → py.loads (py.dumps ps) ≡ some ps
  pub numeral-str : (n : ℕ) → py.numeral (py.str n) ≡ some n

-- A frame that names its venue, environment, transport and connection, and its key exactly if it is
-- private.
pub record IsNamed (py : JournalLibrary) (f : RawFrame) (key : Option Ident) : Type 0 where
  pub venue : truthy f.venue ≡ true
  pub environment : truthy f.environment ≡ true
  pub transport : truthy f.transport ≡ true
  pub connection : truthy f.connection_epoch ≡ true
  pub keyed : check_key py f.private (some (text_or_null key)) ≡ ok tt

module _ (py : JournalLibrary) (json : IsJson py) where
  integer-read : (n : ℕ) → metadata_integer py (some (canonical_integer py n)) ≡ ok n
  integer-read n = elim (Bool-cases (ltb max_safe_integer n)) [
    | inl large ↦ rw large (rw (json.numeral-str n) refl)
    | inr small ↦ rw small refl
  ]

  url-checked : (u : Option Ident) → check_url (some (text_or_null u)) ≡ ok tt
  url-checked none = refl
  url-checked (some u) = refl

  -- The metadata that is written for a frame with its names, from ordinal 1 on, passes the check that
  -- scans make of it, which returns the frame's ordinal.
  pub validated-metadata_bytes :
      (f : RawFrame) (ordinal : ℕ) (key : Option Ident)
      → IsNamed py f key
      → 1 ≤ ordinal
      → validated_frame_ordinal py (metadata_bytes py f ordinal key) ≡ ok ordinal
  unfolding validated_frame_ordinal metadata_bytes
  validated-metadata_bytes f ordinal key named first =
      let nonzero : (ordinal == 0) ≡ false = ground arith in
      rw (json.loads-dumps (metadata_of py f ordinal key)) (
        rw named.venue (
          rw named.environment (
            rw named.transport (
              rw named.connection (
                rw (integer-read f.receive_wall_ns) (
                  rw (integer-read f.receive_monotonic_ns) (
                    rw (integer-read f.message_ordinal) (
                      rw (integer-read ordinal)
                        (rw nonzero (rw (url-checked f.url) (rw named.keyed refl)))))))))))
