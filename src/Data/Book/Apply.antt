-- ===== src/Data/Book/Apply.antt =====
-- `BookBuilder.apply` of src/quantdesk/data/orderbook/builder.py.
use rs_quant.Base.{
  ℕ, Bool, true, false, Option, none, some, [], Result, ok, raise, ◌>>=◌, ◌>>◌, raise_if, eq_opt,
  ltb, not, or_raise, ◌&&◌, ◌||◌, if◌then◌else◌,
}
use rs_quant.Base.Dict.{Dict}
use rs_quant.Core.Types.{Ident}
use rs_quant.Data.Json.{Json, JsonFields, null, text, object, get_field, is_present}
use rs_quant.Data.Book.Types.{
  BookStatus, valid, invalid, stale, Reason, no_reason, stream_scope_mismatch, incompatible_epoch,
  feed_discontinuity, unknown_book_message, rebuild_needed, duplicate_message,
  availability_regression, snapshot_required, malformed_json, not_an_object,
  invalid_native_sequence, checksum_adapter_required, missing_key, EventType, data_gap,
  connection_changed, book_snapshot, book_delta, other_event, IncomingEvent, Scope, same_scope,
  same_receipt, BookUpdate,
}
use rs_quant.Data.Book.Sequence.{validate}
use rs_quant.Data.Book.Levels.{levels, validate_book}
use rs_quant.Data.Book.Builder.{
  Library, BookBuilder, invalidate, begin_sync, plain_update, apply_levels, receipt_of, accepted,
  BookError,
}

-- The keys of a payload.
abbrev pub sequence_key : Ident
sequence_key = 3

abbrev pub prior_key : Ident
prior_key = 4

abbrev pub checksum_key : Ident
checksum_key = 5

abbrev pub bids_key : Ident
bids_key = 6

abbrev pub asks_key : Ident
asks_key = 7

abbrev pub bid_updates_key : Ident
bid_updates_key = 8

abbrev pub ask_updates_key : Ident
ask_updates_key = 9

-- The object that the keys of a payload are read from.
abbrev pub fields_of : Json → Result Reason JsonFields
fields_of (object fs) = ok fs
fields_of _ = raise not_an_object

abbrev pub is_valid : BookStatus → Bool
is_valid valid = true
is_valid _ = false

abbrev pub is_broken : BookStatus → Bool
is_broken invalid = true
is_broken stale = true
is_broken _ = false

-- `payload[key]`
abbrev pub required : Ident → JsonFields → Result Reason Json
required key fs = elim (get_field key fs) [ none ↦ raise (missing_key key) | some j ↦ ok j ]

abbrev pub sequence_text : Json → Result Reason (Option Ident)
sequence_text null = ok none
sequence_text (text s) = ok (some s)
sequence_text _ = raise invalid_native_sequence

abbrev pub raise_some : Option Reason → Result Reason (Unit {0})
raise_some none = ok tt
raise_some (some reason) = raise reason

-- What the `try` block of `apply` comes to, apart from an exception.
pub data Reading : Type 0 where
  duplicate : Reading
  message : Option Ident → Dict ℕ → Dict ℕ → Reading

abbrev pub event_scope : IncomingEvent → Scope
event_scope event = record {
  venue = event.venue;
  environment = event.environment;
  instrument_id = event.instrument_id;
  source_channel = event.source_channel;
}

abbrev pub in_scope : Option Scope → Scope → Bool
in_scope none s = true
in_scope (some r) s = same_scope s r

-- What `begin_sync` leaves, the builder as it was if it raises.
abbrev pub synced_or_raised :
    BookBuilder
    → Result BookError (BookBuilder × BookUpdate)
    → BookBuilder × Result BookError (Unit {0})
synced_or_raised b (ok r) = (r.0, ok tt)
synced_or_raised b (raise x) = (b, raise x)

-- `if self._epoch is None: self.begin_sync(...)`. The builder that is left when it raises is kept.
abbrev pub ensure_epoch :
    BookBuilder → Ident → Option Ident → BookBuilder × Result BookError (Unit {0})
ensure_epoch b e (some old) = (b, ok tt)
ensure_epoch b e none = synced_or_raised b (begin_sync b e)

module _ (lib : Library) where
  -- From `checksum` to the end of the block.
  unfoldable pub read_book : BookBuilder → JsonFields → Bool → Option Ident → Result Reason Reading
  unfolding levels apply_levels validate_book
  read_book b fs snapshot sequence = do
    raise_if (is_present (get_field checksum_key fs)) checksum_adapter_required
    bid_json ← required (if snapshot then bids_key else bid_updates_key) fs
    bids ← levels lib.canonical_text bid_json
    ask_json ← required (if snapshot then asks_key else ask_updates_key) fs
    asks ← levels lib.canonical_text ask_json
    let next_bids = apply_levels (if snapshot then [] else b.bids) bids
    let next_asks = apply_levels (if snapshot then [] else b.asks) asks
    validate_book next_bids next_asks b.max_levels
    ok (message sequence next_bids next_asks)

  abbrev pub is_identical : BookBuilder → IncomingEvent → Option Ident → Bool
  is_identical b event sequence =
      eq_opt (some (lib.sha256 event.payload)) b.fingerprint && eq_opt sequence b.sequence

  -- The comparison with the message before, and the contract.
  unfoldable pub read_sequenced :
      BookBuilder → IncomingEvent → Bool → JsonFields → Result Reason Reading
  unfolding read_book validate
  read_sequenced b event snapshot fs = do
    sequence_json ← required sequence_key fs
    sequence ← sequence_text sequence_json
    let identical = is_identical b event sequence
    if identical && (same_receipt b.receipt (receipt_of event) || not snapshot)
        then ok duplicate
        else (do
          raise_some (
              if identical && snapshot
              then none
              else validate lib.int_of b.validator b.sequence sequence (get_field prior_key fs)
                  snapshot)
          read_book b fs snapshot sequence)

  unfoldable pub read_message : BookBuilder → IncomingEvent → Bool → Result Reason Reading
  unfolding read_sequenced
  read_message b event snapshot = do
    raise_if (ltb event.available_ns b.available) availability_regression
    payload ← or_raise (lib.loads event.payload) malformed_json
    raise_if (not snapshot && not (is_valid b.state)) snapshot_required
    fs ← fields_of payload
    read_sequenced b event snapshot fs

  unfoldable pub finish_reading :
      BookBuilder → IncomingEvent → Result Reason Reading → BookBuilder × BookUpdate
  unfolding invalidate accepted
  finish_reading b event (raise reason) = invalidate b reason false
  finish_reading b event (ok duplicate) = (b, plain_update b duplicate_message true)
  finish_reading b event (ok (message sequence next_bids next_asks)) =
      let next = accepted b event sequence (lib.sha256 event.payload) next_bids next_asks in
      (next, plain_update next no_reason false)

  unfoldable pub apply_book : BookBuilder → IncomingEvent → Bool → BookBuilder × BookUpdate
  unfolding finish_reading read_message
  apply_book b event snapshot =
      if is_broken b.state
      then (
        b,
        record {
          state = b.state;
          reason = rebuild_needed;
          view = none;
          duplicate = false;
          cancel_entries = false;
          rebuild_required = true;
        },
      )
      else finish_reading b event (read_message b event snapshot)

  -- The message types, of the connection that is followed.
  unfoldable pub apply_type : BookBuilder → IncomingEvent → EventType → BookBuilder × BookUpdate
  unfolding invalidate apply_book
  apply_type b event data_gap = invalidate b feed_discontinuity false
  apply_type b event connection_changed = invalidate b feed_discontinuity false
  apply_type b event book_snapshot = apply_book b event true
  apply_type b event book_delta = apply_book b event false
  apply_type b event other_event = invalidate b unknown_book_message false

  unfoldable pub apply_epoch : BookBuilder → IncomingEvent → BookBuilder × BookUpdate
  unfolding apply_type
  apply_epoch b event =
      if eq_opt (some event.connection_epoch) b.epoch
      then apply_type b event event.event_type
      else (b, plain_update b incompatible_epoch false)

  abbrev pub after_epoch :
      IncomingEvent
      → BookBuilder × Result BookError (Unit {0})
      → BookBuilder × Result BookError BookUpdate
  after_epoch event (b, raise x) = (b, raise x)
  after_epoch event (b, ok u) = let (next, update) = apply_epoch b event in (next, ok update)

  unfoldable pub apply : BookBuilder → IncomingEvent → BookBuilder × Result BookError BookUpdate
  unfolding invalidate begin_sync apply_epoch
  apply b event =
      let scope = event_scope event in
      if in_scope b.scope scope
      then after_epoch event
          (ensure_epoch (record b { scope = some scope }) event.connection_epoch b.epoch)
      else (let (next, update) = invalidate b stream_scope_mismatch false in (next, ok update))
