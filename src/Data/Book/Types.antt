-- ===== src/Data/Book/Types.antt =====
-- The types of src/quantdesk/data/orderbook/builder.py and the part of `IncomingEvent`
-- (src/quantdesk/core/events.py) that it reads.
use rs_quant.Base.{ℕ, Bool, false, Option, none, some, List, ◌==◌, eq_opt, ◌&&◌}
use rs_quant.Core.Types.{Ident}

pub record BookLevel : Type 0 where
  pub price_ticks : ℕ
  pub size_lots : ℕ

pub data BookStatus : Type 0 where
  empty syncing valid invalid stale : BookStatus

pub data Reason : Type 0 where
  no_reason awaiting_snapshot stale_feed stream_scope_mismatch incompatible_epoch
        feed_discontinuity :
      Reason
  unknown_book_message rebuild_needed duplicate_message availability_regression snapshot_required :
      Reason
  malformed_json not_an_object invalid_native_sequence checksum_adapter_required : Reason
  missing_sequence out_of_order_sequence sequence_gap prior_sequence_mismatch malformed_sequence :
      Reason
  snapshot_feed_rejects_delta not_an_array malformed_level not_canonical below_minimum : Reason
  duplicate_price_level empty_side book_overflow crossed_book : Reason
  -- a `KeyError` of this key
  missing_key : Ident → Reason
  -- the caller's own reason
  other_reason : Ident → Reason

pub data EventType : Type 0 where
  data_gap connection_changed book_snapshot book_delta other_event : EventType

pub record IncomingEvent : Type 0 where
  pub event_type : EventType
  pub venue : Option Ident
  pub environment : Ident
  pub instrument_id : Option Ident
  pub source_channel : Ident
  pub connection_epoch : Ident
  pub source_message_id : Option Ident
  pub receive_wall_ns : ℕ
  pub receive_monotonic_ns : ℕ
  pub available_ns : ℕ
  pub raw_ref : Option Ident
  pub payload : Ident

pub record Scope : Type 0 where
  pub venue : Option Ident
  pub environment : Ident
  pub instrument_id : Option Ident
  pub source_channel : Ident

abbrev pub same_scope : Scope → Scope → Bool
same_scope a b =
    eq_opt a.venue b.venue
    && a.environment == b.environment
    && eq_opt a.instrument_id b.instrument_id
    && a.source_channel == b.source_channel

pub record Receipt : Type 0 where
  pub raw_ref : Option Ident
  pub receive_wall_ns : ℕ
  pub receive_monotonic_ns : ℕ
  pub available_ns : ℕ
  pub source_message_id : Option Ident

abbrev pub same_receipt : Option Receipt → Receipt → Bool
same_receipt none b = false
same_receipt (some a) b =
    eq_opt a.raw_ref b.raw_ref
    && a.receive_wall_ns == b.receive_wall_ns
    && a.receive_monotonic_ns == b.receive_monotonic_ns
    && a.available_ns == b.available_ns
    && eq_opt a.source_message_id b.source_message_id

pub record BookView : Type 0 where
  pub bids : List BookLevel
  pub asks : List BookLevel
  pub bid_levels : ℕ
  pub ask_levels : ℕ
  pub connection_epoch : Ident
  pub validity_epoch : ℕ
  pub available_ns : ℕ
  pub source_sequence : Option Ident
  pub raw_ref : Option Ident

pub record BookUpdate : Type 0 where
  pub state : BookStatus
  pub reason : Reason
  pub view : Option BookView
  pub duplicate : Bool
  pub cancel_entries : Bool
  pub rebuild_required : Bool
