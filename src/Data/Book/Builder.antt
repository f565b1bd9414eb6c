-- ===== src/Data/Book/Builder.antt =====
-- `BookBuilder` of src/quantdesk/data/orderbook/builder.py. `Library` holds what Python's library
-- computes: `json.loads`, SHA-256 and the readings of a text as a number.
use rs_quant.Base.{
  ℕ, zero, suc, ◌-◌, Bool, true, false, Option, none, some, List, [], ◌∷◌, Result, ok, raise, ◌==◌,
  eq_opt, ltb, leb, if◌then◌else◌, length, map,
}
use rs_quant.Base.Dict.{Dict, insert, erase}
use rs_quant.Base.Sort.{sort_with}
use rs_quant.Base.Int.{ℤ}
use rs_quant.Core.Types.{Ident, truthy}
use rs_quant.Data.Json.{Json}
use rs_quant.Data.Book.Types.{
  BookLevel, BookStatus, empty, syncing, valid, invalid, stale, Reason, no_reason,
  awaiting_snapshot, stale_feed, IncomingEvent, Scope, Receipt, BookView, BookUpdate,
}
use rs_quant.Data.Book.Sequence.{Contract}

pub record Library : Type 0 where
  pub loads : Ident → Option Json
  pub sha256 : Ident → Ident
  pub int_of : Ident → Option ℤ
  pub canonical_text : Ident → Option ℤ

pub record BookBuilder : Type 0 where
  pub validator : Contract
  pub depth : ℕ
  pub max_levels : ℕ
  pub max_age_ns : ℕ
  pub state : BookStatus
  pub view : Option BookView
  pub bids : Dict ℕ
  pub asks : Dict ℕ
  pub epoch : Option Ident
  pub scope : Option Scope
  pub sequence : Option Ident
  pub fingerprint : Option Ident
  pub receipt : Option Receipt
  pub available : ℕ
  pub validity_epoch : ℕ

unfoldable pub new_builder : Contract → ℕ → ℕ → ℕ → BookBuilder
new_builder contract depth max_levels max_age_ns = record {
  validator = contract;
  depth = depth;
  max_levels = max_levels;
  max_age_ns = max_age_ns;
  state = empty;
  view = none;
  bids = [];
  asks = [];
  epoch = none;
  scope = none;
  sequence = none;
  fingerprint = none;
  receipt = none;
  available = 0;
  validity_epoch = 0;
}

abbrev pub invalidated : BookBuilder → Bool → BookBuilder
invalidated b is_stale = record b { state = if is_stale then stale else invalid; view = none }

unfoldable pub invalidate : BookBuilder → Reason → Bool → BookBuilder × BookUpdate
invalidate b reason is_stale = (
  invalidated b is_stale,
  record {
    state = if is_stale then stale else invalid;
    reason = reason;
    view = none;
    duplicate = false;
    cancel_entries = true;
    rebuild_required = true;
  },
)

-- The builder after `begin_sync`; the error is "connection epoch required".
abbrev pub synced : BookBuilder → Ident → BookBuilder
synced b e = record b {
  sequence = if eq_opt b.epoch (some e) then b.sequence else none;
  epoch = some e;
  fingerprint = none;
  receipt = none;
  bids = [];
  asks = [];
  validity_epoch = suc b.validity_epoch;
  state = syncing;
  view = none;
}

pub data BookError : Type 0 where
  epoch_required : BookError

unfoldable pub begin_sync : BookBuilder → Ident → Result BookError (BookBuilder × BookUpdate)
begin_sync b e =
    if truthy e
    then ok (
      synced b e,
      record {
        state = syncing;
        reason = awaiting_snapshot;
        view = none;
        duplicate = false;
        cancel_entries = false;
        rebuild_required = true;
      },
    )
    else raise epoch_required

abbrev pub plain_update : BookBuilder → Reason → Bool → BookUpdate
plain_update b reason is_duplicate = record {
  state = b.state;
  reason = reason;
  view = b.view;
  duplicate = is_duplicate;
  cancel_entries = false;
  rebuild_required = false;
}

abbrev pub is_aged : BookBuilder → ℕ → Option BookView → Bool
is_aged b now none = false
is_aged b now (some v) = ltb b.max_age_ns (now - b.available)

unfoldable pub check_freshness : BookBuilder → ℕ → BookBuilder × BookUpdate
unfolding invalidate
check_freshness b now =
    if is_aged b now b.view
    then invalidate b stale_feed true
    else (b, plain_update b no_reason false)

-- `side[price] = size`, or `side.pop(price, None)` for size 0
unfoldable pub apply_levels : Dict ℕ → List BookLevel → Dict ℕ
apply_levels side [] = side
apply_levels side (l ∷ ls) =
    apply_levels
      (if l.size_lots == 0 then erase l.price_ticks side else insert l.price_ticks l.size_lots side)
      ls

abbrev pub take {ℓ} : {A : Type ℓ} → ℕ → List A → List A
take zero xs = []
take (suc n) [] = []
take (suc n) (x ∷ xs) = x ∷ take n xs

abbrev pub level_at : ℕ × ℕ → BookLevel
level_at e = record { price_ticks = e.0; size_lots = e.1 }

abbrev pub descending : ℕ × ℕ → ℕ × ℕ → Bool
descending e f = leb f.0 e.0

abbrev pub ascending : ℕ × ℕ → ℕ × ℕ → Bool
ascending e f = leb e.0 f.0

-- The best `depth` levels of a side.
unfoldable pub top : (ℕ × ℕ → ℕ × ℕ → Bool) → ℕ → Dict ℕ → List BookLevel
top order depth side = map level_at (take depth (sort_with order side))

abbrev pub receipt_of : IncomingEvent → Receipt
receipt_of event = record {
  raw_ref = event.raw_ref;
  receive_wall_ns = event.receive_wall_ns;
  receive_monotonic_ns = event.receive_monotonic_ns;
  available_ns = event.available_ns;
  source_message_id = event.source_message_id;
}

-- The builder that holds a message that was accepted.
unfoldable pub accepted :
    BookBuilder → IncomingEvent → Option Ident → Ident → Dict ℕ → Dict ℕ → BookBuilder
unfolding top
accepted b event sequence fingerprint next_bids next_asks = record b {
  bids = next_bids;
  asks = next_asks;
  sequence = sequence;
  fingerprint = some fingerprint;
  receipt = some (receipt_of event);
  available = event.available_ns;
  state = valid;
  view = some (record {
    bids = top descending b.depth next_bids;
    asks = top ascending b.depth next_asks;
    bid_levels = length next_bids;
    ask_levels = length next_asks;
    connection_epoch = event.connection_epoch;
    validity_epoch = b.validity_epoch;
    available_ns = event.available_ns;
    source_sequence = sequence;
    raw_ref = event.raw_ref;
  });
}
