-- ===== src/Data/Tests.antt =====
-- The theorems of the order book at one recorded snapshot.
use rs_quant.Base.{ℕ, ◌≡◌, refl, true, none, some, [], ◌∷◌, ◌==◌, if◌then◌else◌}
use rs_quant.Base.Dict.{lookup}
use rs_quant.Base.Int.{pos}
use rs_quant.Core.Types.{Ident}
use rs_quant.Data.Json.{Json, null, integer, array, object, end_list, item, end_fields, field}
use rs_quant.Data.Book.Types.{BookLevel, IncomingEvent, EventType}
use rs_quant.Data.Book.Sequence.{Contract}
use rs_quant.Data.Book.Levels.{price_key, size_key, levels}
use rs_quant.Data.Book.Builder.{Library, BookBuilder, new_builder, apply_levels}
use rs_quant.Data.Book.Apply.{sequence_key, bids_key, asks_key, is_broken}
use rs_quant.Data.Book.Validity.{Served}
use rs_quant.Data.Book.Runs.{receive, age, calls, calls-Served}
use rs_quant.Data.Book.Broken.{broken_until_sync}
use rs_quant.Data.Book.Delta.{updated, apply_levels_updates}

abbrev json_level : ℕ → ℕ → Json
json_level price size =
    object (field price_key (integer (pos price)) (field size_key (integer (pos size)) end_fields))

abbrev snapshot_json : Json
snapshot_json = object (
    field sequence_key null (
      field bids_key (array (item (json_level 99 5) (item (json_level 98 7) end_list)))
        (field asks_key (array (item (json_level 101 4) end_list)) end_fields)))

abbrev library : Library
library = record {
  loads = λ payload. if payload == 1 then some snapshot_json else none;
  sha256 = λ payload. payload;
  int_of = λ text. some (pos text);
  canonical_text = λ text. none;
}

abbrev snapshot : Ident → IncomingEvent
snapshot payload = record {
  event_type = EventType.book_snapshot;
  venue = some 9;
  environment = 1;
  instrument_id = some 3;
  source_channel = 4;
  connection_epoch = 5;
  source_message_id = none;
  receive_wall_ns = 10;
  receive_monotonic_ns = 10;
  available_ns = 10;
  raw_ref = none;
  payload = payload;
}

abbrev builder : BookBuilder
builder = calls library (new_builder (Contract.snapshots) 20 20000 500) (receive (snapshot 1) ∷ [])

calls-Served_example : Served builder.state builder.view
calls-Served_example =
    calls-Served library Contract.snapshots 20 20000 500 (receive (snapshot 1) ∷ [])

-- A payload that is no JSON breaks the book, and the snapshot after it does not mend it.
abbrev broken : BookBuilder
broken =
    calls library (new_builder (Contract.snapshots) 20 20000 500)
      (receive (snapshot 1) ∷ receive (snapshot 2) ∷ [])

broken_until_sync_example :
    is_broken (calls library broken (receive (snapshot 1) ∷ age 900 ∷ [])).state ≡ true
unfolding calls new_builder
broken_until_sync_example =
    broken_until_sync library broken (receive (snapshot 1) ∷ age 900 ∷ []) refl refl
      (refl, (refl, tt))

abbrev level : ℕ → ℕ → BookLevel
level price size = record { price_ticks = price; size_lots = size }

apply_levels_updates_example :
    lookup 98 (apply_levels ((99, 5) ∷ (98, 7) ∷ []) (level 98 0 ∷ level 97 2 ∷ []))
    ≡ updated 98 (level 98 0 ∷ level 97 2 ∷ []) (lookup 98 ((99, 5) ∷ (98, 7) ∷ []))
unfolding levels
apply_levels_updates_example =
    apply_levels_updates (λ text. none)
      (array (item (json_level 98 0) (item (json_level 97 2) end_list)))
      (level 98 0 ∷ level 97 2 ∷ []) ((99, 5) ∷ (98, 7) ∷ []) 98 refl (refl, (refl, tt))
