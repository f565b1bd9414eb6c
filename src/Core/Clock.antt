-- ===== src/Core/Clock.antt =====
-- `VirtualClock`, `AvailabilityClock` and `DeterministicScheduler` of src/quantdesk/core/clock.py.
-- The heap is a list sorted by its keys, from which `heappop` takes the first entry.
pub mod Monotone
use rs_quant.Base.{
  ℕ, suc, ◌+◌, ◌-◌, max, Bool, true, false, not, Option, none, some, List, [], ◌∷◌, ◌++◌, Result,
  ok, raise, ◌>>=◌, ◌>>◌, raise_if, ◌==◌, ltb, ◌&&◌, ◌||◌, if◌then◌else◌,
}
use rs_quant.Base.Int.{ℤ, pos, pos_part, ltb_ℤ}
use rs_quant.Base.Sort.{insert_with, le_tuple}
use rs_quant.Core.Types.{Ident, truthy}

pub data ClockError : Type 0 where
  moves_backward invalid_anchor new_boot_epoch observation_regressed : ClockError
  availability_regressed precedes_cause empty_queue : ClockError

-- The time of a `VirtualClock`.
unfoldable pub advance : ℕ → ℤ → Result ClockError ℕ
advance now delta = do raise_if (ltb_ℤ delta (pos 0)) moves_backward; ok (now + pos_part delta)

unfoldable pub advance_to : ℕ → ℤ → Result ClockError ℕ
advance_to now target = do raise_if (ltb_ℤ target (pos now)) moves_backward; ok (pos_part target)

-- `reason` is the anchor that the adjustment names.
pub record ClockAdjusted : Type 0 where
  pub prior_available_ns : ℕ
  pub next_available_ns : ℕ
  pub boot_epoch : Ident
  pub wall_ns : ℕ
  pub monotonic_ns : ℕ

pub record AvailabilityClock : Type 0 where
  pub wall_ns : ℕ
  pub monotonic_ns : ℕ
  pub boot_epoch : Ident
  pub anchor_available_ns : ℕ
  pub last_monotonic_ns : ℕ
  pub available_ns : ℕ
  pub adjustments : List ClockAdjusted

-- `anchor`, with the checks of the constructor.
unfoldable pub anchor : ℤ → ℤ → Ident → ℕ → Result ClockError AvailabilityClock
anchor wall monotonic boot persisted = do
  raise_if (ltb_ℤ wall (pos 0) || ltb_ℤ monotonic (pos 0) || not (truthy boot)) invalid_anchor
  let available = max (pos_part wall) persisted
  ok (record {
    wall_ns = pos_part wall;
    monotonic_ns = pos_part monotonic;
    boot_epoch = boot;
    anchor_available_ns = available;
    last_monotonic_ns = pos_part monotonic;
    available_ns = available;
    adjustments =
        record {
          prior_available_ns = persisted;
          next_available_ns = available;
          boot_epoch = boot;
          wall_ns = pos_part wall;
          monotonic_ns = pos_part monotonic;
        }
        ∷ [];
  })

unfoldable pub observe : AvailabilityClock → ℤ → ℤ → Ident → Result ClockError AvailabilityClock
observe c wall monotonic boot = do
  raise_if (not (boot == c.boot_epoch)) new_boot_epoch
  raise_if (ltb_ℤ monotonic (pos c.last_monotonic_ns) || ltb_ℤ wall (pos 0)) observation_regressed
  ok (record c {
    last_monotonic_ns = pos_part monotonic;
    available_ns = c.anchor_available_ns + pos_part monotonic - c.monotonic_ns;
  })

unfoldable pub reanchor : AvailabilityClock → ℤ → ℤ → Ident → Result ClockError AvailabilityClock
unfolding anchor
reanchor c wall monotonic boot = do
  next ← anchor wall monotonic boot c.available_ns
  ok (record next { adjustments = c.adjustments ++ next.adjustments })

-- The values of `SourceRank`.
pub data SourceRank : Type 0 where
  market_account market_execution order_arrival cancel_arrival strategy_timer : SourceRank

abbrev pub rank_number : SourceRank → ℕ
rank_number market_account = 10
rank_number market_execution = 20
rank_number order_arrival = 30
rank_number cancel_arrival = 40
rank_number strategy_timer = 50

-- An entry of the queue; the event is its identity.
pub record Entry : Type 0 where
  pub available_ns : ℕ
  pub rank : ℕ
  pub source_ordinal : ℕ
  pub scheduled_ordinal : ℕ
  pub event : Ident

pub record DeterministicScheduler : Type 0 where
  pub queue : List Entry
  pub next_ordinal : ℕ
  pub last_available_ns : ℕ

abbrev pub new_scheduler : DeterministicScheduler
new_scheduler = record { queue = []; next_ordinal = 0; last_available_ns = 0 }

-- The order of the tuples; scheduled ordinals differ, so events are never compared.
abbrev pub le_entry : Entry → Entry → Bool
le_entry a b =
    le_tuple (a.available_ns ∷ a.rank ∷ a.source_ordinal ∷ a.scheduled_ordinal ∷ [])
      (b.available_ns ∷ b.rank ∷ b.source_ordinal ∷ b.scheduled_ordinal ∷ [])

abbrev pub precedes : ℕ → Option ℕ → Bool
precedes available none = false
precedes available (some cause) = ltb available cause

pub record ScheduleRequest : Type 0 where
  pub event : Ident
  pub available_ns : ℕ
  pub rank : SourceRank
  pub source_ordinal : ℤ
  pub caused_at_ns : Option ℕ

unfoldable pub schedule :
    DeterministicScheduler → ScheduleRequest → Result ClockError DeterministicScheduler
schedule s r = do
  raise_if (ltb_ℤ r.source_ordinal (pos 0) || ltb r.available_ns s.last_available_ns)
      availability_regressed
  raise_if (precedes r.available_ns r.caused_at_ns) precedes_cause
  ok (record s {
    queue =
        insert_with le_entry
          (record {
            available_ns = r.available_ns;
            rank = rank_number r.rank;
            source_ordinal = pos_part r.source_ordinal;
            scheduled_ordinal = s.next_ordinal;
            event = r.event;
          })
          s.queue;
    next_ordinal = suc s.next_ordinal;
  })

abbrev pub pop_from :
    DeterministicScheduler → List Entry → Result ClockError (DeterministicScheduler × Entry)
pop_from s [] = raise empty_queue
pop_from s (e ∷ q) = ok (record s { queue = q; last_available_ns = e.available_ns }, e)

unfoldable pub pop : DeterministicScheduler → Result ClockError (DeterministicScheduler × Entry)
pop s = pop_from s s.queue
