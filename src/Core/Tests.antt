-- ===== src/Core/Tests.antt =====
-- The theorems of the clocks at concrete observations and requests.
use rs_quant.Base.{ℕ, ◌≤◌, refl, none, List, [], ◌∷◌}
use rs_quant.Base.Int.{pos}
use rs_quant.Core.Clock.{AvailabilityClock, anchor, ScheduleRequest, SourceRank, new_scheduler}
use rs_quant.Core.Clock.Monotone.{
  Reading, observed, anchored, readings, availability_never_falls, Call, enter, dispatch,
  dispatched, IsRising, dispatched-IsRising,
}

abbrev clock : AvailabilityClock
clock = record {
  wall_ns = 100;
  monotonic_ns = 7;
  boot_epoch = 1;
  anchor_available_ns = 120;
  last_monotonic_ns = 7;
  available_ns = 120;
  adjustments =
      record {
        prior_available_ns = 120;
        next_available_ns = 120;
        boot_epoch = 1;
        wall_ns = 100;
        monotonic_ns = 7;
      }
      ∷ [];
}

abbrev first_readings : List Reading
first_readings = observed (pos 90) (pos 17) 1 ∷ observed (pos 90) (pos 9) 1 ∷ []

abbrev later_readings : List Reading
later_readings = anchored (pos 50) (pos 2) 3 ∷ observed (pos 60) (pos 4) 3 ∷ []

availability_never_falls_example :
    (120 ≤ clock.available_ns)
    × ((readings clock first_readings).available_ns
        ≤ (readings (readings clock first_readings) later_readings).available_ns)
unfolding anchor
availability_never_falls_example =
    availability_never_falls (pos 100) (pos 7) 1 120 clock first_readings later_readings refl

abbrev request : ℕ → ℕ → SourceRank → ScheduleRequest
request event available rank = record {
  event = event;
  available_ns = available;
  rank = rank;
  source_ordinal = pos 0;
  caused_at_ns = none;
}

abbrev requests : List Call
requests =
    enter (request 1 30 SourceRank.strategy_timer)
    ∷ enter (request 2 20 SourceRank.market_account)
    ∷ dispatch
    ∷ enter (request 3 10 SourceRank.market_account)
    ∷ enter (request 4 30 SourceRank.order_arrival)
    ∷ dispatch
    ∷ dispatch
    ∷ []

dispatched-IsRising_example : IsRising (dispatched new_scheduler requests)
dispatched-IsRising_example = dispatched-IsRising requests
