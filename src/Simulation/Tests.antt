-- ===== src/Simulation/Tests.antt =====
-- The theorems of the simulator at concrete calls and trades.
use rs_quant.Base.{ℕ, ◌-◌, ◌≡◌, refl, arith, Bool, true, false, List, [], ◌∷◌, min}
use rs_quant.Base.Dict.{Dict, lookup}
use rs_quant.Simulation.Liquidity.{
  Consumption, new_budget, filled_at, requested_at, held, filled_at_once,
}
use rs_quant.Simulation.Queue.{QueueState, trades, filled_by}
use rs_quant.Simulation.Trades.{after_trades, trades_fill_after_queue}

abbrev take : Bool → ℕ → ℕ → Consumption
take is_buy price lots = record {
  is_buy = is_buy;
  price_ticks = price;
  requested_lots = lots;
  available_lots = 10;
}

abbrev consumptions : List Consumption
consumptions = take true 100 6 ∷ take false 100 9 ∷ take true 101 3 ∷ take true 100 7 ∷ []

filled_at_once_example :
    filled_at true 100 new_budget consumptions
    ≡ min (requested_at true 100 consumptions) (10 - held true 100 new_budget)
filled_at_once_example =
    filled_at_once true 100 10 new_budget consumptions
      ((λ h. refl), ((λ h. refl), ((λ h. refl), ((λ h. refl), tt))))

abbrev resting : QueueState
resting = record {
  order_id = 7;
  price_ticks = 100;
  is_buy = true;
  queue_ahead_lots = 5;
  own_remaining_lots = 4;
  own_filled_lots = 0;
}

abbrev queue : Dict QueueState
queue = (7, resting) ∷ []

trades_fill_after_queue_example :
    (lookup 7 (trades queue false 100 (3 ∷ 4 ∷ [])) ≡ after_trades resting 7)
    × (filled_by queue 7 false 100 (3 ∷ 4 ∷ []) ≡ min 4 (7 - 5))
trades_fill_after_queue_example =
    trades_fill_after_queue false 100 7 queue resting (3 ∷ 4 ∷ []) (refl, tt) refl refl
      (omega arith)
