-- ===== src/Risk/Tests.antt =====
-- The theorems of the flatten workflows and of the risk limits at concrete inputs.
use rs_quant.Base.{ℕ, suc, ◌+◌, ◌-◌, ◌≤◌, ◌≡◌, ◌↔◌, refl, true, none, some, [], ◌∷◌, sum, length}
use rs_quant.Base.Dict.{lookup}
use rs_quant.Base.Int.{negsuc, abs}
use rs_quant.Risk.Emergency.{FlattenState, FlattenStatus, FlattenRequest}
use rs_quant.Risk.Flatten.{
  start, update, calls, IsHonest, success_means_flat, flatten_tracks_residual,
}
use rs_quant.Base.{false, ltb, Result, ok, raise, ◌*◌, ◌/◌, if◌then◌else◌}
use rs_quant.Base.Int.{pos}
use rs_quant.Portfolio.Instruments.{integer}
use rs_quant.Core.Types.{Decimal}
use rs_quant.Risk.Limits.{
  RiskDecimals, RiskConfig, PreTrade, Mode, Environment, Amount, Verdict, evaluate_pre_trade,
  DecimalError, decimal_exception, daily_loss_exceeded, drawdown_exceeded,
}
use rs_quant.Risk.Limits.Conditions.{IsAdmissible}
use rs_quant.Risk.Limits.Admission.{evaluate_accepted_iff}

abbrev request : FlattenRequest
request = record {
  scope = 1;
  workflow_id = 2;
  instrument_id = some 3;
  position_lots = negsuc 9;
  venue_available = true;
  data_trustworthy = true;
}

abbrev finished : FlattenState
finished = record {
  workflow_id = 2;
  scope = 1;
  instrument_id = some 3;
  position_lots_at_start = 10;
  remaining_lots = 0;
  status = FlattenStatus.succeeded;
  attempts = 2;
  residual_reason = none;
}

success_means_flat_example : IsHonest finished
unfolding calls
success_means_flat_example =
    success_means_flat (start request ∷ update 2 6 1 ∷ update 5 1 1 ∷ update 2 4 1 ∷ []) 2 finished
      refl

flatten_tracks_residual_example :
    (t : FlattenState) × (lookup 2 (calls [] (start request ∷ update 2 6 1 ∷ update 2 3 1 ∷ []))
      ≡ some t)
    × (t.remaining_lots ≡ abs (negsuc 9) - (6 + sum (3 ∷ [])))
    × (t.attempts ≡ suc (length {A = ℕ} (3 ∷ [])))
    × ((t.status ≡ FlattenStatus.succeeded) ↔ (abs (negsuc 9) ≤ 6 + sum (3 ∷ [])))
flatten_tracks_residual_example = flatten_tracks_residual [] request 1 6 (3 ∷ []) refl refl

-- Natural numbers below a million in place of decimals, and hundredths for a quotient.
abbrev bounded : ℕ → Result DecimalError Decimal
bounded n = if ltb n 1000000 then ok (integer (pos n)) else raise decimal_exception

abbrev decimals : RiskDecimals
decimals = record {
  less = λ a b. ltb a.digits b.digits;
  add = λ a b. bounded (a.digits + b.digits);
  subtract = λ a b. bounded (a.digits - b.digits);
  divide = λ a b. bounded (100 * a.digits / b.digits);
}

abbrev config : RiskConfig
config = record {
  max_open_entry_orders_per_symbol = 2;
  max_open_orders_account = 5;
  max_spread_bps = integer (pos 10);
  max_order_visible_depth_fraction = integer (pos 1);
  max_gross_notional_fraction = integer (pos 1);
  max_symbol_notional_fraction = integer (pos 1);
  max_order_notional_usdt = none;
  max_total_notional_usdt = none;
  daily_loss_fraction = integer (pos 3);
  max_daily_loss_usdt = some (integer (pos 30));
  peak_drawdown_fraction = integer (pos 2);
  market_data_max_age_ms = 500;
  mark_max_age_ms = 500;
  private_heartbeat_max_age_ms = 500;
  max_ingress_age_ms = 500;
  max_clock_offset_ms = 50;
  disk_reserve_gib = 1;
  protection_confirmation_ms = 1000;
}

abbrev intent : PreTrade
intent = record {
  mode = Mode.other_mode;
  live_enabled = false;
  environment = Environment.demo;
  reconciled = true;
  active_latches = (1, false) ∷ [];
  desired_quantity = some (Amount.finite (integer (pos 3)));
  risk_budget = none;
  price = some (Amount.finite (integer (pos 100)));
  intent_id = 7;
  consumed_intents = 6 ∷ [];
  open_entry_orders_symbol = 1;
  open_orders_account = 4;
  spread_bps = some (integer (pos 9));
  event_available_ns = 1000000000;
  market_data_ns = some 900000000;
  mark_ns = none;
  heartbeat_ns = none;
  ingress_ns = none;
  clock_offset_ms = negsuc 3;
  baseline_equity = integer (pos 1000);
  current_equity = integer (pos 980);
  net_external_flow = integer (pos 0);
  peak_equity = integer (pos 1000);
}

intent_accepted : evaluate_pre_trade decimals config intent ≡ ok Verdict.accepted
unfolding evaluate_pre_trade
intent_accepted = refl

evaluate_accepted_iff_example :
    evaluate_pre_trade decimals config intent ≡ ok Verdict.accepted
    ↔ IsAdmissible decimals config intent
evaluate_accepted_iff_example = evaluate_accepted_iff decimals config intent

-- A day's loss of 4 in 100, a fall of 3 in 100 from the peak, and a flow that is too large.
loss_refused :
    evaluate_pre_trade decimals config (record intent { net_external_flow = integer (pos 20) })
    ≡ ok (Verdict.refused daily_loss_exceeded)
unfolding evaluate_pre_trade
loss_refused = refl

fall_refused :
    evaluate_pre_trade decimals config (record intent { peak_equity = integer (pos 1020) })
    ≡ ok (Verdict.refused drawdown_exceeded)
unfolding evaluate_pre_trade
fall_refused = refl

flow_raises :
    evaluate_pre_trade decimals config (record intent { net_external_flow = integer (pos 1000000) })
    ≡ raise decimal_exception
unfolding evaluate_pre_trade
flow_raises = refl
