-- ===== src/Execution/Tests.antt =====
-- The theorems of the OMS and of the protection manager at concrete orders, events and reviews.
use rs_quant.Base.{
  same_bool, ℕ, ◌≤◌, ◌<◌, ◌≡◌, ◌≢◌, ◌↔◌, refl, arith, Bool, true, false, none, some, List, [], ◌∷◌,
  Result, ok, raise, ◌==◌, ◌&&◌, length, if◌then◌else◌, leb, ◌-◌,
}
use rs_quant.Base.Int.{pos, abs}
use rs_quant.Core.Types.{Ident, Side, buy, sell, OrderInstruction, OrderType, TimeInForce}
use rs_quant.Portfolio.State.{LedgerState, executable_lots, position, zero_decimal, new_ledger}
use rs_quant.Execution.OrderState.{
  Lifecycle, PendingAction, Knowledge, OrderState, OmsState, find_client, remaining_lots,
  instruction_id_of,
}
use rs_quant.Execution.Intents.{OrderApproved, Envelope, Payload, dispatch_started, order_report}
use rs_quant.Execution.Oms.Same.{Externals, OmsError}
use rs_quant.Execution.Oms.Change.{OmsChange, no_change, reservation}
use rs_quant.Base.Keyed.{upsert}
use rs_quant.Execution.Oms.Commands.{dispatch_branch}
use rs_quant.Execution.Oms.Link.{link_and_project}
use rs_quant.Execution.Oms.Apply.{apply, run}
use rs_quant.Execution.Oms.Approve.{approve, replace_order, is_consumed}
use rs_quant.Execution.Oms.Orders.{HasKeys, Evolves}
use rs_quant.Execution.Oms.Advance.{run-Evolves}
use rs_quant.Execution.Oms.Dispatch.{dispatch_once}
use rs_quant.Execution.Oms.Lots.{IsReplacement, reservation_bounds, replace_order_sound}
use rs_quant.Execution.Oms.Approval.{IsEntry, IsExit, approve_sound}
use rs_quant.Execution.Protection.{
  NativeProtection, ProtectionState, ProtectionDecision, ProtectionStatus, ProtectionAction,
  Observation, largest, matching_stops, is_stop, evaluate, pending_text, stop_text, long_text,
}
use rs_quant.Execution.Protection.Safety.{latches, evaluate_protected_iff}
use rs_quant.Execution.Protection.Deadline.{Review, IsExposed, follow, exposure_expires}

-- Decimals of exponent zero, and identities that are one number.
abbrev library : Externals
library = record {
  eq_decimal = λ a b. same_bool a.negative b.negative && a.digits == b.digits;
  share = λ amount lots quantity. amount;
  digest = λ side lots price fee currency kind. lots;
  venue_of = λ instrument. 9;
  canonical_bytes = λ i. instruction_id_of i;
}

abbrev instruction : Ident → Side → ℕ → Bool → OrderInstruction
instruction n side lots reduce_only = record {
  instruction_id = n;
  client_order_id = n;
  parent_intent_id = n;
  account_id = 2;
  environment = 1;
  instrument_id = 3;
  side = side;
  quantity_lots = lots;
  price_ticks = some 100;
  order_type = OrderType.limit;
  time_in_force = TimeInForce.gtc;
  reduce_only = reduce_only;
  native_trigger_basis = none;
  native_trigger_value = none;
  owner_strategy_id = 4;
  protection_group_id = none;
  expires_at_ns = 50;
  risk_version = 5;
  gateway_fence = 6;
}

abbrev approval : OrderInstruction → OrderApproved
approval i = record { instruction = i; cash_reserve = zero_decimal; fee_reserve = zero_decimal }

abbrev no_orders : OmsState
no_orders = record {
  venue = 9;
  environment = 1;
  account = 2;
  orders = [];
  executions = [];
  commands = [];
  incidents = [];
  symbol_owners = [];
}

abbrev long_ten : LedgerState
long_ten = record (new_ledger 9 1 2) {
  available_ns = 10;
  positions =
      record {
        instrument_id = 3;
        signed_lots = pos 10;
        base_quantity = zero_decimal;
        average_entry = none;
        spec_revision = 1;
      }
      ∷ [];
}

abbrev change_of : Result OmsError OmsChange → OmsState → OmsChange
change_of (ok c) st = c
change_of (raise e) st = no_change st

-- An entry of ten lots is approved on no orders, then claimed and filled in part.
abbrev entry : OrderApproved
entry = approval (instruction 7 buy 10 false)

abbrev exit : OrderApproved
exit = approval (instruction 8 sell 10 true)

abbrev with_entry : OmsState
with_entry = (change_of (approve library entry no_orders long_ten 10) no_orders).state

approve_sound_example :
    (10 < 50)
    × (is_consumed exit.instruction no_orders ≡ false)
    × (true ≡ true → IsExit exit.instruction long_ten)
    × (true ≡ false → IsEntry exit.instruction no_orders long_ten)
unfolding approve find_client position
approve_sound_example =
    approve_sound library exit no_orders long_ten 10
      (change_of (approve library exit no_orders long_ten 10) no_orders) (omega arith) refl refl

abbrev event : ℕ → Payload → Envelope
event seq payload = record {
  venue = 9;
  environment = 1;
  account_id = some 2;
  instrument_id = some 3;
  event_id = seq;
  engine_seq = seq;
  available_ns = seq;
  payload = payload;
}

abbrev opened_report : Payload
opened_report = order_report (record {
  client_order_id = 7;
  venue_order_id = some 70;
  lifecycle = some Lifecycle.partially_filled;
  cumulative_fill_lots = 4;
  event_ns = 1;
})

abbrev later_events : List Envelope
later_events = event 12 opened_report ∷ event 13 opened_report ∷ []

run-Evolves_example :
    HasKeys (run library later_events with_entry).orders
    × Evolves with_entry.orders (run library later_events with_entry).orders
unfolding approve position upsert
run-Evolves_example = run-Evolves library later_events with_entry (tt, tt)

abbrev claimed : OmsChange
claimed = change_of (apply library (event 11 (dispatch_started 7 90)) with_entry) with_entry

dispatch_once_example :
    apply library (event 14 (dispatch_started 7 91)) (run library later_events claimed.state)
    ≢ ok claimed
unfolding apply approve position upsert dispatch_branch link_and_project
dispatch_once_example =
    dispatch_once library 7 90 91 (event 11 (dispatch_started 7 90))
      (event 14 (dispatch_started 7 91)) later_events with_entry claimed claimed refl refl refl

abbrev canceled_order : OrderState
canceled_order = record {
  instruction = instruction 7 buy 10 false;
  cash_reserve = zero_decimal;
  fee_reserve = zero_decimal;
  venue_order_id = some 70;
  lifecycle = Lifecycle.canceled;
  pending = PendingAction.idle;
  knowledge = Knowledge.confirmed;
  reported_fill_lots = 4;
  accounted_fill_lots = 4;
  revision = 5;
  transport_started = true;
}

abbrev with_canceled : OmsState
with_canceled = record no_orders { orders = canceled_order ∷ [] }

reservation_bounds_example :
    ((reservation library canceled_order).unresolved_lots
      ≤ (reservation library canceled_order).remaining_lots)
    × (executable_lots (reservation library canceled_order) ≤ remaining_lots canceled_order)
    × (true ≡ true → executable_lots (reservation library canceled_order) ≡ 0)
reservation_bounds_example = reservation_bounds library canceled_order

replace_order_sound_example :
    (o : OrderState) × (find_client 7 with_canceled.orders ≡ some o)
    × (instruction 8 buy 6 false ≡ instruction 8 buy 6 false)
    × IsReplacement 7 (instruction 8 buy 6 false) o
unfolding replace_order
replace_order_sound_example =
    replace_order_sound 7 (instruction 8 buy 6 false) (instruction 8 buy 6 false) with_canceled
      (omega arith) refl

-- A long position of five lots beside one stop that fits, and beside one that is too small.
abbrev native_stop : ℕ → NativeProtection
native_stop lots = record {
  native_id = 1;
  group_id = 20;
  quantity_lots = lots;
  trigger_basis = 21;
  trigger_value = 22;
  status = pending_text;
  safe_reduce = true;
  kind = stop_text;
  instrument_id = some 3;
  position_side = some long_text;
  reduce_only = some true;
}

abbrev group : ProtectionState
group = record {
  group_id = 20;
  instrument_id = 3;
  desired_lots = 5;
  trigger_basis = 21;
  trigger_value = 22;
  status = ProtectionStatus.pending;
  failure_started_ns = none;
}

abbrev five_long : ℕ → Observation
five_long now = record {
  owned_lots = pos 5;
  observed_ns = now;
  verified_flat = false;
  capability_verified = true;
}

abbrev same_text : Ident → Ident → Bool
same_text a b = a == b

abbrev covered_decision : ProtectionDecision
covered_decision = record {
  state = record group { status = ProtectionStatus.protected };
  actions = [];
  covered_lots = 5;
}

evaluate_protected_iff_example :
    let stops = matching_stops same_text group (pos 5) (native_stop 5 ∷ []) in
    ((ProtectionStatus.protected ≡ ProtectionStatus.protected)
      ↔ ((true ≡ true) × (length stops ≡ 1) × (largest stops ≡ abs (pos 5))))
    × (ProtectionStatus.protected ≢ ProtectionStatus.protected → latches [] ≡ true)
    × (abs (pos 5) ≡ 5)
unfolding evaluate
evaluate_protected_iff_example =
    evaluate_protected_iff same_text 100 group (native_stop 5 ∷ []) (five_long 10) covered_decision
      (omega arith) refl

abbrev exposed_at : ℕ → Review same_text 100
exposed_at now = (native_stop 3 ∷ [], five_long now)

exposed_at-IsExposed : (now : ℕ) → 10 ≤ now → IsExposed same_text 100 group 10 (exposed_at now)
unfolding matching_stops largest is_stop
exposed_at-IsExposed now h = record {
  is_open = omega arith;
  is_capable = refl;
  is_later = h;
  is_uncovered = refl;
}

exposure_expires_example :
    (s' : ProtectionState) × (d : ProtectionDecision) × (follow same_text 100 group
        (exposed_at 10 ∷ exposed_at 40 ∷ [])
      ≡ ok s')
    × (evaluate same_text 100 s' (native_stop 3 ∷ []) (five_long 110) ≡ ok d)
    × (d.state.failure_started_ns ≡ some 10)
    × ((d.state.status ≡ ProtectionStatus.exit_required) ↔ (100 ≤ 110 - 10))
    × (d.actions
        ≡ ProtectionAction.latch_entries
          ∷ ProtectionAction.cancel_entry_remainder
          ∷ (if leb 100 (110 - 10)
              then ProtectionAction.bounded_reduce_only_exit
              else ProtectionAction.restore_stop)
          ∷ [])
exposure_expires_example =
    exposure_expires same_text 100 group (exposed_at 10) (exposed_at 40 ∷ []) (exposed_at 110) refl
      (exposed_at-IsExposed 10 (omega arith), (exposed_at-IsExposed 40 (omega arith), tt))
      (exposed_at-IsExposed 110 (omega arith))
