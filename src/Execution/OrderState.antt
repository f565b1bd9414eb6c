-- ===== src/Execution/OrderState.antt =====
-- src/quantdesk/execution/order_state.py. Lot counts are nonnegative Python ints, so `max(0, a - b)`
-- is the truncated difference of ℕ.
use rs_quant.Base.{
  ℕ, ◌-◌, Bool, true, false, Option, none, some, List, max, ◌==◌, eq_opt, any, find, keep,
  if◌then◌else◌, ◌||◌, not, is_some,
}
use rs_quant.Base.Dict.{Dict}
use rs_quant.Core.Types.{Ident, Decimal, Side, OrderInstruction}

pub data Lifecycle : Type 0 where
  created opened partially_filled filled canceled rejected expired : Lifecycle

pub data PendingAction : Type 0 where
  idle submit cancel amend : PendingAction

pub data Knowledge : Type 0 where
  confirmed uncertain reconciling : Knowledge

-- `status in TERMINAL`
abbrev pub is_terminal : Lifecycle → Bool
is_terminal Lifecycle.filled = true
is_terminal Lifecycle.canceled = true
is_terminal Lifecycle.rejected = true
is_terminal Lifecycle.expired = true
is_terminal _ = false

abbrev pub is_filled : Lifecycle → Bool
is_filled Lifecycle.filled = true
is_filled _ = false

abbrev pub is_confirmed : Knowledge → Bool
is_confirmed confirmed = true
is_confirmed _ = false

abbrev pub is_submit : PendingAction → Bool
is_submit submit = true
is_submit _ = false

abbrev pub is_cancel : PendingAction → Bool
is_cancel cancel = true
is_cancel _ = false

pub record OrderState : Type 0 where
  pub instruction : OrderInstruction
  pub cash_reserve : Decimal
  pub fee_reserve : Decimal
  pub venue_order_id : Option Ident
  pub lifecycle : Lifecycle
  pub pending : PendingAction
  pub knowledge : Knowledge
  pub reported_fill_lots : ℕ
  pub accounted_fill_lots : ℕ
  pub revision : ℕ
  pub transport_started : Bool

-- The defaults of the dataclass.
abbrev pub new_order : OrderInstruction → Decimal → Decimal → OrderState
new_order i cash fee = record {
  instruction = i;
  cash_reserve = cash;
  fee_reserve = fee;
  venue_order_id = none;
  lifecycle = Lifecycle.created;
  pending = submit;
  knowledge = confirmed;
  reported_fill_lots = 0;
  accounted_fill_lots = 0;
  revision = 1;
  transport_started = false;
}

abbrev pub client_id : OrderState → Ident
client_id o = o.instruction.client_order_id

unfoldable pub remaining_lots : OrderState → ℕ
remaining_lots o = o.instruction.quantity_lots - o.accounted_fill_lots

unfoldable pub unresolved_fill_lots : OrderState → ℕ
unresolved_fill_lots o =
    (if is_filled o.lifecycle
      then max o.reported_fill_lots o.instruction.quantity_lots
      else o.reported_fill_lots)
    - o.accounted_fill_lots

unfoldable pub reserved_lots : OrderState → ℕ
unfolding remaining_lots unresolved_fill_lots
reserved_lots o =
    if not (is_terminal o.lifecycle)
    then max (remaining_lots o) (unresolved_fill_lots o)
    else unresolved_fill_lots o

-- `lifecycle in {CANCELED, EXPIRED, REJECTED}`
abbrev pub is_unfilled_end : Lifecycle → Bool
is_unfilled_end Lifecycle.canceled = true
is_unfilled_end Lifecycle.expired = true
is_unfilled_end Lifecycle.rejected = true
is_unfilled_end _ = false

unfoldable pub canceled_remainder_lots : OrderState → ℕ
canceled_remainder_lots o =
    if not (is_unfilled_end o.lifecycle)
    then 0
    else o.instruction.quantity_lots - max o.reported_fill_lots o.accounted_fill_lots

pub record ExecutionIdentity : Type 0 where
  pub instrument_id : Ident
  pub native_ids : List Ident
  pub client_order_id : Option Ident
  pub venue_order_id : Option Ident
  pub side : Side
  pub lots : ℕ
  pub signature : Ident

-- src/quantdesk/execution/intents.py
pub record CancelRequested : Type 0 where
  pub instruction_id : Ident
  pub client_order_id : Ident
  pub expires_at_ns : ℕ
  pub risk_version : Ident
  pub gateway_fence : Ident

pub data GatewayInstruction : Type 0 where
  order : OrderInstruction → GatewayInstruction
  cancel_order : CancelRequested → GatewayInstruction

abbrev pub instruction_id_of : GatewayInstruction → Ident
instruction_id_of (order i) = i.instruction_id
instruction_id_of (cancel_order c) = c.instruction_id

abbrev pub client_id_of : GatewayInstruction → Ident
client_id_of (order i) = i.client_order_id
client_id_of (cancel_order c) = c.client_order_id

abbrev pub is_order : GatewayInstruction → Bool
is_order (order i) = true
is_order (cancel_order c) = false

pub data CommandStatus : Type 0 where
  pending unknown sent resolved rejected expired canceled blocked : CommandStatus

-- `status in {"PENDING", "UNKNOWN", "SENT"}`
abbrev pub is_unsettled : CommandStatus → Bool
is_unsettled CommandStatus.pending = true
is_unsettled CommandStatus.unknown = true
is_unsettled CommandStatus.sent = true
is_unsettled _ = false

pub record CommandState : Type 0 where
  pub instruction : GatewayInstruction
  pub status : CommandStatus
  pub attempt_id : Option Ident

abbrev pub command_id : CommandState → Ident
command_id c = instruction_id_of c.instruction

abbrev pub command_client : CommandState → Ident
command_client c = client_id_of c.instruction

-- The incidents that the OMS raises, in the order of their texts.
abbrev pub close_reservation_conflict : Ident
close_reservation_conflict = 1

abbrev pub execution_side_mismatch : Ident
execution_side_mismatch = 2

abbrev pub order_overfilled : Ident
order_overfilled = 3

abbrev pub reduce_only_venue_violation : Ident
reduce_only_venue_violation = 4

abbrev pub unknown_order : Ident
unknown_order = 5

pub record OmsState : Type 0 where
  pub venue : Ident
  pub environment : Ident
  pub account : Ident
  pub orders : List OrderState
  pub executions : List ExecutionIdentity
  pub commands : List CommandState
  pub incidents : List Ident
  pub symbol_owners : Dict Ident

-- `OmsState.order`, which raises StopIteration on a missing identity.
unfoldable pub find_client : Ident → List OrderState → Option OrderState
find_client k = find (λ o. client_id o == k)

unfoldable pub unmatched_executions : OmsState → List ExecutionIdentity
unmatched_executions st =
    keep
      (λ e.
        not (is_some e.client_order_id)
        || not (any (λ o. eq_opt (some (client_id o)) e.client_order_id) st.orders))
      st.executions
