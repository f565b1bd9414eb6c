-- ===== src/Execution/Oms/Change.antt =====
-- `_reservation` and `_change`: what a transition publishes. Each order that differs gets a new
-- revision and a reservation; each new command an outbox instruction, each changed one an update.
use rs_quant.Base.{
  ℕ, ◌+◌, Bool, Option, none, some, List, [], ◌∷◌, ◌==◌, elem, keep, not, is_some, ◌++◌,
  if◌then◌else◌,
}
use rs_quant.Base.Dict.{Dict, lookup, dict_from}
use rs_quant.Core.Types.{Ident}
use rs_quant.Execution.OrderState.{
  OrderState, OmsState, CommandState, CommandStatus, GatewayInstruction, order, cancel_order,
  client_id, command_id, command_client, reserved_lots, unresolved_fill_lots,
}
use rs_quant.Portfolio.State.{ReservationChanged}
use rs_quant.Execution.Intents.{Envelope}
use rs_quant.Execution.Oms.Same.{Externals, same_order}
use rs_quant.Execution.Oms.Lookup.{put_order}

pub record OutboxInstruction : Type 0 where
  pub instruction_id : Ident
  pub client_order_id : Ident
  pub payload : Ident
  pub risk_version : Ident
  pub fence_epoch : Ident
  pub committed_seq : ℕ
  pub expires_at : ℕ

pub record OutboxStatusUpdate : Type 0 where
  pub instruction_id : Ident
  pub prior_status : CommandStatus
  pub status : CommandStatus
  pub event_id : Ident

pub record OmsChange : Type 0 where
  pub state : OmsState
  pub reservation_updates : List ReservationChanged
  pub outbox_instructions : List OutboxInstruction
  pub outbox_updates : List OutboxStatusUpdate
  pub emitted_facts : List Ident

-- `OmsChange(state)`
abbrev pub no_change : OmsState → OmsChange
no_change st = record {
  state = st;
  reservation_updates = [];
  outbox_instructions = [];
  outbox_updates = [];
  emitted_facts = [];
}

abbrev pub risk_version_of : GatewayInstruction → Ident
risk_version_of (order i) = i.risk_version
risk_version_of (cancel_order c) = c.risk_version

abbrev pub fence_of : GatewayInstruction → Ident
fence_of (order i) = i.gateway_fence
fence_of (cancel_order c) = c.gateway_fence

abbrev pub expiry_of : GatewayInstruction → ℕ
expiry_of (order i) = i.expires_at_ns
expiry_of (cancel_order c) = c.expires_at_ns

abbrev status_code : CommandStatus → ℕ
status_code CommandStatus.pending = 0
status_code CommandStatus.unknown = 1
status_code CommandStatus.sent = 2
status_code CommandStatus.resolved = 3
status_code CommandStatus.rejected = 4
status_code CommandStatus.expired = 5
status_code CommandStatus.canceled = 6
status_code CommandStatus.blocked = 7

abbrev pub same_status : CommandStatus → CommandStatus → Bool
same_status a b = status_code a == status_code b

abbrev pub seq_of : Option Envelope → ℕ
seq_of none = 0
seq_of (some e) = e.engine_seq

abbrev pub event_of : Option Envelope → Ident
event_of none = 0
event_of (some e) = e.event_id

module _ (py : Externals) where
  unfoldable pub reservation : OrderState → ReservationChanged
  unfolding reserved_lots unresolved_fill_lots
  reservation o = record {
    reservation_id = o.instruction.instruction_id;
    instrument_id = o.instruction.instrument_id;
    side = o.instruction.side;
    remaining_lots = reserved_lots o;
    cash_amount = py.share o.cash_reserve (reserved_lots o) o.instruction.quantity_lots;
    fee_buffer = py.share o.fee_reserve (reserved_lots o) o.instruction.quantity_lots;
    reduce_only = o.instruction.reduce_only;
    revision = o.revision;
    unresolved_lots = unresolved_fill_lots o;
  }

  -- the order beside the one that was there before
  unfoldable pub revise_with :
      Option OrderState → OrderState → OmsState → OmsState × List ReservationChanged
  unfolding put_order reservation
  revise_with none o st = (st, reservation o ∷ [])
  revise_with (some old) o st =
      let newer : OrderState = record o { revision = old.revision + 1 } in
      if same_order py old o then (st, []) else (put_order st newer, reservation newer ∷ [])

  -- one round of the loop over the orders: the state, and the reservation if there is one
  unfoldable pub revise_order :
      List OrderState → OrderState → OmsState → OmsState × List ReservationChanged
  unfolding revise_with
  revise_order before o = revise_with (lookup (client_id o) (dict_from client_id [] before)) o

  unfoldable pub revise_orders :
      List OrderState → List OrderState → OmsState → OmsState × List ReservationChanged
  unfolding revise_order
  revise_orders before [] st = (st, [])
  revise_orders before (o ∷ os) st =
      let (st', rs) = revise_order before o st in
      let (st'', rest) = revise_orders before os st' in (st'', rs ++ rest)

  unfoldable pub outbox_instruction : ℕ → CommandState → OutboxInstruction
  outbox_instruction seq c = record {
    instruction_id = command_id c;
    client_order_id = command_client c;
    payload = py.canonical_bytes c.instruction;
    risk_version = risk_version_of c.instruction;
    fence_epoch = fence_of c.instruction;
    committed_seq = seq;
    expires_at = expiry_of c.instruction;
  }

  -- a command that was not there before
  unfoldable pub new_instructions :
      Dict CommandState → ℕ → List CommandState → List OutboxInstruction
  unfolding outbox_instruction
  new_instructions before seq [] = []
  new_instructions before seq (c ∷ cs) =
      let rest = new_instructions before seq cs in
      if is_some (lookup (command_id c) before) then rest else outbox_instruction seq c ∷ rest

unfoldable pub status_update : Ident → CommandState → CommandState → List OutboxStatusUpdate
status_update event c prior =
    if same_status c.status prior.status
    then []
    else record {
      instruction_id = command_id c;
      prior_status = prior.status;
      status = c.status;
      event_id = event;
    }
      ∷ []

-- a command whose status differs
unfoldable pub status_updates :
    Dict CommandState → Ident → List CommandState → List OutboxStatusUpdate
unfolding status_update
status_updates before event [] = []
status_updates before event (c ∷ cs) =
    (elim (lookup (command_id c) before) [ none ↦ [] | some prior ↦ status_update event c prior ])
    ++ status_updates before event cs

module _ (py : Externals) where
  -- `OMS._change`
  unfoldable pub change : OmsState → OmsState → Option Envelope → OmsChange
  unfolding revise_orders new_instructions status_updates
  change before after event =
      let (next, reservations) = revise_orders py before.orders after.orders after in
      let old = dict_from command_id [] before.commands in
      record {
        state = next;
        reservation_updates = reservations;
        outbox_instructions = new_instructions py old (seq_of event) next.commands;
        outbox_updates = status_updates old (event_of event) next.commands;
        emitted_facts = keep (λ i. not (elem i before.incidents)) next.incidents;
      }
