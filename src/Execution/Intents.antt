-- ===== src/Execution/Intents.antt =====
-- src/quantdesk/execution/intents.py, and the reports of src/quantdesk/core/events.py that the
-- OMS reads.
use rs_quant.Base.{ℕ, Option, List}
use rs_quant.Core.Types.{
  Ident, Decimal, OrderInstruction, SubmitTransportResult, CancelTransportResult, ExecutionReport,
}
use rs_quant.Execution.OrderState.{Lifecycle, CancelRequested}

pub record OrderApproved : Type 0 where
  pub instruction : OrderInstruction
  pub cash_reserve : Decimal
  pub fee_reserve : Decimal

-- `lifecycle` is `none` for a text that names no member of `Lifecycle`.
pub record OrderReport : Type 0 where
  pub client_order_id : Ident
  pub venue_order_id : Option Ident
  pub lifecycle : Option Lifecycle
  pub cumulative_fill_lots : ℕ
  pub event_ns : ℕ

-- The reason of an abort, as far as the OMS tells reasons apart.
pub data AbortReason : Type 0 where
  expired canceled invalidated : AbortReason

-- The decoded payload of an account event. A financial event that is no execution is `other`,
-- as is all that `OMS.apply` passes over.
pub data Payload : Type 0 where
  cancel_attempt_observed : Ident → CancelTransportResult → Payload
  financial_event_observed : ExecutionReport → List Ident → Payload
  execution_report : ExecutionReport → Payload
  order_report : OrderReport → Payload
  submit_transport_result : SubmitTransportResult → Payload
  cancel_requested : CancelRequested → Payload
  cancel_transport_result : CancelTransportResult → Payload
  dispatch_started : Ident → Ident → Payload
  unsent_aborted : Ident → AbortReason → Payload
  other : Payload

-- What the OMS reads of an `Envelope`.
pub record Envelope : Type 0 where
  pub venue : Ident
  pub environment : Ident
  pub account_id : Option Ident
  pub instrument_id : Option Ident
  pub event_id : Ident
  pub engine_seq : ℕ
  pub available_ns : ℕ
  pub payload : Payload
