-- ===== src/Execution/Oms/Same.antt =====
-- Equality of the dataclasses that the OMS compares, errors, and what it takes from elsewhere.
pub use rs_quant.Base.{same_bool}
use rs_quant.Base.{ℕ, Bool, true, false, Option, none, some, ◌==◌, eq_opt, ◌&&◌}
use rs_quant.Core.Types.{
  Ident, Decimal, Side, same_side, OrderType, limit, market, stop, TimeInForce, gtc, ioc, fok,
  post_only, ExecutionType, OrderInstruction,
}
use rs_quant.Execution.OrderState.{
  Lifecycle, PendingAction, idle, submit, cancel, amend, Knowledge, confirmed, uncertain,
  reconciling, OrderState, CancelRequested, GatewayInstruction, order, cancel_order,
}

-- The decimal library, SHA-256 and string splitting, as the OMS calls them.
pub record Externals : Type 0 where
  -- `a == b` on decimals
  pub eq_decimal : Decimal → Decimal → Bool
  -- `amount * lots / quantity` in the accounting context
  pub share : Decimal → ℕ → ℕ → Decimal
  -- the digest of an execution's economic facts
  pub digest : Side → ℕ → Decimal → Decimal → Ident → ExecutionType → Ident
  -- `instrument_id.split(":")[0]`
  pub venue_of : Ident → Ident
  -- `canonical_bytes` of an instruction
  pub canonical_bytes : GatewayInstruction → Ident

-- The `ValueError`s of the module by their messages, and StopIteration.
pub data OmsError : Type 0 where
  identity_aliases_conflict identity_changes_scope unknown_outbox_instruction : OmsError
  account_scope_changed missing_identity expired_intent identity_reused : OmsError
  already_consumed unresolved_order owner_cannot_change atomic_reversal active_exit : OmsError
  exceeds_position uncertain_replacement cancel_unconfirmed fresh_identity_required : OmsError
  replacement_exceeds not_an_instrument_trade invalid_lifecycle local_created_state : OmsError
  aliases_join_effects conflicting_facts cancel_identity_reused : OmsError
  cancel_response_mismatch dispatch_retry cannot_abort_sent stop_iteration : OmsError

abbrev pub same_lifecycle : Lifecycle → Lifecycle → Bool
same_lifecycle Lifecycle.created Lifecycle.created = true
same_lifecycle Lifecycle.opened Lifecycle.opened = true
same_lifecycle Lifecycle.partially_filled Lifecycle.partially_filled = true
same_lifecycle Lifecycle.filled Lifecycle.filled = true
same_lifecycle Lifecycle.canceled Lifecycle.canceled = true
same_lifecycle Lifecycle.rejected Lifecycle.rejected = true
same_lifecycle Lifecycle.expired Lifecycle.expired = true
same_lifecycle _ _ = false

abbrev pub same_pending : PendingAction → PendingAction → Bool
same_pending idle idle = true
same_pending submit submit = true
same_pending cancel cancel = true
same_pending amend amend = true
same_pending _ _ = false

abbrev pub same_knowledge : Knowledge → Knowledge → Bool
same_knowledge confirmed confirmed = true
same_knowledge uncertain uncertain = true
same_knowledge reconciling reconciling = true
same_knowledge _ _ = false

abbrev same_order_type : OrderType → OrderType → Bool
same_order_type limit limit = true
same_order_type market market = true
same_order_type stop stop = true
same_order_type _ _ = false

abbrev same_time_in_force : TimeInForce → TimeInForce → Bool
same_time_in_force gtc gtc = true
same_time_in_force ioc ioc = true
same_time_in_force fok fok = true
same_time_in_force post_only post_only = true
same_time_in_force _ _ = false

unfoldable pub same_cancel : CancelRequested → CancelRequested → Bool
same_cancel a b =
    a.instruction_id == b.instruction_id
    && a.client_order_id == b.client_order_id
    && a.expires_at_ns == b.expires_at_ns
    && a.risk_version == b.risk_version
    && a.gateway_fence == b.gateway_fence

module _ (py : Externals) where
  abbrev eq_decimal_opt : Option Decimal → Option Decimal → Bool
  eq_decimal_opt none none = true
  eq_decimal_opt (some a) (some b) = py.eq_decimal a b
  eq_decimal_opt _ _ = false

  unfoldable pub same_instruction : OrderInstruction → OrderInstruction → Bool
  same_instruction a b =
      a.instruction_id == b.instruction_id
      && a.client_order_id == b.client_order_id
      && a.parent_intent_id == b.parent_intent_id
      && a.account_id == b.account_id
      && a.environment == b.environment
      && a.instrument_id == b.instrument_id
      && same_side a.side b.side
      && a.quantity_lots == b.quantity_lots
      && eq_opt a.price_ticks b.price_ticks
      && same_order_type a.order_type b.order_type
      && same_time_in_force a.time_in_force b.time_in_force
      && same_bool a.reduce_only b.reduce_only
      && eq_opt a.native_trigger_basis b.native_trigger_basis
      && eq_decimal_opt a.native_trigger_value b.native_trigger_value
      && a.owner_strategy_id == b.owner_strategy_id
      && eq_opt a.protection_group_id b.protection_group_id
      && a.expires_at_ns == b.expires_at_ns
      && a.risk_version == b.risk_version
      && a.gateway_fence == b.gateway_fence

  unfoldable pub same_order : OrderState → OrderState → Bool
  same_order a b =
      same_instruction a.instruction b.instruction
      && py.eq_decimal a.cash_reserve b.cash_reserve
      && py.eq_decimal a.fee_reserve b.fee_reserve
      && eq_opt a.venue_order_id b.venue_order_id
      && same_lifecycle a.lifecycle b.lifecycle
      && same_pending a.pending b.pending
      && same_knowledge a.knowledge b.knowledge
      && a.reported_fill_lots == b.reported_fill_lots
      && a.accounted_fill_lots == b.accounted_fill_lots
      && a.revision == b.revision
      && same_bool a.transport_started b.transport_started

  unfoldable pub same_gateway : GatewayInstruction → GatewayInstruction → Bool
  unfolding same_cancel
  same_gateway (order a) (order b) = same_instruction a b
  same_gateway (cancel_order a) (cancel_order b) = same_cancel a b
  same_gateway _ _ = false
