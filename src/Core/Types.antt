-- ===== src/Core/Types.antt =====
-- src/quantdesk/core/types.py and the execution payloads of src/quantdesk/core/events.py.
use rs_quant.Base.{ℕ, Bool, true, false, Option, none, some, ◌==◌, if◌then◌else◌, not}
use rs_quant.Base.Int.{ℤ}

-- A Python string that the code compares, sorts and tests for emptiness only: its place in the
-- order of strings, 0 for the empty one.
abbrev pub Ident : Type 0
Ident = ℕ

-- `bool(s)` of a string, of an optional string, and `a or b` on optional strings.
abbrev pub truthy : Ident → Bool
truthy s = not (s == 0)

abbrev pub truthy_opt : Option Ident → Bool
truthy_opt none = false
truthy_opt (some s) = truthy s

abbrev pub or_text : Option Ident → Option Ident → Option Ident
or_text a b = if truthy_opt a then a else b

-- `decimal.Decimal.as_tuple()` of a finite value. Arithmetic on decimals is the library's.
pub record Decimal : Type 0 where
  pub negative : Bool
  pub digits : ℕ
  pub exponent : ℤ

pub data Side : Type 0 where
  buy sell : Side

abbrev pub is_buy : Side → Bool
is_buy buy = true
is_buy sell = false

abbrev pub same_side : Side → Side → Bool
same_side buy buy = true
same_side sell sell = true
same_side _ _ = false

pub data IntentAction : Type 0 where
  enter reduce exit cancel_entry : IntentAction

pub data OrderType : Type 0 where
  limit market stop : OrderType

pub data TimeInForce : Type 0 where
  gtc ioc fok post_only : TimeInForce

pub data ExecutionType : Type 0 where
  trade funding settlement other : ExecutionType

pub record OrderInstruction : Type 0 where
  pub instruction_id : Ident
  pub client_order_id : Ident
  pub parent_intent_id : Ident
  pub account_id : Ident
  pub environment : Ident
  pub instrument_id : Ident
  pub side : Side
  pub quantity_lots : ℕ
  pub price_ticks : Option ℕ
  pub order_type : OrderType
  pub time_in_force : TimeInForce
  pub reduce_only : Bool
  pub native_trigger_basis : Option Ident
  pub native_trigger_value : Option Decimal
  pub owner_strategy_id : Ident
  pub protection_group_id : Option Ident
  pub expires_at_ns : ℕ
  pub risk_version : Ident
  pub gateway_fence : Ident

pub record SubmitTransportResult : Type 0 where
  pub instruction_id : Ident
  pub accepted : Bool
  pub venue_order_id : Option Ident
  pub error_code : Option Ident

pub record CancelTransportResult : Type 0 where
  pub client_order_id : Ident
  pub accepted : Bool
  pub error_code : Option Ident

pub record ExecutionReport : Type 0 where
  pub native_execution_id : Ident
  pub client_order_id : Option Ident
  pub venue_order_id : Option Ident
  pub side : Side
  pub executed_lots : ℕ
  pub price : Decimal
  pub event_ns : ℕ
  pub receipt_ns : ℕ
  pub fee_amount : Decimal
  pub fee_currency : Ident
  pub fee_rate : Option Decimal
  pub maker : Option Bool
  pub execution_type : ExecutionType
  pub native_realized_pnl : Option Decimal
