-- ===== src/Portfolio/Ledger/Facts.antt =====
-- The events that the ledger takes, its errors, and what it takes from libraries
-- (src/quantdesk/portfolio/ledger.py, portfolio/events.py and core/events.py).
use rs_quant.Base.{
  ℕ, Bool, true, false, not, ◌&&◌, ◌||◌, Option, List, [], ◌∷◌, ◌==◌, Result, ok, raise, elem,
}
use rs_quant.Base.Int.{ℤ}
use rs_quant.Core.Types.{Ident, Decimal, Side, ExecutionType, ExecutionReport}
use rs_quant.Portfolio.State.{
  ReservationChanged, ConversionRateObserved, Account, EconomicIdentity, LedgerState,
  LedgerTransaction, Position,
}
use rs_quant.Portfolio.Amounts.{DecimalLibrary}
use rs_quant.Portfolio.Instruments.{InstrumentSpec, InstrumentError}
use rs_quant.Portfolio.Positions.{Context, FillError, PositionLeg}

pub data Direction : Type 0 where
  inward outward unknown_direction : Direction

pub record CashTransfer : Type 0 where
  pub native_transaction_id : Ident
  pub amount : Decimal
  pub asset : Ident
  pub direction : Direction

pub record FundingSettlement : Type 0 where
  pub native_transaction_id : Ident
  pub instrument_id : Ident
  pub amount : Decimal
  pub asset : Ident
  pub settlement_ns : ℕ

pub record FeeAdjustment : Type 0 where
  pub native_transaction_id : Ident
  pub native_execution_id : Ident
  pub amount : Decimal
  pub asset : Ident
  pub reason : Ident

pub record LedgerAdjustmentApproved : Type 0 where
  pub adjustment_id : Ident
  pub amount : Decimal
  pub asset : Ident
  pub reason : Ident
  pub author : Ident

pub record MarkPrice : Type 0 where
  pub price : Decimal
  pub event_ns : ℕ
  pub source : Ident

pub data FinancialPayload : Type 0 where
  execution_report : ExecutionReport → FinancialPayload
  cash_transfer : CashTransfer → FinancialPayload
  funding_settlement : FundingSettlement → FinancialPayload
  fee_adjusted : FeeAdjustment → FinancialPayload
  adjustment_approved : LedgerAdjustmentApproved → FinancialPayload

-- Supplemental evidence, as `FinancialEvent` and `FinancialEventObserved` carry it.
pub record Supplement : Type 0 where
  pub aliases : List Ident
  pub source_observation_ids : List Ident
  pub trading_adjustment : Bool

-- A decoded payload; `passive` is FundingRateAnnounced or TimerFired.
pub data LedgerPayload : Type 0 where
  financial : FinancialPayload → LedgerPayload
  observed : FinancialPayload → Supplement → LedgerPayload
  passive : LedgerPayload
  reservation : ReservationChanged → LedgerPayload
  reservation_batch : Ident → List ReservationChanged → LedgerPayload
  conversion : ConversionRateObserved → LedgerPayload
  mark_price : MarkPrice → LedgerPayload
  unsupported : LedgerPayload

-- The envelope, as far as the ledger reads it.
pub record Header : Type 0 where
  pub event_id : Ident
  pub venue : Ident
  pub environment : Ident
  pub account_id : Ident
  pub instrument_id : Option Ident
  pub available_ns : ℕ
  pub engine_seq : ℕ

pub record FinancialEvent : Type 0 where
  pub header : Header
  pub payload : LedgerPayload
  pub supplement : Supplement

pub data LedgerError : Type 0 where
  needs_financial_payload other_scope disordered reservation_instrument_mismatch : LedgerError
  revision_regressed reservation_scope_changed closing_exceeds_position : LedgerError
  future_conversion invalid_mark not_a_trade invalid_transfer funding_mismatch : LedgerError
  invalid_fee_correction unknown_execution missing_transaction fee_asset_changed : LedgerError
  invalid_adjustment unsupported_event identity_required invalid_aliases : LedgerError
  conflicting_duplicate unsupported_settlement no_market unit_conflict : LedgerError
  of_instrument : InstrumentError → LedgerError
  of_fill : FillError → LedgerError

pub record EconomicAliasUpdate : Type 0 where
  pub event_id : Ident
  pub transaction_id : Ident
  pub identity : EconomicIdentity

pub record LedgerChange : Type 0 where
  pub state : LedgerState
  pub transactions : List LedgerTransaction
  pub position_updates : List Position
  pub position_legs : List PositionLeg
  pub duplicate : Bool
  pub alias_updates : List EconomicAliasUpdate

-- `LedgerChange(state, duplicate=...)`
abbrev pub only_state : Bool → LedgerState → LedgerChange
only_state duplicate state = record {
  state = state;
  transactions = [];
  position_updates = [];
  position_legs = [];
  duplicate = duplicate;
  alias_updates = [];
}

-- A component of an economic signature: `_economic_value` replaces a decimal by its ratio.
pub data EconomicValue : Type 0 where
  amount_of : Decimal → EconomicValue
  ratio : ℤ → ℕ → EconomicValue
  text : Ident → EconomicValue
  number : ℕ → EconomicValue
  side_of : Side → EconomicValue
  kind_of : ExecutionType → EconomicValue
  texts : List Ident → EconomicValue
  flag : Bool → EconomicValue

-- What Python's libraries compute for the ledger.
pub record LedgerLibrary : Type 0 where
  pub decimals : DecimalLibrary
  pub context : Context
  -- `a == b` on decimals
  pub eq_decimal : Decimal → Decimal → Bool
  -- `as_integer_ratio`
  pub numerator : Decimal → ℤ
  pub denominator : Decimal → ℕ
  -- the place of the tuple (account, asset) in the order of tuples of strings
  pub place : Account → Ident → ℕ
  -- SHA-256 of the canonical bytes of a signature, and of an economic key
  pub sign : List EconomicValue → Ident
  pub transaction_id_of : List ℕ → Ident
  -- the digest of a specification without its own hash
  pub hash_of : InstrumentSpec → Ident
  -- `not s.strip()`
  pub is_blank : Ident → Bool
  -- `s.split(":")[1]`
  pub market_of : Ident → Option Ident
  -- the strings "USDT", "cash", "USDT-FUTURES" and "linear"
  pub usdt : Ident
  pub cash_text : Ident
  pub usdt_futures : Ident
  pub linear : Ident

-- An error of another module, raised through this one.
abbrev pub raise_as : {E F A : Type 0} → (E → F) → Result E A → Result F A
raise_as wrap (ok a) = ok a
raise_as wrap (raise e) = raise (wrap e)

-- `==` on tuples of strings.
abbrev pub same_key : List ℕ → List ℕ → Bool
same_key [] [] = true
same_key (x ∷ xs) (y ∷ ys) = x == y && same_key xs ys
same_key _ _ = false

-- Whether `len(set(xs)) < len(xs)`.
abbrev pub repeats : List ℕ → Bool
repeats [] = false
repeats (x ∷ xs) = elem x xs || repeats xs

-- `all(xs)` of strings
abbrev pub all_truthy : List Ident → Bool
all_truthy [] = true
all_truthy (x ∷ xs) = not (x == 0) && all_truthy xs
