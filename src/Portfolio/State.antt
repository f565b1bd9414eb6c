-- ===== src/Portfolio/State.antt =====
-- Positions, ledger facts and `LedgerState` (src/quantdesk/portfolio and persistence/event_store.py).
use rs_quant.Base.{ℕ, ◌-◌, Bool, Option, none, some, List, [], ◌==◌, find}
use rs_quant.Base.Int.{ℤ, pos}
use rs_quant.Core.Types.{Ident, Decimal, Side}

-- src/quantdesk/portfolio/positions.py
pub record Position : Type 0 where
  pub instrument_id : Ident
  pub signed_lots : ℤ
  pub base_quantity : Decimal
  pub average_entry : Option Decimal
  pub spec_revision : Ident

-- src/quantdesk/portfolio/events.py
pub record ReservationChanged : Type 0 where
  pub reservation_id : Ident
  pub instrument_id : Ident
  pub side : Side
  pub remaining_lots : ℕ
  pub cash_amount : Decimal
  pub fee_buffer : Decimal
  pub reduce_only : Bool
  pub revision : ℕ
  pub unresolved_lots : ℕ

unfoldable pub executable_lots : ReservationChanged → ℕ
executable_lots r = r.remaining_lots - r.unresolved_lots

pub record ConversionRateObserved : Type 0 where
  pub base_asset : Ident
  pub quote_asset : Ident
  pub rate : Decimal
  pub event_ns : ℕ
  pub source : Ident

-- The accounts of the ledger by their texts; `cash a` is "cash:a".
pub data Account : Type 0 where
  cash : Ident → Account
  adjustments external trading_fees funding_income realized_pnl : Account

pub record Balance : Type 0 where
  pub account : Account
  pub asset : Ident
  pub amount : Decimal

-- "adjustment", "execution", "fee_adjustment", "funding" and "transfer"
pub data ComponentType : Type 0 where
  adjustment execution fee_adjustment funding transfer : ComponentType

pub record EconomicIdentity : Type 0 where
  pub venue : Ident
  pub environment : Ident
  pub account : Ident
  pub instrument : Ident
  pub native_id : Ident
  pub component_type : ComponentType

pub record AppliedIdentity : Type 0 where
  pub identity : EconomicIdentity
  pub fingerprint : Ident
  pub transaction_id : Ident

pub record Mark : Type 0 where
  pub instrument_id : Ident
  pub price : Decimal
  pub event_ns : ℕ
  pub available_ns : ℕ
  pub source : Ident

pub record LedgerPosting : Type 0 where
  pub account : Account
  pub asset : Ident
  pub amount : Decimal

pub record LedgerTransaction : Type 0 where
  pub transaction_id : Ident
  pub event_id : Ident
  pub identity : EconomicIdentity
  pub postings : List LedgerPosting
  pub aliases : List EconomicIdentity
  pub approved_by : Option Ident
  pub reversal_of : Option Ident

pub record LedgerState : Type 0 where
  pub venue : Ident
  pub environment : Ident
  pub account : Ident
  pub available_ns : ℕ
  pub balances : List Balance
  pub positions : List Position
  pub identities : List AppliedIdentity
  pub marks : List Mark
  pub transactions : List LedgerTransaction
  pub reservations : List ReservationChanged
  pub conversions : List ConversionRateObserved
  pub trading_adjustments : List (Ident × Decimal)
  pub adjustment_sources : List (Ident × List Ident)

abbrev pub zero_decimal : Decimal
zero_decimal = record { negative = Bool.false; digits = 0; exponent = pos 0 }

-- `Position(instrument)`
abbrev pub flat_position : Ident → Position
flat_position instrument = record {
  instrument_id = instrument;
  signed_lots = pos 0;
  base_quantity = zero_decimal;
  average_entry = none;
  spec_revision = 0;
}

-- `LedgerState.position`
unfoldable pub position : Ident → List Position → Position
position instrument ps = elim (find (λ p. p.instrument_id == instrument) ps) [
  | none ↦ flat_position instrument
  | some p ↦ p
]

abbrev pub signed_position : Ident → LedgerState → ℤ
signed_position instrument ledger = (position instrument ledger.positions).signed_lots

-- `LedgerState(venue, environment, account)`
abbrev pub new_ledger : Ident → Ident → Ident → LedgerState
new_ledger venue environment account = record {
  venue = venue;
  environment = environment;
  account = account;
  available_ns = 0;
  balances = [];
  positions = [];
  identities = [];
  marks = [];
  transactions = [];
  reservations = [];
  conversions = [];
  trading_adjustments = [];
  adjustment_sources = [];
}
