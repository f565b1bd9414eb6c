-- ===== src/Portfolio/Ledger/Evidence.antt =====
-- What each financial payload says: its native identity, its postings and the signature of its facts
-- (`Ledger.apply`, `economic_key`, `_economic_value` and `_pair` of src/quantdesk/portfolio/ledger.py).
use rs_quant.Base.{
  ℕ, Bool, true, false, not, ◌&&◌, ◌||◌, Option, none, some, List, [], ◌∷◌, ◌==◌, Result, ok, ◌>>=◌,
  ◌>>◌, raise_if, or_raise, if◌then◌else◌, any, find, eq_opt, ltb,
}
use rs_quant.Core.Types.{Ident, Decimal, truthy, ExecutionType, trade, ExecutionReport}
use rs_quant.Portfolio.State.{
  Account, cash, adjustments, external, trading_fees, funding_income, LedgerPosting, ComponentType,
  EconomicIdentity, AppliedIdentity, LedgerState,
}
use rs_quant.Portfolio.Ledger.Facts.{
  Direction, inward, unknown_direction, CashTransfer, FundingSettlement, FeeAdjustment,
  LedgerAdjustmentApproved, FinancialPayload, execution_report, cash_transfer, funding_settlement,
  fee_adjusted, adjustment_approved, Supplement, Header, LedgerError, not_a_trade, invalid_transfer,
  funding_mismatch, invalid_fee_correction, unknown_execution, missing_transaction,
  fee_asset_changed, invalid_adjustment, EconomicValue, amount_of, ratio, text, number, side_of,
  kind_of, texts, flag, LedgerLibrary, same_key, all_truthy,
}

abbrev component_place : ComponentType → ℕ
component_place ComponentType.adjustment = 1
component_place ComponentType.execution = 2
component_place ComponentType.fee_adjustment = 3
component_place ComponentType.funding = 4
component_place ComponentType.transfer = 5

abbrev keyed_instrument : ComponentType → Ident → Ident
keyed_instrument ComponentType.execution instrument = instrument
keyed_instrument _ instrument = 0

unfoldable pub economic_key : EconomicIdentity → List ℕ
economic_key i =
    i.venue
    ∷ i.environment
    ∷ i.account
    ∷ keyed_instrument i.component_type i.instrument
    ∷ i.native_id
    ∷ component_place i.component_type
    ∷ []

pub record Evidence : Type 0 where
  pub native : Ident
  pub component : ComponentType
  pub instrument : Ident
  pub postings : List LedgerPosting
  pub signature : List EconomicValue
  pub approved_by : Option Ident
  pub reversal_of : Option Ident

abbrev pub is_trade : ExecutionType → Bool
is_trade trade = true
is_trade _ = false

abbrev pub is_trading_fee : Ident → LedgerPosting → Bool
is_trading_fee asset p = (elim p.account [ trading_fees ↦ true | _ ↦ false ]) && p.asset == asset

-- `amount >= 0`, of a decimal that is finite
abbrev pub is_nonnegative : Decimal → Bool
is_nonnegative d = not (d.negative && ltb 0 d.digits)

module _ (py : LedgerLibrary) where
  abbrev pub economic_value : EconomicValue → EconomicValue
  economic_value (amount_of d) = ratio (py.numerator d) (py.denominator d)
  economic_value v = v

  -- `_pair`
  unfoldable pub pair : Ident → Decimal → Account → List LedgerPosting
  pair asset change account =
      record { account = cash asset; asset = asset; amount = change }
      ∷ record { account = account; asset = asset; amount = py.decimals.negate change }
      ∷ []

  unfoldable pub execution_evidence : Header → ExecutionReport → Result LedgerError Evidence
  unfolding pair
  execution_evidence event p = do
    instrument ← or_raise event.instrument_id not_a_trade
    raise_if (not (is_trade p.execution_type)) not_a_trade
    ok (record {
      native = p.native_execution_id;
      component = ComponentType.execution;
      instrument = instrument;
      postings = pair p.fee_currency (py.decimals.negate p.fee_amount) trading_fees;
      signature =
          side_of p.side
          ∷ number p.executed_lots
          ∷ amount_of p.price
          ∷ amount_of p.fee_amount
          ∷ text p.fee_currency
          ∷ kind_of p.execution_type
          ∷ [];
      approved_by = none;
      reversal_of = none;
    })

  abbrev pub transferred : Direction → Decimal → Decimal
  transferred inward amount = amount
  transferred _ amount = py.decimals.negate amount

  abbrev is_unknown : Direction → Bool
  is_unknown unknown_direction = true
  is_unknown _ = false

  unfoldable pub transfer_evidence : CashTransfer → Result LedgerError Evidence
  unfolding pair
  transfer_evidence p = do
    raise_if (not (is_nonnegative p.amount) || is_unknown p.direction) invalid_transfer
    ok (record {
      native = p.native_transaction_id;
      component = ComponentType.transfer;
      instrument = py.cash_text;
      postings = pair p.asset (transferred p.direction p.amount) external;
      signature = amount_of (transferred p.direction p.amount) ∷ text p.asset ∷ [];
      approved_by = none;
      reversal_of = none;
    })

  unfoldable pub funding_evidence : Header → FundingSettlement → Result LedgerError Evidence
  unfolding pair
  funding_evidence event p = do
    raise_if (not (eq_opt event.instrument_id (some p.instrument_id))) funding_mismatch
    ok (record {
      native = p.native_transaction_id;
      component = ComponentType.funding;
      instrument = p.instrument_id;
      postings = pair p.asset p.amount funding_income;
      signature =
          amount_of p.amount ∷ text p.asset ∷ text p.instrument_id ∷ number p.settlement_ns ∷ [];
      approved_by = none;
      reversal_of = none;
    })

  -- The identity of the execution whose fee is corrected.
  abbrev pub corrected_execution : LedgerState → Ident → Ident → EconomicIdentity
  corrected_execution state instrument native = record {
    venue = state.venue;
    environment = state.environment;
    account = state.account;
    instrument = instrument;
    native_id = native;
    component_type = ComponentType.execution;
  }

  abbrev pub has_identity : EconomicIdentity → AppliedIdentity → Bool
  has_identity i r = same_key (economic_key r.identity) (economic_key i)

  unfoldable pub fee_evidence : Header → FeeAdjustment → LedgerState → Result LedgerError Evidence
  unfolding pair economic_key
  fee_evidence event p state = do
    instrument ← or_raise event.instrument_id invalid_fee_correction
    raise_if (not (truthy p.reason) || not (truthy instrument)) invalid_fee_correction
    original ←
        or_raise
          (find (has_identity (corrected_execution state instrument p.native_execution_id))
            state.identities)
          unknown_execution
    booked ←
        or_raise (find (λ t. t.transaction_id == original.transaction_id) state.transactions)
          missing_transaction
    raise_if (not (any (is_trading_fee p.asset) booked.postings)) fee_asset_changed
    ok (record {
      native = p.native_transaction_id;
      component = ComponentType.fee_adjustment;
      instrument = instrument;
      postings = pair p.asset (py.decimals.negate p.amount) trading_fees;
      signature = amount_of p.amount ∷ text p.asset ∷ text original.transaction_id ∷ [];
      approved_by = none;
      reversal_of = some original.transaction_id;
    })

  abbrev pub instrument_or_cash : Option Ident → Ident
  instrument_or_cash none = py.cash_text
  instrument_or_cash (some i) = if truthy i then i else py.cash_text

  unfoldable pub adjustment_evidence :
      Header → LedgerAdjustmentApproved → Supplement → Result LedgerError Evidence
  unfolding pair
  adjustment_evidence event p extra = do
    raise_if
        (py.is_blank p.author
          || py.is_blank p.reason
          || (elim extra.source_observation_ids [ [] ↦ true | s ∷ ss ↦ false ])
          || not (all_truthy extra.source_observation_ids))
        invalid_adjustment
    ok (record {
      native = p.adjustment_id;
      component = ComponentType.adjustment;
      instrument = instrument_or_cash event.instrument_id;
      postings = pair p.asset p.amount adjustments;
      signature =
          amount_of p.amount
          ∷ text p.asset
          ∷ text p.reason
          ∷ text p.author
          ∷ texts extra.source_observation_ids
          ∷ flag extra.trading_adjustment
          ∷ [];
      approved_by = some p.author;
      reversal_of = none;
    })

  unfoldable pub evidence :
      Header → FinancialPayload → Supplement → LedgerState → Result LedgerError Evidence
  unfolding execution_evidence transfer_evidence funding_evidence fee_evidence adjustment_evidence
  evidence event (execution_report p) extra state = execution_evidence event p
  evidence event (cash_transfer p) extra state = transfer_evidence p
  evidence event (funding_settlement p) extra state = funding_evidence event p
  evidence event (fee_adjusted p) extra state = fee_evidence event p state
  evidence event (adjustment_approved p) extra state = adjustment_evidence event p extra
