-- ===== src/Portfolio/Ledger/Book.antt =====
-- The booking of a new transaction in `Ledger.apply`
-- (src/quantdesk/portfolio/ledger.py).
use rs_quant.Base.{
  ℕ, Bool, true, false, not, ◌&&◌, ◌||◌, none, some, List, [], ◌∷◌, ◌++◌, ◌==◌, Result, ok, raise,
  ◌>>=◌, ◌>>◌, raise_if, or_raise, if◌then◌else◌, keep, map,
}
use rs_quant.Base.Dict.{Dict, lookup, insert, dict_from, dict_of}
use rs_quant.Base.Sort.{sorted_values, sort_by}
use rs_quant.Base.Int.{ℤ, pos, ◌-ℤ◌, abs}
use rs_quant.Core.Types.{Ident, Decimal, truthy, is_buy, ExecutionReport}
use rs_quant.Portfolio.State.{
  Position, Balance, realized_pnl, LedgerPosting, EconomicIdentity, AppliedIdentity,
  LedgerTransaction, LedgerState, zero_decimal, position,
}
use rs_quant.Portfolio.Amounts.{exact_sum}
use rs_quant.Portfolio.Instruments.{InstrumentSpec, add_specs, spec_at, base_quantity}
use rs_quant.Portfolio.Positions.{Filled, PositionLeg, apply_fill}
use rs_quant.Portfolio.Ledger.Facts.{
  FinancialPayload, execution_report, adjustment_approved, Supplement, Header, LedgerError,
  no_market, unsupported_settlement, unit_conflict, identity_required, invalid_aliases,
  of_instrument, of_fill, LedgerChange, LedgerLibrary, raise_as, repeats, all_truthy,
}
use rs_quant.Portfolio.Ledger.Known.{matches_any, applied, identities_of, book_again}
use rs_quant.Portfolio.Ledger.Evidence.{Evidence, economic_key, economic_value, evidence, pair}

module _ (py : LedgerLibrary) where
  abbrev pub balance_key : Balance → ℕ
  balance_key b = py.place b.account b.asset

  -- `balances.get(key, ZERO)`
  abbrev pub amount_at : ℕ → Dict Balance → Decimal
  amount_at k d = elim (lookup k d) [ none ↦ zero_decimal | some b ↦ b.amount ]

  unfoldable pub post : Dict Balance → List LedgerPosting → Dict Balance
  post d [] = d
  post d (p ∷ ps) =
      post
        (insert (py.place p.account p.asset)
          (record {
            account = p.account;
            asset = p.asset;
            amount =
                exact_sum py.decimals (amount_at (py.place p.account p.asset) d ∷ p.amount ∷ []);
          })
          d)
        ps

  -- `Ledger._spec`
  unfoldable pub linear_spec :
      List InstrumentSpec → Ident → ℕ → ℕ → Result LedgerError InstrumentSpec
  unfolding add_specs spec_at
  linear_spec instruments instrument event_ns available_ns = do
    registry ← raise_as of_instrument (add_specs py.hash_of [] instruments)
    spec ← raise_as of_instrument (spec_at registry instrument event_ns available_ns)
    raise_if (not (spec.quote_unit == py.usdt) || not (spec.settlement_unit == py.usdt))
        unsupported_settlement
    market ← or_raise (py.market_of spec.instrument_id) no_market
    raise_if (not (market == py.usdt_futures || market == py.linear)) unsupported_settlement
    ok spec

  abbrev pub signed_lots_of : ExecutionReport → ℤ
  signed_lots_of p = if is_buy p.side then pos p.executed_lots else pos 0 -ℤ pos p.executed_lots

  -- The position after a new execution.
  unfoldable pub fill_position :
      List InstrumentSpec
      → Header
      → ExecutionReport
      → Ident
      → LedgerState
      → Result LedgerError Filled
  unfolding linear_spec apply_fill position
  fill_position instruments event p instrument state = do
    spec ← linear_spec instruments instrument p.event_ns event.available_ns
    let prior = position instrument state.positions in
        do
          raise_if
              (not (abs prior.signed_lots == 0)
                && not (py.eq_decimal prior.base_quantity (base_quantity spec prior.signed_lots)))
              unit_conflict
          raise_as of_fill (apply_fill py.context prior (signed_lots_of p) p.price spec)

  -- What the booking of a transaction adds to its evidence.
  pub record Effects : Type 0 where
    pub postings : List LedgerPosting
    pub position_updates : List Position
    pub position_legs : List PositionLeg

  unfoldable pub effects :
      List InstrumentSpec
      → Header
      → FinancialPayload
      → Evidence
      → LedgerState
      → Result LedgerError Effects
  unfolding fill_position pair
  effects instruments event (execution_report p) e state = do
    done ← fill_position instruments event p e.instrument state
    ok (record {
      postings = pair py py.usdt done.realized realized_pnl ++ e.postings;
      position_updates = done.position ∷ [];
      position_legs = done.legs;
    })
  effects instruments event _ e state =
      ok (record { postings = e.postings; position_updates = []; position_legs = [] })

  abbrev pub position_key : Position → ℕ
  position_key p = p.instrument_id

  -- `adjustment_sources` and `trading_adjustments` after an approved adjustment
  abbrev pub traded : Bool → Ident → Decimal → Dict Decimal → Dict Decimal
  traded false asset amount adjustments = adjustments
  traded true asset amount adjustments =
      let d = dict_of [] adjustments in
      sort_by (λ e. e.0)
        (insert asset
          (exact_sum py.decimals
            ((elim (lookup asset d) [ none ↦ zero_decimal | some old ↦ old ]) ∷ amount ∷ []))
          d)

  unfoldable pub record_adjustment :
      FinancialPayload → Supplement → Ident → LedgerState → LedgerState
  record_adjustment (adjustment_approved p) extra transaction_id s = record s {
    adjustment_sources =
        s.adjustment_sources ++ ((transaction_id, extra.source_observation_ids) ∷ []);
    trading_adjustments = traded extra.trading_adjustment p.asset p.amount s.trading_adjustments;
  }
  record_adjustment _ extra transaction_id s = s

  -- The transaction of new evidence.
  abbrev pub transaction_of :
      Header → Evidence → Effects → EconomicIdentity → List EconomicIdentity → LedgerTransaction
  transaction_of event e f identity aliases = record {
    transaction_id = py.transaction_id_of (economic_key identity);
    event_id = event.event_id;
    identity = identity;
    postings = f.postings;
    aliases = aliases;
    approved_by = e.approved_by;
    reversal_of = e.reversal_of;
  }

  -- The state with a new transaction.
  unfoldable pub booked :
      LedgerTransaction → Effects → Ident → List EconomicIdentity → LedgerState → LedgerState
  unfolding post
  booked t f fingerprint ids s = record s {
    balances = sorted_values (post (dict_from balance_key [] s.balances) f.postings);
    positions =
        sorted_values
          (dict_from position_key (dict_from position_key [] s.positions) f.position_updates);
    identities = s.identities ++ map (applied fingerprint t.transaction_id) ids;
    transactions = s.transactions ++ (t ∷ []);
  }

  unfoldable pub book_new :
      List InstrumentSpec
      → Header
      → FinancialPayload
      → Supplement
      → Evidence
      → Ident
      → EconomicIdentity
      → List EconomicIdentity
      → LedgerState
      → Result LedgerError LedgerChange
  unfolding effects booked record_adjustment
  book_new instruments event p extra e fingerprint identity aliases candidate = do
    f ← effects instruments event p e candidate
    let t = transaction_of event e f identity aliases in
        ok (record {
          state =
              record_adjustment p extra t.transaction_id
                (booked t f fingerprint (identity ∷ aliases) candidate);
          transactions = t ∷ [];
          position_updates = f.position_updates;
          position_legs = f.position_legs;
          duplicate = false;
          alias_updates = [];
        })

  abbrev pub assets_named : List LedgerPosting → Bool
  assets_named [] = true
  assets_named (p ∷ ps) = truthy p.asset && assets_named ps

  -- The rest of the branch on the records that match the identities.
  unfoldable pub book_identified :
      List InstrumentSpec
      → Header
      → FinancialPayload
      → Supplement
      → Evidence
      → Ident
      → List EconomicIdentity
      → List AppliedIdentity
      → LedgerState
      → Result LedgerError LedgerChange
  unfolding book_again book_new
  book_identified instruments event p extra e fingerprint ids (first ∷ rest) candidate =
      book_again event fingerprint ids first rest candidate
  book_identified instruments event p extra e fingerprint [] [] candidate = raise identity_required
  book_identified instruments event p extra e fingerprint (identity ∷ aliases) [] candidate =
      book_new instruments event p extra e fingerprint identity aliases candidate

  -- A financial payload with its evidence.
  unfoldable pub apply_financial :
      List InstrumentSpec
      → Header
      → FinancialPayload
      → Supplement
      → LedgerState
      → Result LedgerError LedgerChange
  unfolding evidence identities_of book_identified economic_key
  apply_financial instruments event p extra candidate = do
    e ← evidence py event p extra candidate
    raise_if (not (truthy e.native) || not (assets_named e.postings)) identity_required
    raise_if (not (all_truthy extra.aliases) || repeats (e.native ∷ extra.aliases)) invalid_aliases
    let ids = identities_of candidate e extra.aliases in
        book_identified instruments event p extra e (py.sign (map (economic_value py) e.signature))
          ids (keep (matches_any ids) candidate.identities) candidate
