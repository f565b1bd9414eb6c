-- ===== src/Portfolio/Ledger/Apply.antt =====
-- `FinancialEvent.recorded_envelope`, `Ledger.apply` and `LedgerState.balance`
-- (src/quantdesk/portfolio/ledger.py).
use rs_quant.Base.{
  Bool, true, false, not, ◌&&◌, ◌||◌, none, some, List, [], ◌∷◌, ◌==◌, Result, ok, raise, ◌>>=◌,
  ◌>>◌, raise_if, eq_opt, ltb, find,
}
use rs_quant.Core.Types.{Ident, Decimal, truthy}
use rs_quant.Portfolio.State.{Account, LedgerState, zero_decimal}
use rs_quant.Portfolio.Instruments.{InstrumentSpec}
use rs_quant.Portfolio.Ledger.Facts.{
  Supplement, LedgerPayload, financial, observed, passive, reservation, reservation_batch,
  conversion, mark_price, unsupported, Header, FinancialEvent, LedgerError, needs_financial_payload,
  other_scope, disordered, reservation_instrument_mismatch, unsupported_event, LedgerChange,
  only_state, LedgerLibrary,
}
use rs_quant.Portfolio.Ledger.Reserve.{apply_reservations}
use rs_quant.Portfolio.Ledger.Observe.{apply_conversion, apply_mark}
use rs_quant.Portfolio.Ledger.Book.{apply_financial, balance_key}

abbrev pub no_supplement : Supplement
no_supplement = record { aliases = []; source_observation_ids = []; trading_adjustment = false }

abbrev is_empty : List Ident → Bool
is_empty [] = true
is_empty (x ∷ xs) = false

abbrev pub has_supplement : Supplement → Bool
has_supplement s =
    not (is_empty s.aliases) || not (is_empty s.source_observation_ids) || s.trading_adjustment

-- The payload of the envelope that is committed.
unfoldable pub recorded_payload : LedgerPayload → Supplement → Result LedgerError LedgerPayload
recorded_payload (financial p) s =
    ok (elim (has_supplement s) [ true ↦ observed p s | false ↦ financial p ])
recorded_payload p s = do raise_if (has_supplement s) needs_financial_payload; ok p

abbrev pub same_ledger_scope : Header → LedgerState → Bool
same_ledger_scope event s =
    event.venue == s.venue && event.environment == s.environment && event.account_id == s.account

module _ (py : LedgerLibrary) (instruments : List InstrumentSpec) where
  -- The branches of `apply`, on the state that carries the time of the event.
  unfoldable pub apply_payload :
      Header → LedgerPayload → LedgerState → Result LedgerError LedgerChange
  unfolding apply_financial apply_reservations apply_conversion apply_mark
  apply_payload event (financial p) s = apply_financial py instruments event p no_supplement s
  apply_payload event (observed p extra) s = apply_financial py instruments event p extra s
  apply_payload event passive s = ok (only_state false s)
  apply_payload event (reservation r) s = do
    raise_if (not (eq_opt event.instrument_id (some r.instrument_id)))
        reservation_instrument_mismatch
    apply_reservations py r.instrument_id (r ∷ []) s
  apply_payload event (reservation_batch instrument rs) s = do
    raise_if (not (eq_opt event.instrument_id (some instrument))) reservation_instrument_mismatch
    apply_reservations py instrument rs s
  apply_payload event (conversion c) s = apply_conversion c event s
  apply_payload event (mark_price m) s = apply_mark m event s
  apply_payload event unsupported s = raise unsupported_event

  unfoldable pub apply : FinancialEvent → LedgerState → Result LedgerError LedgerChange
  unfolding recorded_payload apply_payload
  apply fact s = do
    payload ← recorded_payload fact.payload fact.supplement
    raise_if (not (same_ledger_scope fact.header s)) other_scope
    raise_if
        (ltb fact.header.available_ns s.available_ns
          || fact.header.engine_seq == 0
          || not (truthy fact.header.event_id))
        disordered
    apply_payload fact.header payload (record s { available_ns = fact.header.available_ns })

-- `LedgerState.balance`
unfoldable pub balance : LedgerLibrary → Account → Ident → LedgerState → Decimal
balance py account asset s =
    elim (find (λ b. balance_key py b == py.place account asset) s.balances) [
      | none ↦ zero_decimal
      | some b ↦ b.amount
    ]
