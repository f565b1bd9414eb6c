-- ===== src/Portfolio/Ledger/Observe.antt =====
-- Conversion rates and mark prices in `Ledger.apply` (src/quantdesk/portfolio/ledger.py).
use rs_quant.Base.{
  ℕ, false, none, some, [], Result, ok, ◌>>=◌, ◌>>◌, raise_if, or_raise, if◌then◌else◌, leb, ltb,
}
use rs_quant.Base.Dict.{Dict, lookup, insert, dict_from}
use rs_quant.Base.Sort.{sorted_values}
use rs_quant.Portfolio.State.{ConversionRateObserved, Mark, LedgerState}
use rs_quant.Portfolio.Ledger.Facts.{
  MarkPrice, Header, LedgerError, future_conversion, invalid_mark, LedgerChange, only_state,
}

abbrev pub base_of : ConversionRateObserved → ℕ
base_of c = c.base_asset

abbrev pub marked : Mark → ℕ
marked m = m.instrument_id

-- The dict after an observation: an older one of the same key does not replace a newer one.
abbrev pub put_newer {ℓ} : {A : Type ℓ} → (A → ℕ) → (A → ℕ) → A → Dict A → Dict A
put_newer key time x d = elim (lookup (key x) d) [
  | none ↦ insert (key x) x d
  | some old ↦ if leb (time old) (time x) then insert (key x) x d else d
]

unfoldable pub apply_conversion :
    ConversionRateObserved → Header → LedgerState → Result LedgerError LedgerChange
apply_conversion c event candidate = do
  raise_if (ltb event.available_ns c.event_ns) future_conversion
  ok (
      only_state false (record candidate {
        conversions =
            sorted_values
              (put_newer base_of (λ x. x.event_ns) c (dict_from base_of [] candidate.conversions));
      }))

unfoldable pub apply_mark : MarkPrice → Header → LedgerState → Result LedgerError LedgerChange
apply_mark m event candidate = do
  instrument ← or_raise event.instrument_id invalid_mark
  raise_if (ltb event.available_ns m.event_ns) invalid_mark
  ok (
      only_state false (record candidate {
        marks = sorted_values (
            put_newer marked (λ x. x.event_ns)
              (record {
                instrument_id = instrument;
                price = m.price;
                event_ns = m.event_ns;
                available_ns = event.available_ns;
                source = m.source;
              })
              (dict_from marked [] candidate.marks));
      }))
