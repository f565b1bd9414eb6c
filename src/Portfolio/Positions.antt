-- ===== src/Portfolio/Positions.antt =====
-- `apply_fill` of src/quantdesk/portfolio/positions.py. The arithmetic of the accounting context,
-- which rounds at 50 digits and raises where a result's exponent is too large, is a parameter.
pub mod Legs
use rs_quant.Base.{
  ℕ, Bool, true, false, not, Option, none, some, List, [], ◌∷◌, ◌++◌, Result, ok, raise, ◌>>=◌,
  ◌>>◌, raise_if, ◌==◌, min, ◌||◌, if◌then◌else◌, same_bool, or_raise,
}
use rs_quant.Base.Int.{ℤ, pos, ◌+ℤ◌, ◌-ℤ◌, abs, is_pos}
use rs_quant.Core.Types.{Ident, Decimal}
use rs_quant.Portfolio.State.{Position, zero_decimal}
use rs_quant.Portfolio.Instruments.{InstrumentSpec, base_quantity, is_zero, is_positive}

-- Arithmetic in `ACCOUNTING_CONTEXT`: none where the context traps an overflow, which raises.
pub record Context : Type 0 where
  -- (|held| * average + |delta| * price) / |quantity|
  pub blend : Decimal → Decimal → Decimal → Decimal → Decimal → Option Decimal
  -- quantity * (price - average) * sign, with the sign of a long position
  pub profit : Decimal → Decimal → Decimal → Bool → Option Decimal

pub data LegKind : Type 0 where
  opening closing : LegKind

pub record PositionLeg : Type 0 where
  pub kind : LegKind
  pub signed_lots : ℤ
  pub price : Decimal
  pub realized_gross : Decimal

pub data FillError : Type 0 where
  invalid_fill no_average_entry decimal_overflow : FillError

pub record Filled : Type 0 where
  pub position : Position
  pub realized : Decimal
  pub legs : List PositionLeg

abbrev pub leg : LegKind → ℤ → Decimal → Decimal → PositionLeg
leg kind lots price gross = record {
  kind = kind;
  signed_lots = lots;
  price = price;
  realized_gross = gross;
}

-- n lots, short for a position that is long
abbrev pub against : Bool → ℕ → ℤ
against is_long n = if is_long then pos 0 -ℤ pos n else pos n

module _ (ctx : Context) where
  -- The result with the position's new average.
  abbrev pub filled :
      Position → ℤ → InstrumentSpec → Option Decimal → Decimal → List PositionLeg → Filled
  filled prior lots spec average realized legs = record {
    position = record {
      instrument_id = spec.instrument_id;
      signed_lots = prior.signed_lots +ℤ lots;
      base_quantity = base_quantity spec (prior.signed_lots +ℤ lots);
      average_entry = average;
      spec_revision = spec.revision_hash;
    };
    realized = realized;
    legs = legs;
  }

  -- What is closed, and what is left over to open.
  abbrev pub closed_fill : Position → ℤ → Decimal → InstrumentSpec → Decimal → ℕ → Decimal → Filled
  closed_fill prior lots price spec average closed realized =
      let quantity = base_quantity spec (prior.signed_lots +ℤ lots) in
      let close_leg = leg closing (against (is_pos prior.signed_lots) closed) price realized in
      if is_zero quantity
      then filled prior lots spec none realized (close_leg ∷ [])
      else if not (same_bool (is_positive quantity) (is_positive prior.base_quantity))
      then filled prior lots spec (some price) realized
          (close_leg ∷ leg opening (prior.signed_lots +ℤ lots) price zero_decimal ∷ [])
      else filled prior lots spec (some average) realized (close_leg ∷ [])

  -- A fill against the position.
  unfoldable pub close_fill :
      Position → ℤ → Decimal → InstrumentSpec → Decimal → Result FillError Filled
  close_fill prior lots price spec average =
      let closed = min (abs prior.signed_lots) (abs lots) in
      do
        realized ←
            or_raise
              (ctx.profit (base_quantity spec (pos closed)) price average
                (is_pos prior.signed_lots))
              decimal_overflow
        ok (closed_fill prior lots price spec average closed realized)

  unfoldable pub apply_fill : Position → ℤ → Decimal → InstrumentSpec → Result FillError Filled
  unfolding base_quantity close_fill
  apply_fill prior lots price spec = do
    raise_if (abs lots == 0 || not (is_positive price)) invalid_fill
    if abs prior.signed_lots == 0
        then ok (
            filled prior lots spec (some price) zero_decimal
              (leg opening lots price zero_decimal ∷ []))
        else (do
          average ← or_raise prior.average_entry no_average_entry
          if same_bool (is_pos prior.signed_lots) (is_pos lots)
              then (do
                mean ←
                    or_raise
                      (ctx.blend prior.base_quantity average (base_quantity spec lots) price
                        (base_quantity spec (prior.signed_lots +ℤ lots)))
                      decimal_overflow
                ok (
                    filled prior lots spec (some mean) zero_decimal
                      (leg opening lots price zero_decimal ∷ [])))
              else close_fill prior lots price spec average)
