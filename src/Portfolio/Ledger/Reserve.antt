-- ===== src/Portfolio/Ledger/Reserve.antt =====
-- The reservation branch of `Ledger.apply` (src/quantdesk/portfolio/ledger.py).
use rs_quant.Base.{
  ℕ, Bool, true, false, not, ◌&&◌, ◌||◌, Option, none, some, List, [], ◌∷◌, ◌==◌, Result, ok, raise,
  ◌>>=◌, ◌>>◌, raise_if, if◌then◌else◌, leb, ltb, any, keep, map, sum, same_bool,
}
use rs_quant.Base.Dict.{Dict, lookup, insert, values, dict_from}
use rs_quant.Base.Sort.{sorted_values}
use rs_quant.Base.Int.{ℤ, abs, is_pos}
use rs_quant.Core.Types.{Ident, Decimal, is_buy, same_side}
use rs_quant.Portfolio.State.{ReservationChanged, LedgerState, executable_lots, signed_position}
use rs_quant.Portfolio.Ledger.Facts.{
  LedgerLibrary, LedgerError, revision_regressed, reservation_scope_changed,
  closing_exceeds_position, LedgerChange, only_state,
}

abbrev pub reservation_key : ReservationChanged → ℕ
reservation_key r = r.reservation_id

-- `==` on reservations.
abbrev pub same_reservation :
    (Decimal → Decimal → Bool) → ReservationChanged → ReservationChanged → Bool
same_reservation eq a b =
    a.reservation_id == b.reservation_id
    && a.instrument_id == b.instrument_id
    && same_side a.side b.side
    && a.remaining_lots == b.remaining_lots
    && eq a.cash_amount b.cash_amount
    && eq a.fee_buffer b.fee_buffer
    && same_bool a.reduce_only b.reduce_only
    && a.revision == b.revision
    && a.unresolved_lots == b.unresolved_lots

-- `(instrument_id, side, reduce_only)` of both
abbrev pub same_reservation_scope : ReservationChanged → ReservationChanged → Bool
same_reservation_scope a b =
    a.instrument_id == b.instrument_id
    && same_side a.side b.side
    && same_bool a.reduce_only b.reduce_only

-- What the loop over the updates keeps: the dict and the duplicate flag.
pub record Reserved : Type 0 where
  pub reservations : Dict ReservationChanged
  pub duplicate : Bool

-- An executable closing reservation of the instrument.
abbrev pub is_closing : Ident → ReservationChanged → Bool
is_closing instrument r =
    r.instrument_id == instrument && r.reduce_only && not (executable_lots r == 0)

abbrev pub closing : Ident → List ReservationChanged → List ReservationChanged
closing instrument rs = keep (is_closing instrument) rs

-- A reservation on the side that does not close a position of these lots.
abbrev pub is_wrong_side : ℤ → ReservationChanged → Bool
is_wrong_side lots r = not (same_bool (not (is_buy r.side)) (is_pos lots))

unfoldable pub exceeds : Ident → ℤ → List ReservationChanged → Bool
unfolding executable_lots
exceeds instrument lots rs =
    any (is_wrong_side lots) (closing instrument rs)
    || ltb (abs lots) (sum (map executable_lots (closing instrument rs)))

module _ (py : LedgerLibrary) where
  unfoldable pub reserve_one :
      Reserved → ReservationChanged → Option ReservationChanged → Result LedgerError Reserved
  reserve_one acc update none = ok (record {
    reservations = insert update.reservation_id update acc.reservations;
    duplicate = false;
  })
  reserve_one acc update (some prior) =
      if same_reservation py.eq_decimal prior update
      then ok acc
      else if leb update.revision prior.revision
      then raise revision_regressed
      else if not (same_reservation_scope update prior)
      then raise reservation_scope_changed
      else ok (record {
        reservations = insert update.reservation_id update acc.reservations;
        duplicate = false;
      })

  unfoldable pub reserve_all : Reserved → List ReservationChanged → Result LedgerError Reserved
  unfolding reserve_one
  reserve_all acc [] = ok acc
  reserve_all acc (u ∷ us) =
      reserve_one acc u (lookup u.reservation_id acc.reservations) >>= λ next. reserve_all next us

  unfoldable pub apply_reservations :
      Ident → List ReservationChanged → LedgerState → Result LedgerError LedgerChange
  unfolding reserve_all exceeds
  apply_reservations instrument updates candidate = do
    done ←
        reserve_all
          (record {
            reservations = dict_from reservation_key [] candidate.reservations;
            duplicate = true;
          })
          updates
    raise_if (exceeds instrument (signed_position instrument candidate) (values done.reservations))
        closing_exceeds_position
    ok (
        only_state done.duplicate
          (record candidate { reservations = sorted_values done.reservations }))
