-- ===== src/Portfolio/Ledger/Closing.antt =====
-- Closing reservations fit the position (`Ledger.apply` of src/quantdesk/portfolio/ledger.py).
use rs_quant.Base.{
  ℕ, ◌≡◌, ◌≤◌, ◌+◌, refl, sym, ap, ◌∙◌, Bool, true, false, not, ◌||◌, ◌&&◌, List, [], ◌∷◌, ok,
  if◌then◌else◌, map, arith, All, keep, any, sum, leb, >>=-eq-ok, inl, inr, Bool-cases,
}
use rs_quant.Base.Ensures.{guarded-ok}
use mathlib.Core.Path.{subst}
use rs_quant.Base.Dict.{Dict, values, dict_from}
use rs_quant.Base.Sort.{sort_by, insert_sorted, sorted_values}
use rs_quant.Base.Int.{ℤ, abs, is_pos}
use rs_quant.Core.Types.{Ident, is_buy}
use rs_quant.Portfolio.State.{ReservationChanged, LedgerState, executable_lots, signed_position}
use rs_quant.Portfolio.Ledger.Facts.{LedgerLibrary, LedgerChange, closing_exceeds_position}
use rs_quant.Portfolio.Ledger.Reserve.{
  apply_reservations, exceeds, closing, is_closing, is_wrong_side, Reserved, reserve_all,
  reservation_key,
}

abbrev entry_key : ℕ × ReservationChanged → ℕ
entry_key e = e.0

-- Sorting changes neither the sum over the values that are kept nor whether one passes a test.
module _ (p q : ReservationChanged → Bool) (f : ReservationChanged → ℕ) where
  abbrev asked : List ReservationChanged → ℕ
  asked rs = sum (map f (keep p rs))

  abbrev passes : List ReservationChanged → Bool
  passes rs = any q (keep p rs)

  asked-∷ :
      (r : ReservationChanged) (rs : List ReservationChanged)
      → asked (r ∷ rs) ≡ (if p r then f r else 0) + asked rs
  asked-∷ r rs = elim (Bool-cases (p r)) [
    | inl yes' ↦ rw yes' refl
    | inr no' ↦ rw no' (omega arith)
  ]

  passes-∷ :
      (r : ReservationChanged) (rs : List ReservationChanged)
      → passes (r ∷ rs) ≡ ((p r && q r) || passes rs)
  passes-∷ r rs = elim (Bool-cases (p r)) [ inl yes' ↦ rw yes' refl | inr no' ↦ rw no' refl ]

  asked-insert :
      (e : ℕ × ReservationChanged) (d : Dict ReservationChanged)
      → asked (values (insert_sorted entry_key e d))
        ≡ (if p e.1 then f e.1 else 0) + asked (values d)
  asked-insert e [] = asked-∷ e.1 []
  asked-insert e (x ∷ d) = elim (Bool-cases (leb e.0 x.0)) [
    | inl up ↦ rw up (asked-∷ e.1 (values (x ∷ d)))
    | inr down ↦ rw down (
        let later = asked-insert e d in
        let a = asked-∷ x.1 (values (insert_sorted entry_key e d)) in
        let b = asked-∷ x.1 (values d) in omega (arith, a, b, later))
  ]

  passes-insert :
      (e : ℕ × ReservationChanged) (d : Dict ReservationChanged)
      → passes (values (insert_sorted entry_key e d)) ≡ ((p e.1 && q e.1) || passes (values d))
  passes-insert e [] = passes-∷ e.1 []
  passes-insert e (x ∷ d) = elim (Bool-cases (leb e.0 x.0)) [
    | inl up ↦ rw up (passes-∷ e.1 (values (x ∷ d)))
    | inr down ↦ rw down (
        ground (
          arith,
          passes-∷ x.1 (values (insert_sorted entry_key e d)),
          passes-∷ x.1 (values d),
          passes-insert e d,
        ))
  ]

  asked-sort : (d : Dict ReservationChanged) → asked (sorted_values d) ≡ asked (values d)
  asked-sort [] = refl
  asked-sort (x ∷ d) =
      omega (arith, asked-insert x (sort_by entry_key d), asked-sort d, asked-∷ x.1 (values d))

  passes-sort : (d : Dict ReservationChanged) → passes (sorted_values d) ≡ passes (values d)
  passes-sort [] = refl
  passes-sort (x ∷ d) =
      passes-insert x (sort_by entry_key d)
      ∙ ap (λ b. (p x.1 && q x.1) || b) (passes-sort d)
      ∙ sym (passes-∷ x.1 (values d))

exceeds-sort :
    (instrument : Ident) (lots : ℤ) (d : Dict ReservationChanged)
    → exceeds instrument lots (sorted_values d) ≡ exceeds instrument lots (values d)
unfolding exceeds
exceeds-sort instrument lots d =
    rw (asked-sort (is_closing instrument) (is_wrong_side lots) executable_lots d)
      (rw (passes-sort (is_closing instrument) (is_wrong_side lots) executable_lots d) refl)

-- The closing reservations of an instrument fit a position: all are on the side that closes it, and
-- together they ask for no more lots than it has.
pub record IsCovered (instrument : Ident) (lots : ℤ) (rs : List ReservationChanged) : Type 0 where
  pub opposite : All (λ r. not (is_buy r.side) ≡ is_pos lots) (closing instrument rs)
  pub within : sum (map executable_lots (closing instrument rs)) ≤ abs lots

none_wrong :
    (lots : ℤ) (rs : List ReservationChanged)
    → any (is_wrong_side lots) rs ≡ false
    → All (λ r. not (is_buy r.side) ≡ is_pos lots) rs
none_wrong lots [] h = tt
none_wrong lots (r ∷ rs) h = (ground arith, none_wrong lots rs (ground arith))

covered :
    (instrument : Ident) (lots : ℤ) (rs : List ReservationChanged)
    → exceeds instrument lots rs ≡ false
    → IsCovered instrument lots rs
unfolding exceeds
covered instrument lots rs h =
    let a : any (is_wrong_side lots) (closing instrument rs) ≡ false = ground arith in
    record { opposite = none_wrong lots (closing instrument rs) a; within = ground arith }

-- When an event that changes reservations of an instrument is accepted, the closing reservations
-- that the ledger then holds of it fit its position: each is on the side opposite to the position,
-- and their executable lots are together at most the position's; the positions, balances and
-- transactions are what they were.
pub apply_reservations-IsCovered :
    (py : LedgerLibrary) (instrument : Ident) (updates : List ReservationChanged) (s : LedgerState)
    {c : LedgerChange}
    → apply_reservations py instrument updates s ≡ ok c
    → IsCovered instrument (signed_position instrument s) c.state.reservations
      × (c.state.positions ≡ s.positions)
      × (c.state.balances ≡ s.balances)
      × (c.state.transactions ≡ s.transactions)
unfolding apply_reservations
apply_reservations-IsCovered py instrument updates s {c} eq =
    let start : Reserved = record {
      reservations = dict_from reservation_key [] s.reservations;
      duplicate = true;
    } in
    let (done, x, y) = >>=-eq-ok (reserve_all py start updates) _ eq in
    let lots = signed_position instrument s in
    let (within, same) =
      guarded-ok (exceeds instrument lots (values done.reservations)) closing_exceeds_position _
        y in
    let stored : c.state.reservations ≡ sorted_values done.reservations = ground arith in
    let fits : exceeds instrument lots (sorted_values done.reservations) ≡ false =
      exceeds-sort instrument lots done.reservations ∙ within in
    (
      subst (IsCovered instrument lots) (sym stored)
          (covered instrument lots (sorted_values done.reservations) fits),
      ground arith,
      ground arith,
      ground arith,
    )
