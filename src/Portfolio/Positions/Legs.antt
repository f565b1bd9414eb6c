-- ===== src/Portfolio/Positions/Legs.antt =====
-- The legs of a fill account for all of it (`apply_fill` of src/quantdesk/portfolio/positions.py).
use rs_quant.Base.{
  ℕ, ◌+◌, ◌*◌, ◌≡◌, ◌≤◌, refl, ◌∙◌, sym, ap, true, false, not, ◌||◌, some, List, [], ◌∷◌, ok, ◌==◌,
  same_bool, arith, Bool-cases, inl, inr, ltb, is_some, ◌⊎◌, Option-cases, none, min, raise, ◌≢◌,
}
use mathlib.Core.Path.{subst}
use native.Mathlib.Nat.{mul-le-mul_left}
use rs_quant.Base.Int.{ℤ, pos, ◌+ℤ◌, ◌-ℤ◌, abs, is_pos}
use rs_quant.Core.Types.{Decimal}
use rs_quant.Portfolio.State.{Position, zero_decimal}
use rs_quant.Portfolio.Instruments.{InstrumentSpec, base_quantity, is_zero, is_positive}
use rs_quant.Portfolio.Positions.{
  Context, filled, leg, PositionLeg, opening, closing, Filled, apply_fill, close_fill, closed_fill,
  decimal_overflow,
}

-- A specification whose lot is a positive quantity.
pub record IsSized (spec : InstrumentSpec) : Type 0 where
  pub step : is_positive spec.quantity_step ≡ true
  pub multiplier : is_positive spec.contract_multiplier ≡ true

product_zero : (a b : ℕ) → ltb 0 b ≡ true → (a * b == 0) ≡ (a == 0)
product_zero a b h =
    let one : 1 ≤ b = ground arith in
    let grows : a * 1 ≤ a * b = mul-le-mul_left a one in
    elim (Bool-cases (a == 0)) [
      | inl none' ↦
          (let z : a ≡ 0 = ground arith in
            subst (λ x. (x * b == 0) ≡ (x == 0)) (sym z)
              (let e : 0 * b ≡ 0 = omega arith in ap (λ x. x == 0) e))
      | inr some' ↦ ground (arith, grows)
    ]

module _ (spec : InstrumentSpec) (sized : IsSized spec) where
  quantity_zero : (n : ℤ) → is_zero (base_quantity spec n) ≡ (abs n == 0)
  unfolding base_quantity
  quantity_zero n =
      let m = spec.contract_multiplier.digits in
      let q = spec.quantity_step.digits in
      let hm : ltb 0 m ≡ true = ground (arith, sized.multiplier) in
      let hq : ltb 0 q ≡ true = ground (arith, sized.step) in
      product_zero (1 * abs n * q) m hm
      ∙ product_zero (1 * abs n) q hq
      ∙ ap (λ x. x == 0) (omega arith)

  quantity_positive : (n : ℤ) → is_positive (base_quantity spec n) ≡ is_pos n
  unfolding base_quantity
  quantity_positive n = ground (arith, quantity_zero n, sized.multiplier, sized.step)

-- The lots that legs fill.
abbrev pub filled_lots : List PositionLeg → ℤ
filled_lots [] = pos 0
filled_lots (l ∷ ls) = l.signed_lots +ℤ filled_lots ls

-- What closing legs close.
abbrev pub closed_lots : List PositionLeg → ℕ
closed_lots [] = 0
closed_lots (l ∷ ls) = (elim l.kind [ closing ↦ abs l.signed_lots | opening ↦ 0 ]) + closed_lots ls

pub record IsAccounted (prior : Position) (lots : ℤ) (f : Filled) : Type 0 where
  pub moved : f.position.signed_lots ≡ prior.signed_lots +ℤ lots
  pub all_filled : filled_lots f.legs ≡ lots
  pub within : closed_lots f.legs ≤ abs prior.signed_lots

-- The quantity of a position has its lots' sign, and it has an average entry exactly if it is open.
pub record IsPriced (p : Position) : Type 0 where
  pub signed : is_positive p.base_quantity ≡ is_pos p.signed_lots
  pub priced : is_some p.average_entry ≡ not (abs p.signed_lots == 0)

module _ (ctx : Context) (spec : InstrumentSpec) (sized : IsSized spec) where
  abbrev IsRight : Position → ℤ → Filled → Type 0
  IsRight prior lots f = IsAccounted prior lots f × IsPriced f.position

  closed_fill-IsRight :
      (prior : Position) (lots : ℤ) (price average gross : Decimal)
      → is_positive prior.base_quantity ≡ is_pos prior.signed_lots
      → (abs lots == 0) ≡ false
      → (abs prior.signed_lots == 0) ≡ false
      → same_bool (is_pos prior.signed_lots) (is_pos lots) ≡ false
      → IsRight prior lots (
          closed_fill ctx prior lots price spec average
            (min (abs prior.signed_lots) (abs lots))
            gross)
  unfolding ◌+ℤ◌ ◌-ℤ◌
  closed_fill-IsRight prior lots price average gross h nz nzp opposite =
      let z = quantity_zero spec sized (prior.signed_lots +ℤ lots) in
      let p = quantity_positive spec sized (prior.signed_lots +ℤ lots) in
      (
        record {
          moved = ground (arith, z, p);
          all_filled = ground (arith, z, p);
          within = ground (arith, z, p);
        },
        record { signed = ground (arith, z, p); priced = ground (arith, z, p) },
      )

  -- A fill that adds to the position, or opens it.
  add_fill-IsRight :
      (prior : Position) (lots : ℤ) (price average gross : Decimal)
      → (abs lots == 0) ≡ false
      → (abs prior.signed_lots == 0) ≡ true
        ⊎ same_bool (is_pos prior.signed_lots) (is_pos lots) ≡ true
      → IsRight prior lots
          (filled ctx prior lots spec (some average) gross (leg opening lots price gross ∷ []))
  unfolding ◌+ℤ◌
  add_fill-IsRight prior lots price average gross nz together =
      let z = quantity_zero spec sized (prior.signed_lots +ℤ lots) in
      let p = quantity_positive spec sized (prior.signed_lots +ℤ lots) in
      (
        record { moved = refl; all_filled = ground arith; within = ground arith },
        record { signed = p; priced = ground arith },
      )

  -- The accounting context overflows on the arithmetic of a fill: on the new average of a fill that
  -- adds to an open position, or on the realized profit of one against it.
  pub record Overflows (prior : Position) (lots : ℤ) (price : Decimal) : Type 0 where
    pub was_open : abs prior.signed_lots ≢ 0
    pub average : Decimal
    pub held : prior.average_entry ≡ some average
    pub adding :
        is_pos prior.signed_lots ≡ is_pos lots
        → ctx.blend prior.base_quantity average
            (base_quantity spec lots)
            price
            (base_quantity spec (prior.signed_lots +ℤ lots))
          ≡ none
    pub against_it :
        is_pos prior.signed_lots ≢ is_pos lots
        → ctx.profit
            (base_quantity spec (pos (min (abs prior.signed_lots) (abs lots))))
            price
            average
            (is_pos prior.signed_lots)
          ≡ none

  abbrev IsAccepted : Position → ℤ → Decimal → Type 0
  IsAccepted prior lots price =
      (f : Filled) × (apply_fill ctx prior lots price spec ≡ ok f)
      × IsAccounted prior lots f
      × IsPriced f.position

  accepted :
      (prior : Position) (lots : ℤ) (price : Decimal) (f : Filled)
      → apply_fill ctx prior lots price spec ≡ ok f
      → IsRight prior lots f
      → IsAccepted prior lots price
  accepted prior lots price f eq r = (f, eq, r.0, r.1)

  abbrev HasOutcome : Position → ℤ → Decimal → Type 0
  HasOutcome prior lots price =
      IsAccepted prior lots price
      ⊎ ((apply_fill ctx prior lots price spec ≡ raise decimal_overflow)
          × Overflows prior lots price)

  -- The two ways to fill an open position.
  module _ (prior : Position) (lots : ℤ) (price average : Decimal) (h : IsPriced prior)
      (nz : (abs lots == 0) ≡ false) (right : (abs lots == 0 || not (is_positive price)) ≡ false)
      (opened : (abs prior.signed_lots == 0) ≡ false)
      (found : prior.average_entry ≡ some average) where
    adding_outcome :
        same_bool (is_pos prior.signed_lots) (is_pos lots) ≡ true → HasOutcome prior lots price
    unfolding apply_fill
    adding_outcome adds =
        let next = base_quantity spec (prior.signed_lots +ℤ lots) in
        elim (Option-cases
          (ctx.blend prior.base_quantity average (base_quantity spec lots) price next)) [
            | inl over ↦ inr (
              rw right (rw opened (rw found (rw adds (rw over refl)))),
              record {
                was_open = ground arith;
                average = average;
                held = found;
                adding = λ u. over;
                against_it = λ u. ground arith;
              },
            )
            | inr (mean, blended) ↦ inl (
                accepted prior lots price
                  (filled ctx prior lots spec (some mean) zero_decimal
                    (leg opening lots price zero_decimal ∷ []))
                  (rw right (rw opened (rw found (rw adds (rw blended refl)))))
                  (add_fill-IsRight prior lots price mean zero_decimal nz (inr adds)))
          ]

    closing_outcome :
        same_bool (is_pos prior.signed_lots) (is_pos lots) ≡ false → HasOutcome prior lots price
    unfolding apply_fill close_fill
    closing_outcome closes =
        let closed = min (abs prior.signed_lots) (abs lots) in
        elim (Option-cases
          (ctx.profit (base_quantity spec (pos closed)) price average (is_pos prior.signed_lots))) [
            | inl over ↦ inr (
              rw right (rw opened (rw found (rw closes (rw over refl)))),
              record {
                was_open = ground arith;
                average = average;
                held = found;
                adding = λ u. ground arith;
                against_it = λ u. over;
              },
            )
            | inr (gross, computed) ↦ inl (
                accepted prior lots price
                  (closed_fill ctx prior lots price spec average closed gross)
                  (rw right (rw opened (rw found (rw closes (rw computed refl)))))
                  (closed_fill-IsRight prior lots price average gross h.signed nz opened closes))
          ]

  -- Take a position whose quantity has the sign of its lots, and which has an average entry exactly if
  -- it is open, and a specification whose lot is a positive quantity. A fill of some lots at a
  -- positive price is accepted: the position moves by the fill, the lots of the legs add up to the
  -- fill, those that close are at most the position, and the new position has its sign and entry in
  -- the same way. The one exception is arithmetic that overflows in the accounting context, which
  -- happens on a new average or a realized profit and never to a flat position; then it raises.
  pub apply_fill-IsAccounted :
      (prior : Position) (lots : ℤ) (price : Decimal)
      → IsPriced prior
      → (abs lots == 0) ≡ false
      → is_positive price ≡ true
      → ((f : Filled) × (apply_fill ctx prior lots price spec ≡ ok f)
          × IsAccounted prior lots f
          × IsPriced f.position)
        ⊎ ((apply_fill ctx prior lots price spec ≡ raise decimal_overflow)
            × Overflows prior lots price)
  unfolding apply_fill
  apply_fill-IsAccounted prior lots price h nz pp =
      let right : abs lots == 0 || not (is_positive price) ≡ false = rw nz (rw pp refl) in
      elim (Bool-cases (abs prior.signed_lots == 0)) [
        | inl flat ↦ inl (
            accepted prior lots price
              (filled ctx prior lots spec (some price) zero_decimal
                (leg opening lots price zero_decimal ∷ []))
              (rw right (rw flat refl))
              (add_fill-IsRight prior lots price price zero_decimal nz (inl flat)))
        | inr opened ↦ elim (Option-cases prior.average_entry) [
          | inl missing ↦ ground (arith, h.priced)
          | inr (average, found) ↦
              elim (Bool-cases (same_bool (is_pos prior.signed_lots) (is_pos lots))) [
                | inl adds ↦ adding_outcome prior lots price average h nz right opened found adds
                | inr closes ↦
                    closing_outcome prior lots price average h nz right opened found closes
              ]
        ]
      ]
