-- ===== src/Portfolio/Instruments.antt =====
-- `InstrumentSpec.base_quantity` and `InstrumentRegistry` of src/quantdesk/venues/instruments.py.
use rs_quant.Base.{
  ℕ, ◌*◌, Bool, not, List, [], ◌∷◌, Result, ok, raise, ◌>>◌, raise_if, ◌==◌, leb, ltb, ◌&&◌,
  if◌then◌else◌, same_bool, keep,
}
use rs_quant.Base.Dict.{Dict, insert, values}
use rs_quant.Base.Sort.{le_tuple}
use rs_quant.Base.Int.{ℤ, pos, ◌+ℤ◌, abs, ltb_ℤ}
use rs_quant.Core.Types.{Ident, Decimal}

-- What the ledger reads of a specification.
pub record InstrumentSpec : Type 0 where
  pub instrument_id : Ident
  pub valid_from_ns : ℕ
  pub known_from_ns : ℕ
  pub revision_hash : Ident
  pub quantity_step : Decimal
  pub contract_multiplier : Decimal
  pub quote_unit : Ident
  pub settlement_unit : Ident

-- `Decimal(n)` of an int
abbrev pub integer : ℤ → Decimal
integer n = record { negative = ltb_ℤ n (pos 0); digits = abs n; exponent = pos 0 }

-- An exact product of two decimals.
abbrev pub times : Decimal → Decimal → Decimal
times a b = record {
  negative = not (same_bool a.negative b.negative);
  digits = a.digits * b.digits;
  exponent = a.exponent +ℤ b.exponent;
}

-- `exact_product`, whose precision holds every digit of each intermediate product
unfoldable pub exact_product : Decimal → List Decimal → Decimal
exact_product result [] = result
exact_product result (d ∷ ds) = exact_product (times result d) ds

unfoldable pub base_quantity : InstrumentSpec → ℤ → Decimal
unfolding exact_product
base_quantity spec lots =
    exact_product (integer (pos 1))
      (integer lots ∷ spec.quantity_step ∷ spec.contract_multiplier ∷ [])

-- `value == 0` and `value > 0`
abbrev pub is_zero : Decimal → Bool
is_zero d = d.digits == 0

abbrev pub is_positive : Decimal → Bool
is_positive d = not d.negative && ltb 0 d.digits

pub data InstrumentError : Type 0 where
  hash_mismatch no_specification : InstrumentError

abbrev spec_key : InstrumentSpec → List ℕ
spec_key s = s.valid_from_ns ∷ s.known_from_ns ∷ s.revision_hash ∷ []

-- `max(candidates, key=...)`, whose first maximum wins
unfoldable pub latest : InstrumentSpec → List InstrumentSpec → InstrumentSpec
latest best [] = best
latest best (s ∷ ss) = latest (if le_tuple (spec_key s) (spec_key best) then best else s) ss

abbrev pub is_candidate : Ident → ℕ → ℕ → InstrumentSpec → Bool
is_candidate instrument event_ns known_ns s =
    s.instrument_id == instrument && leb s.valid_from_ns event_ns && leb s.known_from_ns known_ns

abbrev pub latest_of : List InstrumentSpec → Result InstrumentError InstrumentSpec
latest_of [] = raise no_specification
latest_of (s ∷ ss) = ok (latest s ss)

unfoldable pub spec_at : Dict InstrumentSpec → Ident → ℕ → ℕ → Result InstrumentError InstrumentSpec
unfolding latest
spec_at specs instrument event_ns known_ns =
    latest_of (keep (is_candidate instrument event_ns known_ns) (values specs))

-- `hash_of` is the digest of a specification without its own hash.
unfoldable pub add_specs :
    (InstrumentSpec → Ident)
    → Dict InstrumentSpec
    → List InstrumentSpec
    → Result InstrumentError (Dict InstrumentSpec)
add_specs hash_of specs [] = ok specs
add_specs hash_of specs (s ∷ ss) = do
  raise_if (not (hash_of s == s.revision_hash)) hash_mismatch
  add_specs hash_of (insert s.revision_hash s specs) ss
