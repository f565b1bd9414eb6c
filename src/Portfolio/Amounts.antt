-- ===== src/Portfolio/Amounts.antt =====
-- `exact_sum` of src/quantdesk/portfolio/arithmetic.py, over what Python's decimal library computes.
use rs_quant.Base.{
  ℕ, zero, suc, ap, ◌∙◌, ◌+◌, ◌*◌, ◌^◌, ◌≤◌, ◌<◌, ◌≡◌, arith, List, [], ◌∷◌, length, max, map, All,
  if◌then◌else◌,
}
use rs_quant.Base.Int.{ℤ, pos_part, ◌-ℤ◌, ◌≤ℤ◌, ltb_ℤ}
use native.Mathlib.Numerals.{unary_clauses}
use native.Mathlib.Nat.{
  mul-le-mul_right, mul-lt-mul_of_pos_right, pow-le-pow_right, one-le-pow, mul_assoc, mul-one,
}
use rs_quant.Core.Types.{Decimal}
use rs_quant.Portfolio.State.{zero_decimal}

pub record DecimalLibrary : Type 0 where
  -- `Decimal.adjusted`, the position of the first digit
  pub adjusted : Decimal → ℤ
  -- `sum(values, Decimal(0))` in a context of some precision
  pub sum_at : ℕ → List Decimal → Decimal
  -- `copy_negate`
  pub negate : Decimal → Decimal
  -- `len(str(n))`
  pub count_digits : ℕ → ℕ

abbrev min_ℤ : ℤ → ℤ → ℤ
min_ℤ a b = if ltb_ℤ b a then b else a

abbrev max_ℤ : ℤ → ℤ → ℤ
max_ℤ a b = if ltb_ℤ a b then b else a

unfoldable pub least_exponent : Decimal → List Decimal → ℤ
least_exponent d [] = d.exponent
least_exponent d (e ∷ es) = min_ℤ d.exponent (least_exponent e es)

module _ (py : DecimalLibrary) where
  unfoldable pub greatest_adjusted : Decimal → List Decimal → ℤ
  greatest_adjusted d [] = py.adjusted d
  greatest_adjusted d (e ∷ es) = max_ℤ (py.adjusted d) (greatest_adjusted e es)

  -- `greatest - least + len(str(len(values)))`
  unfoldable pub span : Decimal → List Decimal → ℕ
  unfolding greatest_adjusted least_exponent
  span d ds =
      pos_part (greatest_adjusted d ds -ℤ least_exponent d ds) + py.count_digits (length (d ∷ ds))

  unfoldable pub exact_sum : List Decimal → Decimal
  unfolding span
  exact_sum [] = zero_decimal
  exact_sum (d ∷ ds) = py.sum_at (max 50 (span d ds + 2)) (d ∷ ds)

-- The values of decimals, as an abelian group.
pub record Values : Type 1 where
  pub V : Type 0
  pub zero : V
  pub plus : V → V → V
  pub minus : V → V
  pub plus_assoc : (a b c : V) → plus (plus a b) c ≡ plus a (plus b c)
  pub plus_comm : (a b : V) → plus a b ≡ plus b a
  pub plus_zero : (a : V) → plus a zero ≡ a
  pub plus_minus : (a : V) → plus a (minus a) ≡ zero

unfoldable pub total : (g : Values) → List g.V → g.V
total g [] = g.zero
total g (v ∷ vs) = g.plus v (total g vs)

-- A decimal as a multiple of 10 ^ e, without its sign, for an e that is at most its exponent.
abbrev pub scaled : ℤ → Decimal → ℕ
scaled e d = d.digits * 10 ^ pos_part (d.exponent -ℤ e)

unfoldable pub scaled_sum : ℤ → List Decimal → ℕ
scaled_sum e [] = 0
scaled_sum e (d ∷ ds) = scaled e d + scaled_sum e ds

-- What the library documents, of exponents and precisions within its limits MAX_EMAX, MIN_EMIN and
-- MAX_PREC, which `exact_sum` sets. `copy_negate` is exact. `adjusted` is the exponent of the first
-- digit, so the digits are fewer than the power of ten above it; a number is less than the power of
-- ten with as many zeros as its text has digits. An addition is exact if its result is a multiple of
-- a power of ten with at most as many digits as the precision of the context: every partial sum is,
-- if all exponents are at least e and the magnitudes, as multiples of 10 ^ e, add up to less than
-- 10 ^ p.
pub record IsDecimal (py : DecimalLibrary) (g : Values) (value : Decimal → g.V) : Type 0 where
  pub value_zero : value zero_decimal ≡ g.zero
  pub value_negate : (d : Decimal) → value (py.negate d) ≡ g.minus (value d)
  pub exponent-le-adjusted : (d : Decimal) → d.exponent ≤ℤ py.adjusted d
  pub digits-lt-adjusted :
      (d : Decimal) → d.digits < 10 ^ suc (pos_part (py.adjusted d -ℤ d.exponent))
  pub lt-count_digits : (n : ℕ) → n < 10 ^ py.count_digits n
  pub value_sum :
      (p : ℕ) (e : ℤ) (ds : List Decimal)
      → All (λ d. e ≤ℤ d.exponent) ds
      → scaled_sum e ds < 10 ^ p
      → value (py.sum_at p ds) ≡ total g (map value ds)

pow_add : (n a b : ℕ) → n ^ (a + b) ≡ n ^ a * n ^ b
pow_add n a zero = simp (unary_clauses, mul-one)
pow_add n a (suc b) =
    simp unary_clauses (ap (λ x. x * n) (pow_add n a b) ∙ mul_assoc (n ^ a) (n ^ b) n)

least_exponent-le :
    (e : ℤ) (d : Decimal) (ds : List Decimal)
    → e ≤ℤ least_exponent d ds
    → All (λ x. e ≤ℤ x.exponent) (d ∷ ds)
unfolding least_exponent
least_exponent-le e d [] h = ground arith
least_exponent-le e d (x ∷ ds) h =
    let rest : e ≤ℤ least_exponent x ds = ground arith in
    let first : e ≤ℤ d.exponent = ground arith in (first, least_exponent-le e x ds rest)

greatest_adjusted-ge :
    (py : DecimalLibrary) (m : ℤ) (d : Decimal) (ds : List Decimal)
    → greatest_adjusted py d ds ≤ℤ m
    → All (λ x. py.adjusted x ≤ℤ m) (d ∷ ds)
unfolding greatest_adjusted
greatest_adjusted-ge py m d [] h = ground arith
greatest_adjusted-ge py m d (x ∷ ds) h =
    let rest : greatest_adjusted py x ds ≤ℤ m = ground arith in
    let first : py.adjusted d ≤ℤ m = ground arith in (first, greatest_adjusted-ge py m x ds rest)

module _ (py : DecimalLibrary) (g : Values) (value : Decimal → g.V) (h : IsDecimal py g value) where
  -- A decimal between two exponents has at most the digits between them.
  scaled_bound :
      (e m : ℤ) (d : Decimal)
      → e ≤ℤ d.exponent
      → py.adjusted d ≤ℤ m
      → scaled e d ≤ 10 ^ suc (pos_part (m -ℤ e))
  unfolding ◌-ℤ◌
  scaled_bound e m d low high =
      let k = pos_part (d.exponent -ℤ e) in
      let a = suc (pos_part (py.adjusted d -ℤ d.exponent)) in
      let wide : a + k ≤ suc (pos_part (m -ℤ e)) = ground (arith, h.exponent-le-adjusted d) in
      let few : d.digits ≤ 10 ^ a = ground (arith, h.digits-lt-adjusted d) in
      let shifted : scaled e d ≤ 10 ^ a * 10 ^ k = mul-le-mul_right (10 ^ k) few in
      let joined : 10 ^ (a + k) ≡ 10 ^ a * 10 ^ k = pow_add 10 a k in
      let grown : 10 ^ (a + k) ≤ 10 ^ suc (pos_part (m -ℤ e)) =
        pow-le-pow_right (omega arith) wide in
      ground (arith, shifted, joined, grown)

  scaled_sum_bound :
      (e m : ℤ) (ds : List Decimal)
      → All (λ d. e ≤ℤ d.exponent) ds
      → All (λ d. py.adjusted d ≤ℤ m) ds
      → scaled_sum e ds ≤ length ds * 10 ^ suc (pos_part (m -ℤ e))
  unfolding scaled_sum
  scaled_sum_bound e m [] low high = omega arith
  scaled_sum_bound e m (d ∷ ds) (low, lows) (high, highs) =
      let first = scaled_bound e m d low high in
      let rest = scaled_sum_bound e m ds lows highs in ground (arith, first, rest)

  -- The precision that `exact_sum` asks for holds the magnitudes' sum.
  precision_suffices :
      (d : Decimal) (ds : List Decimal)
      → scaled_sum (least_exponent d ds) (d ∷ ds) < 10 ^ max 50 (span py d ds + 2)
  unfolding span
  precision_suffices d ds =
      let e = least_exponent d ds in
      let m = greatest_adjusted py d ds in
      let n = length (d ∷ ds) in
      let w = suc (pos_part (m -ℤ e)) in
      let sum =
        scaled_sum_bound e m (d ∷ ds) (least_exponent-le e d ds (omega arith))
          (greatest_adjusted-ge py m d ds (omega arith)) in
      let c = py.count_digits n in
      let counted : n * 10 ^ w < 10 ^ c * 10 ^ w =
        mul-lt-mul_of_pos_right (h.lt-count_digits n) (one-le-pow w 10 (omega arith)) in
      let joined : 10 ^ (c + w) ≡ 10 ^ c * 10 ^ w = pow_add 10 c w in
      let wide : c + w ≤ max 50 (span py d ds + 2) = ground arith in
      let grown : 10 ^ (c + w) ≤ 10 ^ max 50 (span py d ds + 2) =
        pow-le-pow_right (omega arith) wide in
      ground (arith, sum, counted, joined, grown)

-- `exact_sum` is exact: its value is the sum of the values. The precision that it asks for, from the
-- least exponent, the greatest first digit and the number of values, holds every digit, given what
-- the decimal library documents.
pub exact_sum-IsExact :
    (py : DecimalLibrary) (g : Values) (value : Decimal → g.V) (ds : List Decimal)
    → IsDecimal py g value
    → value (exact_sum py ds) ≡ total g (map value ds)
unfolding exact_sum total
exact_sum-IsExact py g value [] h = h.value_zero
exact_sum-IsExact py g value (d ∷ ds) h =
    h.value_sum (max 50 (span py d ds + 2)) (least_exponent d ds) (d ∷ ds)
      (least_exponent-le (least_exponent d ds) d ds (omega arith))
      (precision_suffices py g value h d ds)
