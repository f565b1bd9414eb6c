-- ===== src/Portfolio/Tests.antt =====
-- The ledger's theorems at concrete events, with integers for the decimal library.
use rs_quant.Base.{
  ℕ, ◌+◌, ◌*◌, ◌≡◌, refl, true, false, not, none, some, List, [], ◌∷◌, map, arith, if◌then◌else◌,
  All, Result, ok, zero, suc, ◌-◌, ◌^◌, ◌≤◌, ◌<◌, Bool-cases, inl, inr, ◌/◌, ◌⊎◌, Option, ltb,
  same_bool,
}
use native.Mathlib.Nat.{mul-le-mul_left, one-le-pow}
use rs_quant.Base.Int.{ℤ, pos, negsuc, pos_part, ◌≤ℤ◌, ◌+ℤ◌, ◌-ℤ◌, abs, is_pos}
use rs_quant.Core.Types.{Decimal, buy, sell, trade}
use rs_quant.Portfolio.State.{
  Account, cash, adjustments, external, trading_fees, funding_income, realized_pnl, zero_decimal,
  new_ledger, ReservationChanged, LedgerState, Position,
}
use rs_quant.Portfolio.Amounts.{
  DecimalLibrary, Values, IsDecimal, total, scaled_sum, exact_sum, exact_sum-IsExact,
}
use rs_quant.Portfolio.Instruments.{InstrumentSpec, integer}
use rs_quant.Portfolio.Positions.{Filled, Context, apply_fill, decimal_overflow}
use rs_quant.Portfolio.Positions.Legs
use rs_quant.Portfolio.Ledger.Facts.{
  LedgerLibrary, EconomicValue, FinancialEvent, LedgerPayload, financial, cash_transfer,
  execution_report, inward, Header, LedgerChange, only_state,
}
use rs_quant.Portfolio.Ledger.Apply.{no_supplement, apply, balance}
use rs_quant.Portfolio.Ledger.Statement
use rs_quant.Portfolio.Ledger.Duplicates
use rs_quant.Portfolio.Ledger.Closing
use rs_quant.Portfolio.Ledger.Reserve.{apply_reservations}
use rs_quant.Portfolio.Ledger.Postings.{posted_by}
use rs_quant.Portfolio.Ledger.Balanced.{IsBalanced}
use rs_quant.Portfolio.State.{signed_position}
use rs_quant.Portfolio.Ledger.Facts.{LedgerError}
use rs_quant.Base.{raise}

abbrev signed : Decimal → ℤ
signed d = if d.negative then pos 0 -ℤ pos d.digits else pos d.digits

minus_self : (a : ℤ) → a +ℤ (pos 0 -ℤ a) ≡ pos 0
unfolding ◌+ℤ◌ ◌-ℤ◌
minus_self a = ground arith

add_assoc : (a b c : ℤ) → (a +ℤ b) +ℤ c ≡ a +ℤ (b +ℤ c)
unfolding ◌+ℤ◌
add_assoc a b c = ground arith

add_comm : (a b : ℤ) → a +ℤ b ≡ b +ℤ a
unfolding ◌+ℤ◌
add_comm a b = ground arith

add_zero : (a : ℤ) → a +ℤ pos 0 ≡ a
unfolding ◌+ℤ◌
add_zero a = ground arith

abbrev integers : Values
integers = record {
  V = ℤ;
  zero = pos 0;
  plus = λ a b. a +ℤ b;
  minus = λ a. pos 0 -ℤ a;
  plus_assoc = add_assoc;
  plus_comm = add_comm;
  plus_zero = add_zero;
  plus_minus = minus_self;
}

-- The digits of a number below 10 ^ fuel, one at least.
abbrev count_from : ℕ → ℕ → ℕ
count_from zero n = 1
count_from (suc fuel) n = let rest = count_from fuel (n / 10) in if ltb n 10 then 1 else suc rest

-- A sum that does not fit the precision is cut off.
abbrev rounded : ℕ → ℤ → Decimal
rounded p n = if ltb (abs n) (10 ^ p) then integer n else integer (pos (10 ^ p))

abbrev decimals : DecimalLibrary
decimals = record {
  adjusted = λ d. d.exponent +ℤ pos (count_from d.digits d.digits - 1);
  sum_at = λ p ds. rounded p (total integers (map signed ds));
  negate = λ d. record d { negative = not d.negative };
  count_digits = λ n. count_from n n;
}

count_from_positive : (fuel n : ℕ) → 0 < count_from fuel n
count_from_positive zero n = omega arith
count_from_positive (suc fuel) n = ground arith

lt-count_from : (fuel n : ℕ) → n ≤ fuel → n < 10 ^ count_from fuel n
lt-count_from zero n h = ground arith
lt-count_from (suc fuel) n h = elim (Bool-cases (ltb n 10)) [
  | inl small ↦ rw small (ground arith)
  | inr large ↦
      let smaller : n / 10 ≤ fuel = ground arith in
      let rest = lt-count_from fuel (n / 10) smaller in rw large (ground (arith, rest))
]

signed-integer : (n : ℤ) → signed (integer n) ≡ n
unfolding ◌-ℤ◌ ◌+ℤ◌
signed-integer n = ground arith

signed-negate : (d : Decimal) → signed (record d { negative = not d.negative }) ≡ pos 0 -ℤ signed d
unfolding ◌-ℤ◌ ◌+ℤ◌
signed-negate d = ground arith

exponent-le-adjusted : (d : Decimal) → d.exponent ≤ℤ decimals.adjusted d
unfolding ◌+ℤ◌
exponent-le-adjusted d = ground arith

digits-lt-adjusted :
    (d : Decimal) → d.digits < 10 ^ suc (pos_part (decimals.adjusted d -ℤ d.exponent))
unfolding ◌+ℤ◌ ◌-ℤ◌
digits-lt-adjusted d =
    let c = count_from d.digits d.digits in
    let same : suc (pos_part (decimals.adjusted d -ℤ d.exponent)) ≡ c =
      ground (arith, count_from_positive d.digits d.digits) in
    rw same (lt-count_from d.digits d.digits (omega arith))

abs_add : (a b : ℤ) → abs (a +ℤ b) ≤ abs a + abs b
unfolding ◌+ℤ◌
abs_add a b = ground arith

abs-signed : (d : Decimal) → abs (signed d) ≡ d.digits
unfolding ◌-ℤ◌
abs-signed d = ground arith

-- The magnitude of a sum is at most the sum of the magnitudes.
abs-total : (e : ℤ) (ds : List Decimal) → abs (total integers (map signed ds)) ≤ scaled_sum e ds
unfolding total scaled_sum
abs-total e [] = omega arith
abs-total e (d ∷ ds) =
    let k = pos_part (d.exponent -ℤ e) in
    let grown : d.digits * 1 ≤ d.digits * 10 ^ k =
      mul-le-mul_left d.digits (one-le-pow k 10 (omega arith)) in
    let rest = abs-total e ds in
    let added = abs_add (signed d) (total integers (map signed ds)) in
    ground (arith, grown, rest, added, abs-signed d)

signed-rounded : (p : ℕ) (n : ℤ) → abs n < 10 ^ p → signed (rounded p n) ≡ n
signed-rounded p n h =
    let fits : ltb (abs n) (10 ^ p) ≡ true = ground arith in rw fits (signed-integer n)

decimals-IsDecimal : IsDecimal decimals integers signed
decimals-IsDecimal = record {
  value_zero = refl;
  value_negate = signed-negate;
  exponent-le-adjusted = exponent-le-adjusted;
  digits-lt-adjusted = digits-lt-adjusted;
  lt-count_digits = λ n. lt-count_from n n (omega arith);
  value_sum = λ p e ds low h.
      signed-rounded p (total integers (map signed ds))
        (let bound = abs-total e ds in ground (arith, bound));
}

abbrev code : Account → ℕ
code (cash a) = 10 + a
code adjustments = 1
code external = 2
code trading_fees = 3
code funding_income = 4
code realized_pnl = 5

abbrev digest_value : EconomicValue → ℕ
digest_value (EconomicValue.ratio n d) = abs n
digest_value (EconomicValue.number n) = n
digest_value (EconomicValue.text t) = t
digest_value _ = 0

abbrev digest : List ℕ → ℕ
digest [] = 7
digest (x ∷ xs) = x + 3 * digest xs

-- Arithmetic on whole numbers that overflows from a million on.
abbrev bounded : Decimal → Option Decimal
bounded d = if ltb d.digits 1000000 then some d else none

abbrev context : Context
context = record {
  blend = λ held average delta price quantity.
      (let worth = held.digits * average.digits + delta.digits * price.digits in
        bounded (integer (pos (worth / quantity.digits))));
  profit = λ quantity price average is_long.
      (let gained = signed price -ℤ signed average in
        bounded (record {
          negative = not (same_bool is_long (is_pos gained));
          digits = quantity.digits * abs gained;
          exponent = pos 0;
        }));
}

abbrev library : LedgerLibrary
library = record {
  decimals = decimals;
  context = context;
  eq_decimal = λ a b. true;
  numerator = signed;
  denominator = λ d. 1;
  place = λ a asset. code a + 100 * asset;
  sign = λ vs. digest (map digest_value vs);
  transaction_id_of = digest;
  hash_of = λ s. s.revision_hash;
  is_blank = λ t. false;
  market_of = λ t. some 9;
  usdt = 1;
  cash_text = 2;
  usdt_futures = 8;
  linear = 9;
}

abbrev contract : InstrumentSpec
contract = record {
  instrument_id = 5;
  valid_from_ns = 0;
  known_from_ns = 0;
  revision_hash = 6;
  quantity_step = integer (pos 1);
  contract_multiplier = integer (pos 1);
  quote_unit = 1;
  settlement_unit = 1;
}

abbrev header : ℕ → Header
header n = record {
  event_id = n;
  venue = 1;
  environment = 2;
  account_id = 3;
  instrument_id = some 5;
  available_ns = n;
  engine_seq = n;
}

abbrev event : ℕ → LedgerPayload → FinancialEvent
event n p = record { header = header n; payload = p; supplement = no_supplement }

-- 100 are paid in, and two lots are bought for a fee of 1.
abbrev deposit : FinancialEvent
deposit = event 1 (
    financial (
      cash_transfer (record {
        native_transaction_id = 11;
        amount = integer (pos 100);
        asset = 1;
        direction = inward;
      })))

abbrev purchase : FinancialEvent
purchase = event 2 (
    financial (
      execution_report (record {
        native_execution_id = 12;
        client_order_id = none;
        venue_order_id = none;
        side = buy;
        executed_lots = 2;
        price = integer (pos 40);
        event_ns = 2;
        receipt_ns = 2;
        fee_amount = integer (pos 1);
        fee_currency = 1;
        fee_rate = none;
        maker = none;
        execution_type = trade;
        native_realized_pnl = none;
      })))

abbrev closing_order : ReservationChanged
closing_order = record {
  reservation_id = 21;
  instrument_id = 5;
  side = sell;
  remaining_lots = 2;
  cash_amount = zero_decimal;
  fee_buffer = zero_decimal;
  reduce_only = true;
  revision = 1;
  unresolved_lots = 0;
}

abbrev books : LedgerState
books = Statement.run_ledger library (contract ∷ []) (deposit ∷ purchase ∷ []) (new_ledger 1 2 3)

cash_left : signed (balance library (cash 1) 1 books) ≡ pos 99
unfolding balance Statement.run_ledger exact_sum total ◌+ℤ◌ ◌-ℤ◌
cash_left = refl

balance-sums_transactions_example :
    signed (balance library (cash 1) 1 books)
    ≡ posted_by library integers signed (library.place (cash 1) 1) books.transactions
balance-sums_transactions_example =
    Statement.balance-sums_transactions library integers signed decimals-IsDecimal (contract ∷ [])
      (deposit ∷ purchase ∷ []) 1 2 3 (cash 1) 1

transactions-IsBalanced_example :
    All (λ t. IsBalanced library integers signed t.postings) books.transactions
transactions-IsBalanced_example =
    Statement.transactions-IsBalanced library integers signed decimals-IsDecimal (contract ∷ [])
      (deposit ∷ purchase ∷ []) 1 2 3

exact_sum-IsExact_example :
    signed (exact_sum decimals (integer (pos 2) ∷ integer (negsuc 4) ∷ []))
    ≡ total integers (map signed (integer (pos 2) ∷ integer (negsuc 4) ∷ []))
exact_sum-IsExact_example =
    exact_sum-IsExact decimals integers signed (integer (pos 2) ∷ integer (negsuc 4) ∷ [])
      decimals-IsDecimal

abbrev change_of : Result LedgerError LedgerChange → LedgerChange
change_of (ok c) = c
change_of (raise e) = only_state false (new_ledger 0 0 0)

abbrev bought : LedgerChange
bought = change_of (apply library (contract ∷ []) purchase (new_ledger 1 2 3))

purchase_accepted : apply library (contract ∷ []) purchase (new_ledger 1 2 3) ≡ ok bought
unfolding apply
purchase_accepted = refl

apply_again_example :
    apply library (contract ∷ []) purchase bought.state ≡ ok (only_state true bought.state)
apply_again_example =
    Duplicates.apply_again library (contract ∷ []) purchase (new_ledger 1 2 3) refl
      purchase_accepted

abbrev reserved : LedgerChange
reserved = change_of (apply_reservations library 5 (closing_order ∷ []) books)

closing_accepted : apply_reservations library 5 (closing_order ∷ []) books ≡ ok reserved
unfolding apply_reservations Statement.run_ledger ◌+ℤ◌
closing_accepted = refl

apply_reservations-IsCovered_example :
    Closing.IsCovered 5 (signed_position 5 books) reserved.state.reservations
    × (reserved.state.positions ≡ books.positions)
    × (reserved.state.balances ≡ books.balances)
    × (reserved.state.transactions ≡ books.transactions)
apply_reservations-IsCovered_example =
    Closing.apply_reservations-IsCovered library 5 (closing_order ∷ []) books closing_accepted

-- A short position of three lots, and a purchase of five: three close it and two open a long one.
abbrev short_three : Position
short_three = record {
  instrument_id = 5;
  signed_lots = negsuc 2;
  base_quantity = integer (negsuc 2);
  average_entry = some (integer (pos 40));
  spec_revision = 6;
}

apply_fill-IsAccounted_example :
    ((f : Filled) × (apply_fill context short_three (pos 5) (integer (pos 30)) contract ≡ ok f)
      × Legs.IsAccounted short_three (pos 5) f
      × Legs.IsPriced f.position)
    ⊎ ((apply_fill context short_three (pos 5) (integer (pos 30)) contract ≡ raise decimal_overflow)
        × Legs.Overflows context contract
            (record { step = refl; multiplier = refl })
            short_three
            (pos 5)
            (integer (pos 30)))
apply_fill-IsAccounted_example =
    Legs.apply_fill-IsAccounted context contract (record { step = refl; multiplier = refl })
      short_three (pos 5) (integer (pos 30)) (record { signed = refl; priced = refl }) refl refl

-- A purchase at a price of 900000 realizes a loss that is too large for the context.
overflow_raises :
    apply_fill context short_three (pos 5) (integer (pos 900000)) contract ≡ raise decimal_overflow
unfolding apply_fill ◌-ℤ◌
overflow_raises = refl

-- Three of five bought at 30 close the position at a profit of 30.
reversal_accepted :
    (f : Filled) × (apply_fill context short_three (pos 5) (integer (pos 30)) contract ≡ ok f)
    × (f.realized ≡ integer (pos 30))
    × (f.position.signed_lots ≡ pos 2)
unfolding apply_fill ◌-ℤ◌ ◌+ℤ◌
reversal_accepted = (_, refl, refl, refl)
