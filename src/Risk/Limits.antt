-- ===== src/Risk/Limits.antt =====
-- The risk checks of src/quantdesk/risk/limits.py.
pub mod Conditions
pub mod Admission
use rs_quant.Base.{
  ℕ, ◌+◌, ◌-◌, ◌*◌, ◌/◌, Bool, true, false, not, ◌&&◌, ◌||◌, Option, none, some, List, [], ◌∷◌,
  ◌==◌, if◌then◌else◌, leb, ltb, elem, Result, ok, raise, ◌>>=◌,
}
use rs_quant.Base.Dict.{Dict}
use rs_quant.Base.Int.{ℤ, pos, ltb_ℤ, is_pos}
use rs_quant.Core.Types.{Ident, Decimal}
use rs_quant.Portfolio.State.{zero_decimal}
use rs_quant.Portfolio.Instruments.{integer}

-- What the caller's context traps.
pub data DecimalError : Type 0 where
  decimal_exception : DecimalError

-- Decimal arithmetic in the context of the caller, which may raise.
pub record RiskDecimals : Type 0 where
  -- `a < b`
  pub less : Decimal → Decimal → Bool
  pub add : Decimal → Decimal → Result DecimalError Decimal
  pub subtract : Decimal → Decimal → Result DecimalError Decimal
  pub divide : Decimal → Decimal → Result DecimalError Decimal

-- What the checks read of `RiskConfig`.
pub record RiskConfig : Type 0 where
  pub max_open_entry_orders_per_symbol : ℕ
  pub max_open_orders_account : ℕ
  pub max_spread_bps : Decimal
  pub max_order_visible_depth_fraction : Decimal
  pub max_gross_notional_fraction : Decimal
  pub max_symbol_notional_fraction : Decimal
  pub max_order_notional_usdt : Option Decimal
  pub max_total_notional_usdt : Option Decimal
  pub daily_loss_fraction : Decimal
  pub max_daily_loss_usdt : Option Decimal
  pub peak_drawdown_fraction : Decimal
  pub market_data_max_age_ms : ℕ
  pub mark_max_age_ms : ℕ
  pub private_heartbeat_max_age_ms : ℕ
  pub max_ingress_age_ms : ℕ
  pub max_clock_offset_ms : ℕ
  pub disk_reserve_gib : ℕ
  pub protection_confirmation_ms : ℕ

pub data Mode : Type 0 where
  live other_mode : Mode

pub data Environment : Type 0 where
  demo sandbox live_environment unsupported : Environment

-- A decimal that may be infinite or not a number.
pub data Amount : Type 0 where
  finite : Decimal → Amount
  not_finite : Amount

pub data Reason : Type 0 where
  live_not_enabled unsupported_environment reconciliation_incomplete : Reason
  latch_active : Ident → Reason
  non_finite_desired_quantity non_finite_risk_budget non_finite_price : Reason
  invalid_stop_distance invalid_price stop_distance_exceeds_price : Reason
  below_minimum_after_risk_cap invalid_price_ticks below_min_notional : Reason
  max_entry_orders_per_symbol max_orders_account duplicate_intent spread_too_wide : Reason
  no_visible_depth exceeds_depth_participation zero_equity max_gross_exceeded : Reason
  max_symbol_exceeded max_order_usdt_exceeded max_total_usdt_exceeded : Reason
  baseline_not_positive daily_loss_exceeded max_daily_loss_exceeded drawdown_exceeded : Reason
  stale_market_data stale_mark_price stale_private_heartbeat stale_ingress : Reason
  clock_offset_too_high disk_reserve_low protection_timeout : Reason

-- `(True, "OK")` or `(False, reason)`
pub data Verdict : Type 0 where
  accepted : Verdict
  refused : Reason → Verdict

-- `if c: return False, reason`, before the rest of the checks
abbrev pub refuse_if : Bool → Reason → Verdict → Verdict
refuse_if true r next = refused r
refuse_if false r next = next

-- The first verdict that refuses.
abbrev pub and_then : Verdict → Verdict → Verdict
and_then accepted next = next
and_then (refused r) next = refused r

unfoldable pub check_mode_and_account : Mode → Bool → Environment → Verdict
check_mode_and_account mode live_enabled environment =
    refuse_if ((elim mode [ live ↦ true | other_mode ↦ false ]) && not live_enabled)
      live_not_enabled
      (refuse_if (elim environment [ unsupported ↦ true | _ ↦ false ]) unsupported_environment
        accepted)

unfoldable pub check_reconciliation_complete : Bool → Verdict
check_reconciliation_complete reconciled =
    refuse_if (not reconciled) reconciliation_incomplete accepted

unfoldable pub check_latch : Dict Bool → Verdict
check_latch [] = accepted
check_latch ((latch, active) ∷ rest) = refuse_if active (latch_active latch) (check_latch rest)

unfoldable pub check_duplicate_intent : Ident → List Ident → Verdict
check_duplicate_intent intent consumed = refuse_if (elem intent consumed) duplicate_intent accepted

-- Milliseconds, rounded down; a negative age is no larger than any limit.
abbrev pub age_ms : ℕ → ℕ → ℕ
age_ms now time = (now - time) / 1000000

abbrev pub is_stale : ℕ → Option ℕ → ℕ → Bool
is_stale now none limit = false
is_stale now (some time) limit = ltb limit (age_ms now time)

module _ (py : RiskDecimals) where
  abbrev pub is_invalid : Option Amount → Bool
  is_invalid none = false
  is_invalid (some not_finite) = true
  is_invalid (some (finite d)) = py.less d zero_decimal

  abbrev pub exceeds_cap : Option Decimal → Decimal → Bool
  exceeds_cap none d = false
  exceeds_cap (some cap) d = py.less cap d

  -- `max(Decimal("0"), d)`
  abbrev pub at_least_zero : Decimal → Decimal
  at_least_zero d = if py.less zero_decimal d then d else zero_decimal

  -- `d <= 0`
  abbrev pub is_nonpositive : Decimal → Bool
  is_nonpositive d = not (py.less zero_decimal d)

  unfoldable pub check_finite_values : Option Amount → Option Amount → Option Amount → Verdict
  check_finite_values desired budget price =
      refuse_if (is_invalid desired) non_finite_desired_quantity (
        refuse_if (is_invalid budget) non_finite_risk_budget
          (refuse_if (is_invalid price) non_finite_price accepted))

  unfoldable pub check_stop_distance : Option Amount → Decimal → Verdict
  check_stop_distance (some (finite stop)) price =
      refuse_if (is_nonpositive stop) invalid_stop_distance (
        refuse_if (is_nonpositive price) invalid_price
          (refuse_if (not (py.less stop price)) stop_distance_exceeds_price accepted))
  check_stop_distance _ price = refused invalid_stop_distance

  unfoldable pub check_tick_lot_notional : ℤ → ℤ → Option ℤ → Decimal → Decimal → Verdict
  check_tick_lot_notional lots min_lots ticks min_notional notional =
      refuse_if (not (is_pos lots)) below_minimum_after_risk_cap (
        refuse_if (ltb_ℤ lots min_lots) below_minimum_after_risk_cap (
          refuse_if (elim ticks [ none ↦ false | some t ↦ not (is_pos t) ]) invalid_price_ticks
            (refuse_if (py.less notional min_notional) below_min_notional accepted)))

  module _ (config : RiskConfig) where
    unfoldable pub check_order_count : ℕ → ℕ → Verdict
    check_order_count entries orders =
        refuse_if (leb config.max_open_entry_orders_per_symbol entries) max_entry_orders_per_symbol
          (refuse_if (leb config.max_open_orders_account orders) max_orders_account accepted)

    unfoldable pub check_spread : Option Decimal → Verdict
    check_spread none = accepted
    check_spread (some spread) =
        refuse_if (py.less config.max_spread_bps spread) spread_too_wide accepted

    unfoldable pub check_participation_depth : ℤ → ℤ → Result DecimalError Verdict
    check_participation_depth lots visible =
        if not (is_pos visible) then ok (refused no_visible_depth) else (do
          fraction ← py.divide (integer lots) (integer visible)
          ok (
              refuse_if (py.less config.max_order_visible_depth_fraction fraction)
                exceeds_depth_participation accepted))

    abbrev check_fraction :
        Decimal → Reason → Decimal → Decimal → Decimal → Result DecimalError Verdict
    check_fraction limit reason held ordered equity =
        if is_nonpositive equity then ok (refused zero_equity) else (do
          gross ← py.add held ordered
          fraction ← py.divide gross equity
          ok (refuse_if (py.less limit fraction) reason accepted))

    unfoldable pub check_exposure : Decimal → Decimal → Decimal → Result DecimalError Verdict
    check_exposure = check_fraction config.max_gross_notional_fraction max_gross_exceeded

    unfoldable pub check_symbol_exposure : Decimal → Decimal → Decimal → Result DecimalError Verdict
    check_symbol_exposure = check_fraction config.max_symbol_notional_fraction max_symbol_exceeded

    abbrev check_total_cap : Option Decimal → Decimal → Decimal → Result DecimalError Verdict
    check_total_cap none ordered total = ok accepted
    check_total_cap (some cap) ordered total = do
      sum ← py.add total ordered
      ok (refuse_if (py.less cap sum) max_total_usdt_exceeded accepted)

    unfoldable pub check_notional_caps : Decimal → Decimal → Result DecimalError Verdict
    check_notional_caps ordered total =
        if exceeds_cap config.max_order_notional_usdt ordered
        then ok (refused max_order_usdt_exceeded)
        else check_total_cap config.max_total_notional_usdt ordered total

    -- max(0, baseline + flow - current)
    abbrev pub daily_loss : Decimal → Decimal → Decimal → Result DecimalError Decimal
    daily_loss baseline current flow = do
      funded ← py.add baseline flow
      lost ← py.subtract funded current
      ok (at_least_zero lost)

    unfoldable pub check_daily_loss : Decimal → Decimal → Decimal → Result DecimalError Verdict
    check_daily_loss baseline current flow =
        if is_nonpositive baseline then ok (refused baseline_not_positive) else (do
          loss ← daily_loss baseline current flow
          fraction ← py.divide loss baseline
          ok (
              refuse_if (py.less config.daily_loss_fraction fraction) daily_loss_exceeded (
                refuse_if (exceeds_cap config.max_daily_loss_usdt loss) max_daily_loss_exceeded
                  accepted)))

    -- max(0, peak - current)
    abbrev pub drawdown : Decimal → Decimal → Result DecimalError Decimal
    drawdown peak current = do fallen ← py.subtract peak current; ok (at_least_zero fallen)

    unfoldable pub check_drawdown : Decimal → Decimal → Result DecimalError Verdict
    check_drawdown peak current = if is_nonpositive peak then ok accepted else (do
      down ← drawdown peak current
      fraction ← py.divide down peak
      ok (refuse_if (py.less config.peak_drawdown_fraction fraction) drawdown_exceeded accepted))

    unfoldable pub check_stale_data : ℕ → Option ℕ → Option ℕ → Option ℕ → Option ℕ → ℤ → Verdict
    check_stale_data now market mark heartbeat ingress offset =
        refuse_if (is_stale now market config.market_data_max_age_ms) stale_market_data (
          refuse_if (is_stale now mark config.mark_max_age_ms) stale_mark_price (
            refuse_if (is_stale now heartbeat config.private_heartbeat_max_age_ms)
              stale_private_heartbeat
              (refuse_if (is_stale now ingress config.max_ingress_age_ms) stale_ingress (
                refuse_if (ltb_ℤ (pos config.max_clock_offset_ms) offset) clock_offset_too_high
                  accepted))))

    unfoldable pub check_disk_reserve : ℕ → Verdict
    check_disk_reserve free = refuse_if (ltb free config.disk_reserve_gib) disk_reserve_low accepted

    unfoldable pub check_protection_confirmed : Bool → Bool → ℕ → Verdict
    check_protection_confirmed held confirmed elapsed =
        refuse_if (held && not confirmed && ltb config.protection_confirmation_ms elapsed)
          protection_timeout accepted

-- The arguments of `evaluate_pre_trade`.
pub record PreTrade : Type 0 where
  pub mode : Mode
  pub live_enabled : Bool
  pub environment : Environment
  pub reconciled : Bool
  pub active_latches : Dict Bool
  pub desired_quantity : Option Amount
  pub risk_budget : Option Amount
  pub price : Option Amount
  pub intent_id : Ident
  pub consumed_intents : List Ident
  pub open_entry_orders_symbol : ℕ
  pub open_orders_account : ℕ
  pub spread_bps : Option Decimal
  pub event_available_ns : ℕ
  pub market_data_ns : Option ℕ
  pub mark_ns : Option ℕ
  pub heartbeat_ns : Option ℕ
  pub ingress_ns : Option ℕ
  pub clock_offset_ms : ℤ
  pub baseline_equity : Decimal
  pub current_equity : Decimal
  pub net_external_flow : Decimal
  pub peak_equity : Decimal

abbrev pub first_refusal : List Verdict → Verdict
first_refusal [] = accepted
first_refusal (v ∷ vs) = and_then v (first_refusal vs)

-- The verdicts in order, given those of the checks that may raise.
unfoldable pub verdicts : RiskDecimals → RiskConfig → PreTrade → Verdict → Verdict → List Verdict
unfolding check_mode_and_account check_reconciliation_complete check_latch check_finite_values
    check_duplicate_intent check_order_count check_spread check_stale_data
verdicts py config t loss peak =
    check_mode_and_account t.mode t.live_enabled t.environment
    ∷ check_reconciliation_complete t.reconciled
    ∷ check_latch t.active_latches
    ∷ check_finite_values py t.desired_quantity t.risk_budget t.price
    ∷ check_duplicate_intent t.intent_id t.consumed_intents
    ∷ check_order_count py config t.open_entry_orders_symbol t.open_orders_account
    ∷ check_spread py config t.spread_bps
    ∷ check_stale_data py config t.event_available_ns t.market_data_ns t.mark_ns t.heartbeat_ns
        t.ingress_ns t.clock_offset_ms
    ∷ loss
    ∷ peak
    ∷ []

-- All checks run before the first verdict is read.
unfoldable pub pre_trade_checks :
    RiskDecimals → RiskConfig → PreTrade → Result DecimalError (List Verdict)
unfolding check_daily_loss check_drawdown verdicts
pre_trade_checks py config t = do
  loss ← check_daily_loss py config t.baseline_equity t.current_equity t.net_external_flow
  peak ← check_drawdown py config t.peak_equity t.current_equity
  ok (verdicts py config t loss peak)

unfoldable pub evaluate_pre_trade :
    RiskDecimals → RiskConfig → PreTrade → Result DecimalError Verdict
unfolding pre_trade_checks
evaluate_pre_trade py config t = do checks ← pre_trade_checks py config t; ok (first_refusal checks)
