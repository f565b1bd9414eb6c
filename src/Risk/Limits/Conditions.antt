-- ===== src/Risk/Limits/Conditions.antt =====
-- What the checks of `evaluate_pre_trade` ask for (src/quantdesk/risk/limits.py).
use rs_quant.Base.{
  ok, >>=-eq-ok, refl, ℕ, ◌+◌, ◌*◌, ◌<◌, ◌≡◌, ◌↔◌, Bool, true, false, Option, none, some, [], ◌∷◌,
  elem, All, arith, Bool-cases, inl, inr,
}
use mathlib.Core.Path.{subst}
use rs_quant.Base.Dict.{Dict}
use rs_quant.Base.Int.{ℤ, pos, ◌≤ℤ◌}
use rs_quant.Core.Types.{Decimal}
use rs_quant.Portfolio.State.{zero_decimal}
use rs_quant.Risk.Limits.{
  RiskDecimals, RiskConfig, Mode, live, other_mode, Environment, demo, sandbox, live_environment,
  unsupported, Amount, finite, not_finite, accepted, check_mode_and_account, check_latch,
  check_finite_values, check_spread, check_stale_data, check_daily_loss, check_drawdown, is_stale,
  is_invalid, exceeds_cap, at_least_zero, daily_loss, drawdown, PreTrade,
}

-- Live trading is enabled if the mode is live.
abbrev pub IsArmed : Mode → Bool → Type 0
IsArmed live enabled = enabled ≡ true
IsArmed other_mode enabled = Unit

abbrev pub IsSupported : Environment → Type 0
IsSupported unsupported = true ≡ false
IsSupported _ = Unit

-- A value that is given is finite and not negative.
abbrev pub IsValid : RiskDecimals → Option Amount → Type 0
IsValid py none = Unit
IsValid py (some (finite d)) = py.less d zero_decimal ≡ false
IsValid py (some not_finite) = true ≡ false

-- A time that is given is less than a millisecond older than the limit.
abbrev pub IsFresh : ℕ → Option ℕ → ℕ → Type 0
IsFresh now none limit = Unit
IsFresh now (some t) limit = now < t + (limit + 1) * 1000000

-- A decimal is at most a cap that is set.
abbrev pub IsWithin : RiskDecimals → Option Decimal → Decimal → Type 0
IsWithin py none d = Unit
IsWithin py (some cap) d = py.less cap d ≡ false

-- A decimal that is given is at most a limit.
abbrev pub IsAtMost : RiskDecimals → Option Decimal → Decimal → Type 0
IsAtMost py none limit = Unit
IsAtMost py (some d) limit = py.less limit d ≡ false

-- What `a` exceeds `b` by: their difference if it is above zero, and zero otherwise.
pub record IsExcess (py : RiskDecimals) (a b excess : Decimal) : Type 0 where
  pub difference : Decimal
  pub computed : py.subtract a b ≡ ok difference
  pub above : py.less zero_decimal difference ≡ true → excess ≡ difference
  pub not_above : py.less zero_decimal difference ≡ false → excess ≡ zero_decimal

module _ (py : RiskDecimals) (config : RiskConfig) where
  -- What has been lost is what the baseline and the external flow exceed the current equity by. It is
  -- within the fraction of the baseline and the cap that are set.
  pub record IsLossAllowed (baseline current flow : Decimal) : Type 0 where
    pub funded : Decimal
    pub funded_sum : py.add baseline flow ≡ ok funded
    pub loss : Decimal
    pub loss_excess : IsExcess py funded current loss
    pub fraction : Decimal
    pub fraction_quotient : py.divide loss baseline ≡ ok fraction
    pub in_fraction : py.less config.daily_loss_fraction fraction ≡ false
    pub in_cap : IsWithin py config.max_daily_loss_usdt loss

  -- What the peak exceeds the current equity by is within the fraction of the peak that is set.
  pub record IsDrawdownAllowed (peak current : Decimal) : Type 0 where
    pub fallen : Decimal
    pub fallen_excess : IsExcess py peak current fallen
    pub fraction : Decimal
    pub fraction_quotient : py.divide fallen peak ≡ ok fraction
    pub in_fraction : py.less config.peak_drawdown_fraction fraction ≡ false

  -- The conditions that `evaluate_pre_trade` checks of an intent. The stop distance, the ticks and
  -- lots, the depth, the exposures, the notional caps, the disk and the protection are separate
  -- checks, which it does not run.
  pub record IsAdmissible (t : PreTrade) : Type 0 where
    pub armed : IsArmed t.mode t.live_enabled
    pub supported : IsSupported t.environment
    pub reconciled : t.reconciled ≡ true
    pub unlatched : All (λ e. e.1 ≡ false) t.active_latches
    pub quantity : IsValid py t.desired_quantity
    pub budget : IsValid py t.risk_budget
    pub priced : IsValid py t.price
    pub new_intent : elem t.intent_id t.consumed_intents ≡ false
    pub entries : t.open_entry_orders_symbol < config.max_open_entry_orders_per_symbol
    pub orders : t.open_orders_account < config.max_open_orders_account
    pub narrow : IsAtMost py t.spread_bps config.max_spread_bps
    pub market : IsFresh t.event_available_ns t.market_data_ns config.market_data_max_age_ms
    pub mark : IsFresh t.event_available_ns t.mark_ns config.mark_max_age_ms
    pub heartbeat : IsFresh t.event_available_ns t.heartbeat_ns config.private_heartbeat_max_age_ms
    pub ingress : IsFresh t.event_available_ns t.ingress_ns config.max_ingress_age_ms
    pub clock : t.clock_offset_ms ≤ℤ pos config.max_clock_offset_ms
    pub baseline : py.less zero_decimal t.baseline_equity ≡ true
    pub losses : IsLossAllowed t.baseline_equity t.current_equity t.net_external_flow
    pub drawn_down :
        py.less zero_decimal t.peak_equity ≡ true → IsDrawdownAllowed t.peak_equity t.current_equity

  pub latch-accepted : (d : Dict Bool) → check_latch d ≡ accepted ↔ All (λ e. e.1 ≡ false) d
  unfolding check_latch
  latch-accepted [] = ground arith
  latch-accepted ((k, true) ∷ d) = ground arith
  latch-accepted ((k, false) ∷ d) = ground (arith, latch-accepted d)

  pub mode-accepted :
      (m : Mode) (l : Bool) (e : Environment)
      → check_mode_and_account m l e ≡ accepted ↔ IsArmed m l × IsSupported e
  unfolding check_mode_and_account
  mode-accepted live l unsupported = ground arith
  mode-accepted live l demo = ground arith
  mode-accepted live l sandbox = ground arith
  mode-accepted live l live_environment = ground arith
  mode-accepted other_mode l unsupported = ground arith
  mode-accepted other_mode l demo = ground arith
  mode-accepted other_mode l sandbox = ground arith
  mode-accepted other_mode l live_environment = ground arith

  IsValid-iff : (v : Option Amount) → is_invalid py v ≡ false ↔ IsValid py v
  IsValid-iff none = ground arith
  IsValid-iff (some (finite d)) = ground arith
  IsValid-iff (some not_finite) = ground arith

  IsFresh-iff :
      (now : ℕ) (time : Option ℕ) (limit : ℕ)
      → is_stale now time limit ≡ false ↔ IsFresh now time limit
  IsFresh-iff now none limit = ground arith
  IsFresh-iff now (some t) limit = (λ h. ground arith, λ h. ground arith)

  IsWithin-iff :
      (cap : Option Decimal) (d : Decimal) → exceeds_cap py cap d ≡ false ↔ IsWithin py cap d
  IsWithin-iff none d = ground arith
  IsWithin-iff (some c) d = ground arith

  pub spread-accepted :
      (s : Option Decimal)
      → check_spread py config s ≡ accepted ↔ IsAtMost py s config.max_spread_bps
  unfolding check_spread
  spread-accepted none = ground arith
  spread-accepted (some d) = ground arith

  pub stale-accepted :
      (now : ℕ) (m k h i : Option ℕ) (o : ℤ)
      → check_stale_data py config now m k h i o ≡ accepted
        ↔ IsFresh now m config.market_data_max_age_ms
          × IsFresh now k config.mark_max_age_ms
          × IsFresh now h config.private_heartbeat_max_age_ms
          × IsFresh now i config.max_ingress_age_ms
          × o ≤ℤ pos config.max_clock_offset_ms
  unfolding check_stale_data
  stale-accepted now m k h i o = ground (
    arith,
    IsFresh-iff now m config.market_data_max_age_ms,
    IsFresh-iff now k config.mark_max_age_ms,
    IsFresh-iff now h config.private_heartbeat_max_age_ms,
    IsFresh-iff now i config.max_ingress_age_ms,
  )

  pub finite-accepted :
      (a b c : Option Amount)
      → check_finite_values py a b c ≡ accepted ↔ IsValid py a × IsValid py b × IsValid py c
  unfolding check_finite_values
  finite-accepted a b c = ground (arith, IsValid-iff a, IsValid-iff b, IsValid-iff c)

  IsExcess-at_least_zero :
      (a b d : Decimal) → py.subtract a b ≡ ok d → IsExcess py a b (at_least_zero py d)
  IsExcess-at_least_zero a b d e = record {
    difference = d;
    computed = e;
    above = λ h. ground arith;
    not_above = λ h. ground arith;
  }

  -- The code's `max(0, a - b)` is the only excess.
  IsExcess-unique : {a b x : Decimal} (h : IsExcess py a b x) → at_least_zero py h.difference ≡ x
  IsExcess-unique h = elim (Bool-cases (py.less zero_decimal h.difference)) [
    | inl up ↦ ground (arith, h.above up)
    | inr down ↦ ground (arith, h.not_above down)
  ]

  daily_loss-IsExcess :
      (b c f loss : Decimal)
      → daily_loss py config b c f ≡ ok loss
      → (funded : Decimal) × (py.add b f ≡ ok funded) × IsExcess py funded c loss
  daily_loss-IsExcess b c f loss e =
      let (funded, added, e₁) = >>=-eq-ok (py.add b f) _ e in
      let (lost, left, e₂) = >>=-eq-ok (py.subtract funded c) _ e₁ in
      let same : at_least_zero py lost ≡ loss = ground arith in
      (funded, added, subst (IsExcess py funded c) same (IsExcess-at_least_zero funded c lost left))

  drawdown-IsExcess :
      (p c fallen : Decimal) → drawdown py config p c ≡ ok fallen → IsExcess py p c fallen
  drawdown-IsExcess p c fallen e =
      let (d, left, e₁) = >>=-eq-ok (py.subtract p c) _ e in
      let same : at_least_zero py d ≡ fallen = ground arith in
      subst (IsExcess py p c) same (IsExcess-at_least_zero p c d left)

  pub loss-accepted :
      (b c f : Decimal)
      → check_daily_loss py config b c f ≡ ok accepted
        ↔ (py.less zero_decimal b ≡ true) × IsLossAllowed b c f
  unfolding check_daily_loss
  loss-accepted b c f = elim (Bool-cases (py.less zero_decimal b)) [
    | inr zero ↦ (λ e. ground arith, λ h. ground arith)
    | inl positive ↦ (
      λ e.
          (let (loss, lost, e₁) = >>=-eq-ok (daily_loss py config b c f) _ (rw positive at e) in
            let (fraction, divided, e₂) = >>=-eq-ok (py.divide loss b) _ e₁ in
            let (funded, added, excess) = daily_loss-IsExcess b c f loss lost in
            (
              positive,
              record {
                funded = funded;
                funded_sum = added;
                loss = loss;
                loss_excess = excess;
                fraction = fraction;
                fraction_quotient = divided;
                in_fraction = ground arith;
                in_cap = ground (arith, IsWithin-iff config.max_daily_loss_usdt loss);
              },
            )),
      λ (p, h). rw positive (
          rw h.funded_sum (
            rw h.loss_excess.computed (
              rw (IsExcess-unique h.loss_excess) (
                rw h.fraction_quotient (
                  rw h.in_fraction
                    (rw ((IsWithin-iff config.max_daily_loss_usdt h.loss).1 h.in_cap) refl)))))),
    )
  ]

  pub drawdown-accepted :
      (p c : Decimal)
      → check_drawdown py config p c ≡ ok accepted
        ↔ (py.less zero_decimal p ≡ true → IsDrawdownAllowed p c)
  unfolding check_drawdown
  drawdown-accepted p c = elim (Bool-cases (py.less zero_decimal p)) [
    | inr zero ↦ (λ e up. ground arith, λ h. rw zero refl)
    | inl positive ↦ (
      λ e up.
          (let (fallen, left, e₁) = >>=-eq-ok (drawdown py config p c) _ (rw positive at e) in
            let (fraction, divided, e₂) = >>=-eq-ok (py.divide fallen p) _ e₁ in
            record {
              fallen = fallen;
              fallen_excess = drawdown-IsExcess p c fallen left;
              fraction = fraction;
              fraction_quotient = divided;
              in_fraction = ground arith;
            }),
      λ h.
          (let k = h positive in
            rw positive (
              rw k.fallen_excess.computed (
                rw (IsExcess-unique k.fallen_excess)
                  (rw k.fraction_quotient (rw k.in_fraction refl))))),
    )
  ]
