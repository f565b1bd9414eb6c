-- ===== src/Risk/Limits/Admission.antt =====
-- When an intent passes all pre-trade checks (`evaluate_pre_trade` of src/quantdesk/risk/limits.py).
use rs_quant.Base.{ok, >>=-eq-ok, refl, ap, ◌∙◌, ◌≡◌, ◌↔◌, true, List, [], ◌∷◌, All, arith}
use mathlib.Core.Path.{subst, ap₂}
use rs_quant.Portfolio.State.{zero_decimal}
use rs_quant.Risk.Limits.{
  RiskDecimals, RiskConfig, Verdict, accepted, refused, check_reconciliation_complete,
  check_duplicate_intent, check_order_count, check_daily_loss, check_drawdown, PreTrade,
  evaluate_pre_trade, first_refusal, pre_trade_checks, verdicts,
}
use rs_quant.Risk.Limits.Conditions.{
  IsLossAllowed, IsDrawdownAllowed, IsAdmissible, latch-accepted, mode-accepted, spread-accepted,
  stale-accepted, finite-accepted, loss-accepted, drawdown-accepted,
}

module _ (py : RiskDecimals) (config : RiskConfig) where
  refusal-accepted : (vs : List Verdict) → first_refusal vs ≡ accepted ↔ All (λ v. v ≡ accepted) vs
  refusal-accepted [] = ground arith
  refusal-accepted (accepted ∷ vs) = ground (arith, refusal-accepted vs)
  refusal-accepted (refused r ∷ vs) = ground arith

  module _ (t : PreTrade) where
    last_two :
        (loss peak : Verdict)
        → All (λ v. v ≡ accepted) (verdicts py config t loss peak)
        → (loss ≡ accepted) × (peak ≡ accepted)
    unfolding verdicts
    last_two loss peak (m, (rc, (l, (v, (i, (o, (s, (a, (d, (w, u)))))))))) = (d, w)

    verdicts-IsAdmissible :
        All (λ v. v ≡ accepted) (verdicts py config t accepted accepted)
        → IsLossAllowed py config t.baseline_equity t.current_equity t.net_external_flow
        → (py.less zero_decimal t.peak_equity ≡ true
            → IsDrawdownAllowed py config t.peak_equity t.current_equity)
        → py.less zero_decimal t.baseline_equity ≡ true
        → IsAdmissible py config t
    unfolding verdicts check_reconciliation_complete check_duplicate_intent check_order_count
    verdicts-IsAdmissible (m, (rc, (l, (v, (i, (o, (s, (a, rest)))))))) losses drawn positive =
        let mode = (mode-accepted py config t.mode t.live_enabled t.environment).0 m in
        let values = (finite-accepted py config t.desired_quantity t.risk_budget t.price).0 v in
        let fresh =
          (stale-accepted py config t.event_available_ns t.market_data_ns t.mark_ns t.heartbeat_ns
              t.ingress_ns t.clock_offset_ms).0
            a in
        record {
          armed = mode.0;
          supported = mode.1;
          reconciled = ground arith;
          unlatched = (latch-accepted py config t.active_latches).0 l;
          quantity = values.0;
          budget = values.1;
          priced = values.2;
          new_intent = ground arith;
          entries = ground arith;
          orders = ground arith;
          narrow = (spread-accepted py config t.spread_bps).0 s;
          market = fresh.0;
          mark = fresh.1;
          heartbeat = fresh.2;
          ingress = fresh.3;
          clock = fresh.4;
          baseline = positive;
          losses = losses;
          drawn_down = drawn;
        }

    IsAdmissible-verdicts :
        IsAdmissible py config t → All (λ v. v ≡ accepted) (verdicts py config t accepted accepted)
    unfolding verdicts check_reconciliation_complete check_duplicate_intent check_order_count
    IsAdmissible-verdicts h = (
      (mode-accepted py config t.mode t.live_enabled t.environment).1 (h.armed, h.supported),
      (
        ground (arith, h.reconciled),
        (
          (latch-accepted py config t.active_latches).1 h.unlatched,
          (
            (finite-accepted py config t.desired_quantity t.risk_budget t.price).1
                (h.quantity, h.budget, h.priced),
            (
              ground (arith, h.new_intent),
              (
                ground (arith, h.entries, h.orders),
                (
                  (spread-accepted py config t.spread_bps).1 h.narrow,
                  (
                    (stale-accepted py config t.event_available_ns t.market_data_ns t.mark_ns
                          t.heartbeat_ns t.ingress_ns t.clock_offset_ms).1
                        (h.market, h.mark, h.heartbeat, h.ingress, h.clock),
                    (refl, (refl, tt)),
                  ),
                ),
              ),
            ),
          ),
        ),
      ),
    )

    evaluated_to_IsAdmissible :
        evaluate_pre_trade py config t ≡ ok accepted → IsAdmissible py config t
    unfolding evaluate_pre_trade pre_trade_checks
    evaluated_to_IsAdmissible e =
        let (checks, run, e₁) = >>=-eq-ok (pre_trade_checks py config t) _ e in
        let (loss, lost, e₂) =
          >>=-eq-ok
            (check_daily_loss py config t.baseline_equity t.current_equity t.net_external_flow) _
            run in
        let (peak, fell, e₃) =
          >>=-eq-ok (check_drawdown py config t.peak_equity t.current_equity) _ e₂ in
        let passed : first_refusal (verdicts py config t loss peak) ≡ accepted = cc in
        let all' = (refusal-accepted (verdicts py config t loss peak)).0 passed in
        let (loss', peak') = last_two loss peak all' in
        let money =
          (loss-accepted py config t.baseline_equity t.current_equity t.net_external_flow).0
            (lost ∙ ap ok loss') in
        let drawn =
          (drawdown-accepted py config t.peak_equity t.current_equity).0 (fell ∙ ap ok peak') in
        let same : verdicts py config t loss peak ≡ verdicts py config t accepted accepted =
          ap₂ (verdicts py config t) loss' peak' in
        verdicts-IsAdmissible (subst (All (λ v. v ≡ accepted)) same all') money.1 drawn money.0

    IsAdmissible-evaluated : IsAdmissible py config t → evaluate_pre_trade py config t ≡ ok accepted
    unfolding evaluate_pre_trade pre_trade_checks
    IsAdmissible-evaluated h =
        let money =
          (loss-accepted py config t.baseline_equity t.current_equity t.net_external_flow).1
            (h.baseline, h.losses) in
        let peak = (drawdown-accepted py config t.peak_equity t.current_equity).1 h.drawn_down in
        let all' =
          (refusal-accepted (verdicts py config t accepted accepted)).1 (IsAdmissible-verdicts h) in
        rw money (rw peak (ap ok all'))

  -- `evaluate_pre_trade` accepts an intent exactly if the conditions that it checks hold: on the
  -- mode and environment, the reconciliation, the latches, the values given, duplicates, the counts
  -- of orders, the spread, the ages of the data and the clock; and the baseline equity is positive,
  -- what baseline and external flow exceed the current equity by is within the fraction of the
  -- baseline and the cap that limit a day's loss, and what a positive peak exceeds the current
  -- equity by is within its fraction of the peak. This arithmetic has to return: if it raises in the
  -- caller's context, the intent is not accepted.
  pub evaluate_accepted_iff :
      (t : PreTrade) → evaluate_pre_trade py config t ≡ ok accepted ↔ IsAdmissible py config t
  evaluate_accepted_iff t = (evaluated_to_IsAdmissible t, IsAdmissible-evaluated t)
