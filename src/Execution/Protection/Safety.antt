-- ===== src/Execution/Protection/Safety.antt =====
-- An open position is either covered by exactly one fitting stop, or entries are latched.
use rs_quant.Base.{ℕ, ◌<◌, ◌≡◌, ◌≢◌, ◌↔◌, arith, Bool, true, false, List, ◌∷◌, length, ok}
use rs_quant.Base.Int.{abs}
use rs_quant.Core.Types.{Ident}
use rs_quant.Execution.Protection.{
  NativeProtection, ProtectionState, ProtectionDecision, ProtectionAction, Observation, protected,
  latch_entries, largest, uncovered, decide_open, matching_stops, evaluate,
}

abbrev pub latches : List ProtectionAction → Bool
latches (latch_entries ∷ as') = true
latches _ = false

-- The decision about an open position.
decided :
    (budget : ℕ) (s : ProtectionState) (obs : Observation) (stops covered : ℕ)
    (d : ProtectionDecision)
    → 0 < s.desired_lots
    → decide_open budget s obs stops covered ≡ ok d
    → ((d.state.status ≡ protected)
        ↔ ((obs.capability_verified ≡ true) × (stops ≡ 1) × (covered ≡ s.desired_lots)))
      × (d.state.status ≢ protected → latches d.actions ≡ true)
      × (d.state.desired_lots ≡ s.desired_lots)
unfolding decide_open uncovered
decided budget s obs stops covered d q e =
    ((λ h. ground arith, λ h. ground arith), λ h. ground arith, ground arith)

module _ (same_value : Ident → Ident → Bool) (budget : ℕ) where
  -- For an open position the manager reports PROTECTED exactly when it can verify its capability and
  -- one stop alone matches, of just the position's lots; in every other decision about an open
  -- position the first action latches entries. The desired lots are the position's.
  pub evaluate_protected_iff :
      (s : ProtectionState) (orders : List NativeProtection) (obs : Observation)
      (d : ProtectionDecision)
      → 0 < abs obs.owned_lots
      → evaluate same_value budget s orders obs ≡ ok d
      → let stops = matching_stops same_value s obs.owned_lots orders in
        ((d.state.status ≡ protected) ↔ (
          (obs.capability_verified ≡ true)
          × (length stops ≡ 1)
          × (largest stops ≡ abs obs.owned_lots)))
        × (d.state.status ≢ protected → latches d.actions ≡ true)
        × (d.state.desired_lots ≡ abs obs.owned_lots)
  unfolding evaluate
  evaluate_protected_iff s orders obs d open_position e =
      decided budget (record s { desired_lots = abs obs.owned_lots }) obs (length stops)
        (largest stops) d open_position (ground arith)
    where
      stops : List NativeProtection
      stops = matching_stops same_value s obs.owned_lots orders
