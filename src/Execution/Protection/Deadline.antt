-- ===== src/Execution/Protection/Deadline.antt =====
-- An exposure that stays uncovered is timed from its first observation, through any number of
-- reviews, and ends in an exit when the restoration budget is spent.
use rs_quant.Base.{
  ℕ, ◌-◌, ◌≤◌, ◌<◌, ◌≡◌, refl, arith, Bool, true, false, none, some, List, [], ◌∷◌, All, ap,
  All-map, ◌↔◌, length, Result, ok, ◌>>=◌, ◌&&◌, ◌==◌, leb, if◌then◌else◌, ◌∙◌,
}
use rs_quant.Base.Int.{abs}
use rs_quant.Core.Types.{Ident}
use rs_quant.Execution.Protection.{
  NativeProtection, ProtectionState, ProtectionDecision, ProtectionError, ProtectionAction,
  Observation, exit_required, restoring, latch_entries, cancel_entry_remainder,
  bounded_reduce_only_exit, restore_stop, largest, uncovered, decide_open, is_stop, matching_stops,
  evaluate, started_at,
}

abbrev exposed_state : ℕ → ProtectionState → ℕ → ℕ → ProtectionState
exposed_state budget s t now = record s {
  status = if leb budget (now - t) then exit_required else restoring;
  failure_started_ns = some t;
}

abbrev exposed_action : ℕ → ℕ → ℕ → ProtectionAction
exposed_action budget t now =
    if leb budget (now - t) then bounded_reduce_only_exit else restore_stop

-- The decision about an exposure that began at `t`.
abbrev exposed_decision : ℕ → ProtectionState → ℕ → ℕ → ℕ → ProtectionDecision
exposed_decision budget s t now covered = record {
  state = exposed_state budget s t now;
  actions = latch_entries ∷ cancel_entry_remainder ∷ exposed_action budget t now ∷ [];
  covered_lots = covered;
}

-- No single stop covers the open position.
abbrev is_short : ℕ → ℕ → ℕ → Bool
is_short quantity covered stops = leb quantity covered && stops == 1

if_false {ℓ} : {A : Type ℓ} (c : Bool) (x y : A) → c ≡ false → (if c then x else y) ≡ y
if_false c x y e = rw e refl

positive_lem : (n : ℕ) → 0 < n → (n == 0) ≡ false
positive_lem n h = ground arith

uncovered_lem :
    (budget : ℕ) (s : ProtectionState) (obs : Observation) (covered t : ℕ)
    → t ≤ obs.observed_ns
    → uncovered budget s obs covered t ≡ ok (exposed_decision budget s t obs.observed_ns covered)
unfolding uncovered
uncovered_lem budget s obs covered t l = ground arith

decide_exposed :
    (budget : ℕ) (s : ProtectionState) (obs : Observation) (t stops covered : ℕ)
    → obs.capability_verified ≡ true
    → t ≤ obs.observed_ns
    → is_short s.desired_lots covered stops ≡ false
    → started_at s.failure_started_ns obs.observed_ns ≡ t
    → decide_open budget s obs stops covered
      ≡ ok (exposed_decision budget s t obs.observed_ns covered)
unfolding decide_open
decide_exposed budget s obs t stops covered c l u b = ground arith

module _ (same_value : Ident → Ident → Bool) (budget : ℕ) where
  abbrev pub Review : Type 0
  Review = List NativeProtection × Observation

  abbrev stops_at : ProtectionState → Review → List NativeProtection
  stops_at s r = matching_stops same_value s r.1.owned_lots r.0

  -- The position is open and no single stop covers it at the review.
  pub record IsExposed (s : ProtectionState) (t : ℕ) (r : Review) : Type 0 where
    pub is_open : 0 < abs r.1.owned_lots
    pub is_capable : r.1.capability_verified ≡ true
    pub is_later : t ≤ r.1.observed_ns
    pub is_uncovered :
        is_short (abs r.1.owned_lots) (largest (stops_at s r)) (length (stops_at s r)) ≡ false

  abbrev next_decision : ProtectionState → ℕ → Review → ProtectionDecision
  next_decision s t r =
      exposed_decision budget (record s { desired_lots = abs r.1.owned_lots }) t r.1.observed_ns
        (largest (stops_at s r))

  evaluate_exposed :
      (s : ProtectionState) (t : ℕ) (r : Review)
      → IsExposed s t r
      → started_at s.failure_started_ns r.1.observed_ns ≡ t
      → evaluate same_value budget s r.0 r.1 ≡ ok (next_decision s t r)
  unfolding evaluate
  evaluate_exposed s t r e b =
      if_false (abs r.1.owned_lots == 0) _ _ (positive_lem (abs r.1.owned_lots) e.is_open)
      ∙ decide_exposed budget (record s { desired_lots = abs r.1.owned_lots }) r.1 t
          (length (stops_at s r)) (largest (stops_at s r)) e.is_capable e.is_later e.is_uncovered b

  -- A sequence of reviews, each from the state that the last one left.
  unfoldable pub follow : ProtectionState → List Review → Result ProtectionError ProtectionState
  follow s [] = ok s
  follow s (r ∷ rs) = do d ← evaluate same_value budget s r.0 r.1; follow d.state rs

  IsExposed-next :
      (s : ProtectionState) (t : ℕ) (r q : Review)
      → IsExposed s t q
      → IsExposed (next_decision s t r).state t q
  unfolding matching_stops is_stop
  IsExposed-next s t r q e = record {
    is_open = e.is_open;
    is_capable = e.is_capable;
    is_later = e.is_later;
    is_uncovered = e.is_uncovered;
  }

  follow-IsExposed :
      (s : ProtectionState) (t : ℕ) (rs : List Review)
      → s.failure_started_ns ≡ some t
      → All (IsExposed s t) rs
      → (s' : ProtectionState) × (follow s rs ≡ ok s')
        × (s'.failure_started_ns ≡ some t)
        × ((q : Review) → IsExposed s t q → IsExposed s' t q)
  unfolding follow
  follow-IsExposed s t [] b es = (s, refl, b, λ q e. e)
  follow-IsExposed s t (r ∷ rs) b es =
      let e = evaluate_exposed s t r es.0 (ap (λ o. started_at o r.1.observed_ns) b) in
      let next = (next_decision s t r).state in
      let (s', f, b', keeps) =
        follow-IsExposed next t rs refl (All-map (IsExposed-next s t r) rs es.1) in
      (
        s',
        ap (λ m. m >>= λ d. follow d.state rs) e ∙ f,
        b',
        λ q x. keeps q (IsExposed-next s t r q x),
      )

  -- An exposure that starts at a review of a healthy group and goes on through any number of later
  -- reviews: no review raises, the start of the exposure is kept, and at each further exposed review
  -- the manager demands an exit exactly when the restoration budget has passed since that first
  -- review. Every such decision latches entries and cancels what is left of an entry order, and then
  -- either exits or restores the stop.
  pub exposure_expires :
      (s : ProtectionState) (r : Review) (rs : List Review) (q : Review)
      → s.failure_started_ns ≡ none
      → All (IsExposed s r.1.observed_ns) (r ∷ rs)
      → IsExposed s r.1.observed_ns q
      → (s' : ProtectionState) × (d : ProtectionDecision) × (follow s (r ∷ rs) ≡ ok s')
        × (evaluate same_value budget s' q.0 q.1 ≡ ok d)
        × (d.state.failure_started_ns ≡ some r.1.observed_ns)
        × ((d.state.status ≡ exit_required) ↔ (budget ≤ q.1.observed_ns - r.1.observed_ns))
        × (d.actions
            ≡ latch_entries
              ∷ cancel_entry_remainder
              ∷ (if leb budget (q.1.observed_ns - r.1.observed_ns)
                  then bounded_reduce_only_exit
                  else restore_stop)
              ∷ [])
  unfolding follow
  exposure_expires s r rs q b es x =
      let t = r.1.observed_ns in
      let e = evaluate_exposed s t r es.0 (ap (λ o. started_at o t) b) in
      let next = (next_decision s t r).state in
      let (s', f, b', keeps) =
        follow-IsExposed next t rs refl (All-map (IsExposed-next s t r) rs es.1) in
      let last =
        evaluate_exposed s' t q (keeps q (IsExposed-next s t r q x))
          (ap (λ o. started_at o q.1.observed_ns) b') in
      (
        s',
        next_decision s' t q,
        ap (λ m. m >>= λ d. follow d.state rs) e ∙ f,
        last,
        refl,
        (λ h. ground arith, λ h. ground arith),
        refl,
      )
