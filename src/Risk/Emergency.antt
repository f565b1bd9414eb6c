-- ===== src/Risk/Emergency.antt =====
-- `Emergency` of src/quantdesk/risk/emergency.py: kill latches and the flatten workflows.
use rs_quant.Base.{
  ℕ, suc, ◌-◌, Bool, true, false, not, Option, none, some, List, Result, ok, ◌>>=◌, ◌==◌, ltb, ◌||◌,
  if◌then◌else◌, keep, or_raise,
}
use rs_quant.Base.Dict.{Dict, lookup, insert, values}
use rs_quant.Base.Int.{ℤ, abs}
use rs_quant.Core.Types.{Ident}

pub data FlattenStatus : Type 0 where
  running succeeded partial failed expired flatten_blocked : FlattenStatus

pub data ResidualReason : Type 0 where
  no_trustworthy_data venue_unavailable residual_below_minimum timeout : ResidualReason

-- The identities of latches, "kill", "soft:…" and "pause:…".
pub data LatchId : Type 0 where
  kill_latch : LatchId
  soft_latch : Ident → LatchId
  pause_latch : Ident → LatchId

-- A reason is the caller's text or "FLATTEN:…"; a version the caller's or "flatten-…".
pub data LatchText : Type 0 where
  given : Ident → LatchText
  of_flatten : Ident → LatchText

pub record RiskLatchChanged : Type 0 where
  pub latch_id : LatchId
  pub scope : Ident
  pub active : Bool
  pub reason : LatchText
  pub risk_version : LatchText

pub record FlattenState : Type 0 where
  pub workflow_id : Ident
  pub scope : Ident
  pub instrument_id : Option Ident
  pub position_lots_at_start : ℕ
  pub remaining_lots : ℕ
  pub status : FlattenStatus
  pub attempts : ℕ
  pub residual_reason : Option ResidualReason

abbrev pub is_completed : FlattenStatus → Bool
is_completed running = false
is_completed partial = false
is_completed _ = true

-- `self._flatten_workflows`
abbrev pub Emergency : Type 0
Emergency = Dict FlattenState

abbrev pub latch : LatchId → Ident → Bool → Ident → Ident → RiskLatchChanged
latch latch_id scope active reason version = record {
  latch_id = latch_id;
  scope = scope;
  active = active;
  reason = given reason;
  risk_version = given version;
}

unfoldable pub kill : Ident → LatchText → LatchText → RiskLatchChanged
kill scope reason version = record {
  latch_id = kill_latch;
  scope = scope;
  active = true;
  reason = reason;
  risk_version = version;
}

unfoldable pub reset_kill : Ident → LatchText → LatchText → RiskLatchChanged
reset_kill scope reason version = record (kill scope reason version) { active = false }

unfoldable pub soft_breaker : Ident → Ident → Ident → RiskLatchChanged
soft_breaker scope reason version = latch (soft_latch scope) scope true reason version

unfoldable pub clear_soft_breaker : Ident → Ident → Ident → RiskLatchChanged
clear_soft_breaker scope reason version = latch (soft_latch scope) scope false reason version

unfoldable pub pause_strategy : Ident → Ident → Ident → RiskLatchChanged
pause_strategy strategy reason version = latch (pause_latch strategy) strategy true reason version

unfoldable pub resume_strategy : Ident → Ident → Ident → RiskLatchChanged
resume_strategy strategy reason version = latch (pause_latch strategy) strategy false reason version

pub record FlattenRequest : Type 0 where
  pub scope : Ident
  pub workflow_id : Ident
  pub instrument_id : Option Ident
  pub position_lots : ℤ
  pub venue_available : Bool
  pub data_trustworthy : Bool

abbrev pub started : FlattenRequest → ℕ → FlattenStatus → Option ResidualReason → FlattenState
started r lots status reason = record {
  workflow_id = r.workflow_id;
  scope = r.scope;
  instrument_id = r.instrument_id;
  position_lots_at_start = lots;
  remaining_lots = lots;
  status = status;
  attempts = 0;
  residual_reason = reason;
}

unfoldable pub flatten_state : FlattenRequest → FlattenState
flatten_state r =
    if not r.venue_available || not r.data_trustworthy
    then started r (abs r.position_lots) flatten_blocked
        (some (if not r.data_trustworthy then no_trustworthy_data else venue_unavailable))
    else if abs r.position_lots == 0
    then started r 0 succeeded none
    else started r (abs r.position_lots) running none

unfoldable pub flatten : Emergency → FlattenRequest → Emergency × FlattenState × RiskLatchChanged
unfolding kill flatten_state
flatten e r = (
  insert r.workflow_id (flatten_state r) e,
  flatten_state r,
  kill r.scope (of_flatten r.workflow_id) (of_flatten r.workflow_id),
)

unfoldable pub updated : FlattenState → ℕ → ℕ → FlattenState
updated s filled_lots min_lots =
    let remaining = s.remaining_lots - filled_lots in
    if remaining == 0
    then record s { remaining_lots = 0; status = succeeded; attempts = suc s.attempts }
    else if ltb remaining min_lots
    then record s {
      remaining_lots = remaining;
      status = partial;
      attempts = suc s.attempts;
      residual_reason = some residual_below_minimum;
    }
    else record s { remaining_lots = remaining; attempts = suc s.attempts }

-- A workflow that is not there is a `KeyError`.
pub data EmergencyError : Type 0 where
  unknown_workflow : EmergencyError

unfoldable pub update_flatten :
    Emergency → Ident → ℕ → ℕ → Result EmergencyError (Emergency × FlattenState)
unfolding updated
update_flatten e workflow_id filled_lots min_lots = do
  s ← or_raise (lookup workflow_id e) unknown_workflow
  ok (insert workflow_id (updated s filled_lots min_lots) e, updated s filled_lots min_lots)

unfoldable pub timed_out : FlattenState → FlattenState
timed_out s = record s { status = expired; residual_reason = some timeout }

unfoldable pub timeout_flatten :
    Emergency → Ident → Result EmergencyError (Emergency × FlattenState)
unfolding timed_out
timeout_flatten e workflow_id = do
  s ← or_raise (lookup workflow_id e) unknown_workflow
  ok (insert workflow_id (timed_out s) e, timed_out s)

unfoldable pub active_flattens : Emergency → List FlattenState
active_flattens e = keep (λ s. not (is_completed s.status)) (values e)
