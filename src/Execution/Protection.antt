-- ===== src/Execution/Protection.antt =====
-- `ProtectionManager.evaluate` (src/quantdesk/execution/protection.py): what to do about the stop of
-- one position, from the venue's native orders.
pub mod Safety
pub mod Deadline
use rs_quant.Base.{
  ℕ, ◌+◌, ◌-◌, Bool, true, false, Option, none, some, List, [], ◌∷◌, max, ◌==◌, leb, ltb, eq_opt,
  keep, length, ◌&&◌, not, if◌then◌else◌, Result, ok, raise,
}
use rs_quant.Base.Int.{ℤ, abs, is_pos}
use rs_quant.Core.Types.{Ident}

pub record NativeProtection : Type 0 where
  pub native_id : Ident
  pub group_id : Ident
  pub quantity_lots : ℕ
  pub trigger_basis : Ident
  pub trigger_value : Ident
  pub status : Ident
  pub safe_reduce : Bool
  pub kind : Ident
  pub instrument_id : Option Ident
  pub position_side : Option Ident
  pub reduce_only : Option Bool

-- The texts that the manager compares with: "pending", "SL", "LONG" and "SHORT".
abbrev pub pending_text : Ident
pending_text = 1

abbrev pub stop_text : Ident
stop_text = 1

abbrev pub long_text : Ident
long_text = 1

abbrev pub short_text : Ident
short_text = 2

pub data ProtectionStatus : Type 0 where
  pending awaiting_flat flat blocked protected resizing exit_required restoring : ProtectionStatus
  ownership_unverified inactive_pending_protection inactive : ProtectionStatus

pub data ProtectionAction : Type 0 where
  latch_entries reconcile cancel_stop cancel_entry_remainder : ProtectionAction
  bounded_reduce_only_exit resize_stop restore_stop : ProtectionAction

pub record ProtectionState : Type 0 where
  pub group_id : Ident
  pub instrument_id : Ident
  pub desired_lots : ℕ
  pub trigger_basis : Ident
  pub trigger_value : Ident
  pub status : ProtectionStatus
  pub failure_started_ns : Option ℕ

pub record ProtectionDecision : Type 0 where
  pub state : ProtectionState
  pub actions : List ProtectionAction
  pub covered_lots : ℕ

pub data ProtectionError : Type 0 where
  clock_moved_backward : ProtectionError

-- What the manager is told besides the native orders.
pub record Observation : Type 0 where
  pub owned_lots : ℤ
  pub observed_ns : ℕ
  pub verified_flat : Bool
  pub capability_verified : Bool

abbrev pub is_leg : ProtectionState → NativeProtection → Bool
is_leg s o = o.group_id == s.group_id && o.status == pending_text

abbrev pub side_text : ℤ → Ident
side_text owned = if is_pos owned then long_text else short_text

abbrev pub is_true : Option Bool → Bool
is_true (some true) = true
is_true _ = false

abbrev pub is_nonempty {ℓ} : {A : Type ℓ} → List A → Bool
is_nonempty [] = false
is_nonempty (x ∷ xs) = true

-- `max((o.quantity_lots for o in stops), default=0)`
unfoldable pub largest : List NativeProtection → ℕ
largest [] = 0
largest (o ∷ os) = max o.quantity_lots (largest os)

-- the failure goes on since `started`
unfoldable pub uncovered :
    ℕ → ProtectionState → Observation → ℕ → ℕ → Result ProtectionError ProtectionDecision
uncovered budget s obs covered started =
    if ltb obs.observed_ns started
    then raise clock_moved_backward
    else ok (
        if leb budget (obs.observed_ns - started)
        then record {
          state = record s { status = exit_required; failure_started_ns = some started };
          actions = latch_entries ∷ cancel_entry_remainder ∷ bounded_reduce_only_exit ∷ [];
          covered_lots = covered;
        }
        else record {
          state = record s { status = restoring; failure_started_ns = some started };
          actions = latch_entries ∷ cancel_entry_remainder ∷ restore_stop ∷ [];
          covered_lots = covered;
        })

abbrev pub started_at : Option ℕ → ℕ → ℕ
started_at none now = now
started_at (some t) now = t

-- the position is flat
unfoldable pub decide_flat : ProtectionState → Observation → Bool → ℕ → ProtectionDecision
decide_flat s obs has_legs covered =
    if not obs.verified_flat
    then record {
      state = record s { status = awaiting_flat };
      actions = latch_entries ∷ reconcile ∷ [];
      covered_lots = covered;
    }
    else record {
      state = record s { status = flat; failure_started_ns = none };
      actions = if has_legs then cancel_stop ∷ reconcile ∷ [] else [];
      covered_lots = covered;
    }

-- the position is open: `stops` matching stops, the largest of `covered` lots
unfoldable pub decide_open :
    ℕ → ProtectionState → Observation → ℕ → ℕ → Result ProtectionError ProtectionDecision
unfolding uncovered
decide_open budget s obs stops covered =
    let quantity = s.desired_lots in
    if not obs.capability_verified
    then ok (record {
      state = record s { status = blocked };
      actions = latch_entries ∷ cancel_entry_remainder ∷ bounded_reduce_only_exit ∷ [];
      covered_lots = covered;
    })
    else if covered == quantity && stops == 1
    then ok (record {
      state = record s { status = protected; failure_started_ns = none };
      actions = [];
      covered_lots = covered;
    })
    else if ltb quantity covered && stops == 1
    then ok (record {
      state = record s { status = resizing };
      actions = latch_entries ∷ resize_stop ∷ [];
      covered_lots = covered;
    })
    else uncovered budget s obs covered (started_at s.failure_started_ns obs.observed_ns)

-- `Decimal(a) == Decimal(b)` of two texts
module _ (same_value : Ident → Ident → Bool) where
  unfoldable pub is_stop : ProtectionState → ℤ → NativeProtection → Bool
  is_stop s owned o =
      o.kind == stop_text
      && o.safe_reduce
      && eq_opt o.instrument_id (some s.instrument_id)
      && eq_opt o.position_side (some (side_text owned))
      && is_true o.reduce_only
      && o.trigger_basis == s.trigger_basis
      && same_value o.trigger_value s.trigger_value

  unfoldable pub matching_stops :
      ProtectionState → ℤ → List NativeProtection → List NativeProtection
  unfolding is_stop
  matching_stops s owned orders = keep (is_stop s owned) (keep (is_leg s) orders)

module _ (same_value : Ident → Ident → Bool) (budget : ℕ) where
  unfoldable pub evaluate :
      ProtectionState
      → List NativeProtection
      → Observation
      → Result ProtectionError ProtectionDecision
  unfolding matching_stops largest decide_flat decide_open
  evaluate prior orders obs =
      let stops = matching_stops same_value prior obs.owned_lots orders in
      let covered = largest stops in
      let quantity = abs obs.owned_lots in
      let s : ProtectionState = record prior { desired_lots = quantity } in
      if quantity == 0
      then ok (decide_flat s obs (is_nonempty (keep (is_leg prior) orders)) covered)
      else decide_open budget s obs (length stops) covered
