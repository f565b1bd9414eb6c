-- ===== src/Execution/Permits.antt =====
-- The dispatch permits of `DispatchAuthority` in src/quantdesk/execution/router.py. What a call reads
-- of the stores, and the checks of `decode` and `_check`, are inputs of the call.
pub mod Once
mod Tests
use rs_quant.Base.{
  ℕ, ◌+◌, ◌≡◌, Bool, true, false, not, ◌&&◌, ◌||◌, Option, none, some, List, [], ◌∷◌, ◌==◌, Result,
  ok, raise, ◌>>=◌, ◌>>◌, raise_if, or_raise, if◌then◌else◌,
}
use rs_quant.Base.Dict.{Dict, lookup, insert, erase}
use rs_quant.Core.Types.{Ident}
use rs_quant.Execution.OrderState.{GatewayInstruction}

pub record GatewayPolicy : Type 0 where
  pub risk_version : Ident
  pub latch_version : Ident
  pub entries_allowed : Bool
  pub reconciled : Bool
  pub recovery_reductions_allowed : Bool

-- A row of the outbox, with the digest of its payload.
pub record DispatchRow : Type 0 where
  pub instruction_id : Ident
  pub payload_hash : Ident
  pub risk_version : Ident
  pub fence_epoch : Ident
  pub expires_at : ℕ

-- A permit; `object` tells equal permits apart, as Python's `is` does.
pub record DispatchPermit : Type 0 where
  pub object : ℕ
  pub instruction_id : Ident
  pub instruction_hash : Ident
  pub expires_at_ns : ℕ
  pub risk_version : Ident
  pub latch_version : Ident
  pub fence_epoch : Ident
  pub attempt_id : Ident

pub record Authority : Type 0 where
  pub issued : Dict DispatchPermit
  pub unsent : Dict DispatchPermit
  pub ordinal : ℕ

pub data OutboxStatus : Type 0 where
  pending unknown resolved : OutboxStatus

pub data DispatchError : Type 0 where
  refused_check not_committed already_consumed commit_failed unissued_permit permit_mismatch :
      DispatchError
  latch_changed unowned_handoff sent_or_unowned : DispatchError

-- What a call reads: the decoded row, the policy if `_check` passes, the row's status when it is first
-- and last read (none: it is not committed, or its body changed), and whether the fact is committed.
pub record Readings : Type 0 where
  pub decoded : Result DispatchError GatewayInstruction
  pub checked : Result DispatchError GatewayPolicy
  pub status : Option OutboxStatus
  pub status_after : Option OutboxStatus
  pub commits : Bool

abbrev pub new_authority : Authority
new_authority = record { issued = []; unsent = []; ordinal = 0 }

abbrev is_pending : OutboxStatus → Bool
is_pending pending = true
is_pending _ = false

abbrev is_unknown : OutboxStatus → Bool
is_unknown unknown = true
is_unknown _ = false

-- `_durable`
abbrev pub durable : (OutboxStatus → Bool) → Option OutboxStatus → Result DispatchError (Unit {0})
durable expected none = raise not_committed
durable expected (some s) = raise_if (not (expected s)) already_consumed

abbrev pub is_same : DispatchPermit → Option DispatchPermit → Bool
is_same p none = false
is_same p (some q) = p.object == q.object

-- What stands before the ordinal is taken.
abbrev pub may_grant : Readings → Result DispatchError GatewayPolicy
may_grant r = do instruction ← r.decoded; durable is_pending r.status; r.checked

abbrev pub minted : (ℕ → Ident → Ident) → ℕ → DispatchRow → GatewayPolicy → DispatchPermit
minted attempt_of n row policy = record {
  object = n;
  instruction_id = row.instruction_id;
  instruction_hash = row.payload_hash;
  expires_at_ns = row.expires_at;
  risk_version = policy.risk_version;
  latch_version = policy.latch_version;
  fence_epoch = row.fence_epoch;
  attempt_id = attempt_of n row.instruction_id;
}

-- The rest of `grant`, after the ordinal was taken.
abbrev pub issue :
    DispatchPermit
    → Result DispatchError (Unit {0})
    → Authority
    → Authority × Result DispatchError DispatchPermit
issue p (raise e) s = (s, raise e)
issue p (ok u) s = (
  record s { issued = insert p.attempt_id p s.issued; unsent = insert p.attempt_id p s.unsent },
  ok p,
)

abbrev pub grant_allowed :
    (ℕ → Ident → Ident)
    → Readings
    → DispatchRow
    → Result DispatchError GatewayPolicy
    → Authority
    → Authority × Result DispatchError DispatchPermit
grant_allowed attempt_of r row (raise e) s = (s, raise e)
grant_allowed attempt_of r row (ok policy) s =
    issue (minted attempt_of (s.ordinal + 1) row policy)
      (raise_if (not r.commits) commit_failed >> durable is_unknown r.status_after)
      (record s { ordinal = s.ordinal + 1 })

unfoldable pub grant :
    (ℕ → Ident → Ident)
    → Readings
    → DispatchRow
    → Authority
    → Authority × Result DispatchError DispatchPermit
grant attempt_of r row s = grant_allowed attempt_of r row (may_grant r) s

abbrev pub permit_matches : DispatchPermit → DispatchRow → Bool
permit_matches p row =
    p.instruction_id == row.instruction_id
    && p.instruction_hash == row.payload_hash
    && p.expires_at_ns == row.expires_at
    && p.risk_version == row.risk_version
    && p.fence_epoch == row.fence_epoch

-- The permit is taken out before anything is checked.
unfoldable pub consume :
    Readings
    → DispatchPermit
    → DispatchRow
    → Authority
    → Authority × Result DispatchError GatewayInstruction
consume r p row s = (
  record s { issued = erase p.attempt_id s.issued },
  (do
    raise_if (not (is_same p (lookup p.attempt_id s.issued))) unissued_permit
    raise_if (not (permit_matches p row)) permit_mismatch
    instruction ← r.decoded
    policy ← r.checked
    raise_if (not (policy.latch_version == p.latch_version)) latch_changed
    durable is_unknown r.status
    ok instruction),
)

unfoldable pub handoff_started :
    DispatchPermit → Authority → Authority × Result DispatchError (Unit {0})
handoff_started p s = (
  record s { unsent = erase p.attempt_id s.unsent },
  raise_if (not (is_same p (lookup p.attempt_id s.unsent))) unowned_handoff,
)

-- The fact UnsentAborted is committed.
abbrev commit_abort : Readings → Result DispatchError (Unit {0})
commit_abort r = do instruction ← r.decoded; raise_if (not r.commits) commit_failed

abbrev abort_permit : Readings → Option OutboxStatus → Result DispatchError (Unit {0})
abort_permit r none = raise not_committed
abort_permit r (some s) =
    if is_unknown s then durable is_unknown r.status_after >> commit_abort r else ok tt

-- A permit is taken out, and its issue too if it may still be aborted.
abbrev pub abort_taken :
    Bool
    → DispatchPermit
    → Result DispatchError (Unit {0})
    → Authority
    → Authority × Result DispatchError (Unit {0})
abort_taken true p done s =
    (record s { unsent = erase p.attempt_id s.unsent; issued = erase p.attempt_id s.issued }, done)
abort_taken false p done s =
    (record s { unsent = erase p.attempt_id s.unsent }, raise sent_or_unowned)

unfoldable pub abort_unsent :
    Readings
    → DispatchRow
    → Option DispatchPermit
    → Authority
    → Authority × Result DispatchError (Unit {0})
abort_unsent r row none s = (s, durable is_pending r.status >> commit_abort r)
abort_unsent r row (some p) s =
    abort_taken
      (is_same p (lookup p.attempt_id s.unsent)
        && p.instruction_id == row.instruction_id
        && p.instruction_hash == row.payload_hash)
      p (abort_permit r r.status) s
