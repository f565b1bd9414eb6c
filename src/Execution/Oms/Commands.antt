-- ===== src/Execution/Oms/Commands.antt =====
-- The branches of `OMS.apply` for the commands: transport results, cancel requests, dispatch claims
-- and aborts of unsent instructions.
use rs_quant.Base.{
  Bool, true, false, Option, none, some, List, [], ◌∷◌, ◌++◌, ◌==◌, eq_opt, find, keep, length, ltb,
  ◌&&◌, ◌||◌, not, is_some, if◌then◌else◌, Result, ok, raise, raise_if, or_raise, ◌>>=◌, ◌>>◌,
}
use rs_quant.Core.Types.{Ident, truthy, or_text, SubmitTransportResult, CancelTransportResult}
use rs_quant.Execution.OrderState.{
  Lifecycle, is_terminal, idle, cancel, is_cancel, Knowledge, confirmed, uncertain, OrderState,
  OmsState, CommandState, CommandStatus, CancelRequested, order, cancel_order, client_id,
  command_id, command_client, is_order, is_unsettled, find_client,
}
use rs_quant.Execution.Intents.{AbortReason}
use rs_quant.Execution.Oms.Same.{
  Externals, OmsError, same_cancel, stop_iteration, cancel_identity_reused,
  cancel_response_mismatch, dispatch_retry, cannot_abort_sent,
}
use rs_quant.Execution.Oms.Lookup.{find_order, put_order, command_status, resolve_command}
use rs_quant.Execution.Oms.Reports.{Outcome, returned, candidate}

-- "VENUE_REJECTED"
abbrev pub venue_rejected : Ident
venue_rejected = 1

abbrev pub is_rejection : Bool → Option Ident → Bool
is_rejection accepted code = not accepted && eq_opt code (some venue_rejected)

abbrev pub answer_status : Bool → Bool → CommandStatus
answer_status accepted rejected =
    if accepted
    then CommandStatus.sent
    else if rejected
    then CommandStatus.rejected
    else CommandStatus.unknown

abbrev pub answer_knowledge : Bool → Bool → Knowledge
answer_knowledge accepted rejected = if accepted || rejected then confirmed else uncertain

unfoldable pub find_command : Ident → OmsState → Result OmsError CommandState
find_command i st = or_raise (find (λ c. command_id c == i) st.commands) stop_iteration

unfoldable pub order_of : Ident → OmsState → Result OmsError OrderState
unfolding find_client
order_of client st = or_raise (find_client client st.orders) stop_iteration

unfoldable pub submit_result :
    SubmitTransportResult → OmsState → OrderState → Result OmsError Outcome
unfolding put_order command_status
submit_result p st o = do
  let rejected = is_rejection p.accepted p.error_code
  next ← command_status st p.instruction_id (answer_status p.accepted rejected) none
  ok (
      candidate (
        put_order next (record o {
          venue_order_id = or_text p.venue_order_id o.venue_order_id;
          transport_started = true;
          knowledge = answer_knowledge p.accepted rejected;
          lifecycle = if rejected then Lifecycle.rejected else o.lifecycle;
          pending = if rejected then idle else o.pending;
        })))

module _ (py : Externals) where
  unfoldable pub submit_branch : SubmitTransportResult → OmsState → Result OmsError Outcome
  unfolding find_command order_of submit_result
  submit_branch p st = do
    command ← find_command p.instruction_id st
    o ← order_of (command_client command) st
    found ←
        find_order py st (some (client_id o)) p.venue_order_id (some o.instruction.instrument_id)
    if is_unsettled command.status then submit_result p st o else ok (returned st)

unfoldable pub add_command : CancelRequested → OmsState → OmsState
add_command p st = record st {
  commands =
      st.commands
      ++ record { instruction = cancel_order p; status = CommandStatus.pending; attempt_id = none }
        ∷ [];
}

-- the request is new and the order can still be canceled
unfoldable pub cancel_new : CancelRequested → OmsState → OrderState → Result OmsError Outcome
unfolding put_order command_status add_command
cancel_new p st o =
    if is_terminal o.lifecycle || is_cancel o.pending
    then ok (returned st)
    else if o.transport_started
    then ok (candidate (put_order (add_command p st) (record o { pending = cancel })))
    else (do
      next ← command_status st o.instruction.instruction_id CommandStatus.canceled none
      ok (candidate (put_order next (record o { lifecycle = Lifecycle.canceled; pending = idle }))))

abbrev pub is_same_request : CancelRequested → CommandState → Bool
is_same_request p c = elim c.instruction [ order i ↦ false | cancel_order q ↦ same_cancel q p ]

unfoldable pub cancel_branch : CancelRequested → OmsState → Result OmsError Outcome
unfolding order_of cancel_new same_cancel
cancel_branch p st = do
  o ← order_of p.client_order_id st
  elim (find (λ c. command_id c == p.instruction_id) st.commands) [
    | some c ↦ (if is_same_request p c then ok (returned st) else raise cancel_identity_reused)
    | none ↦ cancel_new p st o
  ]

abbrev pub is_cancel_of : Ident → CommandState → Bool
is_cancel_of client c = not (is_order c.instruction) && command_client c == client

abbrev pub last_of {ℓ} : {A : Type ℓ} → List A → Option A
last_of [] = none
last_of (x ∷ []) = some x
last_of (x ∷ y ∷ ys) = last_of (y ∷ ys)

-- `status in {"REJECTED", "RESOLVED", "EXPIRED", "BLOCKED"}`
abbrev pub is_answered : CommandStatus → Bool
is_answered CommandStatus.rejected = true
is_answered CommandStatus.resolved = true
is_answered CommandStatus.expired = true
is_answered CommandStatus.blocked = true
is_answered _ = false

-- the newest cancel request of the order takes the answer
unfoldable pub cancel_answer :
    CancelTransportResult → OmsState → OrderState → List CommandState → Result OmsError Outcome
unfolding put_order command_status
cancel_answer p st o attempts = do
  newest ← or_raise (last_of attempts) stop_iteration
  let rejected = is_rejection p.accepted p.error_code
  next ← command_status st (command_id newest) (answer_status p.accepted rejected) none
  ok (
      candidate (
        put_order next (record o {
          pending = if rejected then idle else o.pending;
          knowledge = answer_knowledge p.accepted rejected;
        })))

-- the answer names its request, or there is at most one request
unfoldable pub cancel_correlated :
    Option Ident
    → CancelTransportResult
    → OmsState
    → OrderState
    → List CommandState
    → Result OmsError Outcome
unfolding cancel_answer
cancel_correlated none p st o attempts = cancel_answer p st o attempts
cancel_correlated (some i) p st o attempts = do
  matched ← or_raise (find (λ c. command_id c == i) attempts) cancel_response_mismatch
  if is_answered matched.status then ok (returned st) else cancel_answer p st o attempts

-- no request is named and several are open: the newest one is in doubt
unfoldable pub cancel_uncorrelated : OmsState → List CommandState → Result OmsError Outcome
unfolding command_status
cancel_uncorrelated st attempts = do
  newest ← or_raise (last_of attempts) stop_iteration
  next ← command_status st (command_id newest) CommandStatus.unknown none
  ok (candidate next)

unfoldable pub cancel_attempts :
    Option Ident
    → CancelTransportResult
    → OmsState
    → OrderState
    → List CommandState
    → Result OmsError Outcome
unfolding cancel_correlated cancel_uncorrelated
cancel_attempts attempt p st o attempts =
    if not (is_cancel o.pending)
    then ok (returned st)
    else if not (is_some attempt) && ltb 1 (length attempts)
    then cancel_uncorrelated st attempts
    else cancel_correlated attempt p st o attempts

unfoldable pub cancel_result_branch :
    Option Ident → CancelTransportResult → OmsState → Result OmsError Outcome
unfolding order_of cancel_attempts
cancel_result_branch attempt p st = do
  o ← order_of p.client_order_id st
  cancel_attempts attempt p st o (keep (is_cancel_of p.client_order_id) st.commands)

abbrev pub is_pending : CommandStatus → Bool
is_pending CommandStatus.pending = true
is_pending _ = false

unfoldable pub dispatch_branch : Ident → Ident → OmsState → Result OmsError Outcome
unfolding find_command order_of put_order command_status
dispatch_branch instruction_id attempt_id st = do
  command ← find_command instruction_id st
  o ← order_of (command_client command) st
  raise_if (not (is_pending command.status) || not (truthy attempt_id)) dispatch_retry
  next ← command_status st instruction_id CommandStatus.unknown (some attempt_id)
  ok (candidate (put_order next (record o { knowledge = uncertain; transport_started = true })))

-- `status in {"PENDING", "UNKNOWN"}`
abbrev pub is_unsent : CommandStatus → Bool
is_unsent CommandStatus.pending = true
is_unsent CommandStatus.unknown = true
is_unsent _ = false

abbrev pub abort_status : AbortReason → Bool → CommandStatus
abort_status AbortReason.expired ordered = CommandStatus.expired
abort_status AbortReason.canceled ordered =
    if ordered then CommandStatus.canceled else CommandStatus.blocked
abort_status AbortReason.invalidated ordered = CommandStatus.blocked

abbrev pub abort_lifecycle : AbortReason → Lifecycle
abort_lifecycle AbortReason.expired = Lifecycle.expired
abort_lifecycle AbortReason.canceled = Lifecycle.canceled
abort_lifecycle AbortReason.invalidated = Lifecycle.rejected

abbrev pub aborted_order : AbortReason → Bool → OrderState → OrderState
aborted_order reason ordered o = record o {
  knowledge = confirmed;
  lifecycle = if ordered then abort_lifecycle reason else o.lifecycle;
  pending = idle;
}

-- an unsent submission settles the cancels that are queued behind it
unfoldable pub settle_cancels : Bool → Ident → OmsState → OmsState
unfolding resolve_command
settle_cancels ordered client st = if ordered then resolve_command st client true else st

unfoldable pub abort_branch : Ident → AbortReason → OmsState → Result OmsError Outcome
unfolding find_command order_of put_order command_status settle_cancels
abort_branch instruction_id reason st = do
  command ← find_command instruction_id st
  o ← order_of (command_client command) st
  let ordered = is_order command.instruction
  raise_if (not (is_unsent command.status)) cannot_abort_sent
  next ← command_status st instruction_id (abort_status reason ordered) none
  ok (
      candidate
        (settle_cancels ordered (client_id o) (put_order next (aborted_order reason ordered o))))
