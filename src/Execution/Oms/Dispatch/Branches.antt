-- ===== src/Execution/Oms/Dispatch/Branches.antt =====
-- Every branch of `OMS.apply` leaves a used instruction used.
use rs_quant.Base.{
  Bool, true, false, Bool-cases, inl, inr, map, Option, none, some, List, ◌==◌, ◌&&◌, ◌||◌, not,
  ◌≡◌, ◌≢◌, refl, arith, ok, raise, ◌>>=◌, or_raise, raise_if, if◌then◌else◌, keep, find, is_some,
  ltb, length,
}
use mathlib.Core.Path.{subst}
use rs_quant.Core.Types.{Ident, truthy, SubmitTransportResult, CancelTransportResult}
use rs_quant.Execution.OrderState.{
  OrderState, OmsState, CommandState, CommandStatus, CancelRequested, command_id, command_client,
  client_id, is_unsettled, is_order, is_cancel, is_terminal, cancel,
}
use rs_quant.Execution.Intents.{AbortReason}
use rs_quant.Execution.Oms.Same.{
  Externals, stop_iteration, cancel_identity_reused, cancel_response_mismatch, dispatch_retry,
  unknown_outbox_instruction, cannot_abort_sent,
}
use rs_quant.Execution.Oms.Lookup.{find_order, put_order, command_status, set_status}
use rs_quant.Execution.Oms.Reports.{Outcome, returned, candidate}
use rs_quant.Execution.Oms.Commands.{
  find_command, order_of, answer_status, submit_result, submit_branch, add_command, cancel_new,
  is_same_request, cancel_branch, is_cancel_of, last_of, is_answered, cancel_answer,
  cancel_correlated, cancel_uncorrelated, cancel_result_branch, is_pending, dispatch_branch,
  is_unsent, abort_status, aborted_order, settle_cancels, abort_branch,
}
use rs_quant.Execution.Oms.Ensures.{
  Ensures, Ensures->>=, Ensures-guard, Ensures-if, of_Ensures, state_of,
}
use rs_quant.Execution.Oms.Dispatch.Used.{
  IsUsed, known, map-IsUsed, set_status-Settles, set_status-IsUsed, append-IsUsed, unknown_of_find,
  resolve_command-IsUsed,
}

answer_settles : (a r : Bool) → is_pending (answer_status a r) ≡ false
answer_settles a r = ground arith

abort_settles : (r : AbortReason) (b : Bool) → is_pending (abort_status r b) ≡ false
abort_settles AbortReason.expired b = refl
abort_settles AbortReason.canceled b = ground arith
abort_settles AbortReason.invalidated b = refl

-- A command that gets a status which is not pending is used.
pub command_status-spends :
    (st next : OmsState) (i : Ident) (s : CommandStatus) (a : Option Ident)
    → is_pending s ≡ false
    → command_status st i s a ≡ ok next
    → IsUsed i next.commands
unfolding command_status
command_status-spends st next i s a h e = elim (Bool-cases (known i st.commands)) [
  | inl k ↦
      let same : ok (record st { commands = map (set_status i s a) st.commands }) ≡ ok next =
        rw k at e in
      let reached : map (set_status i s a) st.commands ≡ next.commands = ground arith in
      subst (IsUsed i) reached (set_status-IsUsed i s a st.commands h k)
  | inr k ↦ let failed : raise unknown_outbox_instruction ≡ ok next = rw k at e in absurd (cc)
]

module _ (i : Ident) where
  abbrev UsedBy : Outcome → Type 0
  UsedBy out = IsUsed i (state_of out).commands

  abbrev UsedIn : OmsState → Type 0
  UsedIn st = IsUsed i st.commands

  command_status-IsUsed :
      (st : OmsState) (j : Ident) (s : CommandStatus) (a : Option Ident)
      → is_pending s ≡ false
      → UsedIn st
      → Ensures UsedIn (command_status st j s a)
  unfolding command_status
  command_status-IsUsed st j s a h u =
      Ensures-guard UsedIn (raise_if (not (known j st.commands)) unknown_outbox_instruction)
        (ok (record st { commands = map (set_status j s a) st.commands }))
        (map-IsUsed i (set_status j s a) st.commands (set_status-Settles j s a h) u)

  -- A status change to one that is not pending, and any update of an order.
  status_then_put-IsUsed :
      (st : OmsState) (j : Ident) (s : CommandStatus) (a : Option Ident) (o : OrderState)
      → is_pending s ≡ false
      → UsedIn st
      → Ensures UsedBy (command_status st j s a >>= λ next. ok (candidate (put_order next o)))
  unfolding put_order
  status_then_put-IsUsed st j s a o h u =
      Ensures->>= UsedBy (command_status st j s a) (λ next. ok (candidate (put_order next o)))
        (λ next e. of_Ensures UsedIn (command_status-IsUsed st j s a h u) e)

  pub dispatch_branch-IsUsed :
      (j attempt : Ident) (st : OmsState)
      → UsedIn st
      → Ensures UsedBy (dispatch_branch j attempt st)
  unfolding dispatch_branch
  dispatch_branch-IsUsed j attempt st u = Ensures->>= UsedBy (find_command j st) _ (λ c _.
      Ensures->>= UsedBy (order_of (command_client c) st) _ (λ o _.
        Ensures-guard UsedBy
          (raise_if (not (is_pending c.status) || not (truthy attempt)) dispatch_retry)
          (command_status st j CommandStatus.unknown (some attempt) >>= _)
          (status_then_put-IsUsed st j CommandStatus.unknown (some attempt) _ refl u)))

  module _ (py : Externals) where
    pub submit_branch-IsUsed :
        (p : SubmitTransportResult) (st : OmsState)
        → UsedIn st
        → Ensures UsedBy (submit_branch py p st)
    unfolding submit_branch submit_result
    submit_branch-IsUsed p st u = Ensures->>= UsedBy (find_command p.instruction_id st) _ (λ c _.
        Ensures->>= UsedBy (order_of (command_client c) st) _ (λ o _.
          Ensures->>= UsedBy
            (find_order py st (some (client_id o)) p.venue_order_id
              (some o.instruction.instrument_id))
            _
            (λ f _.
              Ensures-if UsedBy (is_unsettled c.status) (submit_result p st o) (ok (returned st))
                (status_then_put-IsUsed st p.instruction_id _ none _ (answer_settles p.accepted _)
                  u)
                u)))

  add_command-IsUsed :
      (p : CancelRequested) (st : OmsState)
      → p.instruction_id ≢ i
      → UsedIn st
      → UsedIn (add_command p st)
  unfolding add_command
  add_command-IsUsed p st n u = append-IsUsed i _ st.commands n u

  after_search :
      (p : CancelRequested) (st : OmsState) (o : OrderState) (found : Option CommandState)
      → find (λ c. command_id c == p.instruction_id) st.commands ≡ found
      → UsedIn st
      → Ensures UsedBy (elim found [
        | some c ↦ (if is_same_request p c then ok (returned st) else raise cancel_identity_reused)
        | none ↦ cancel_new p st o
      ])
  unfolding cancel_new put_order
  after_search p st o (some c) e u =
      Ensures-if UsedBy (is_same_request p c) (ok (returned st)) (raise cancel_identity_reused) u tt
  after_search p st o none e u =
      Ensures-if UsedBy (is_terminal o.lifecycle || is_cancel o.pending) (ok (returned st)) _ u (
        Ensures-if UsedBy o.transport_started
          (ok (candidate (put_order (add_command p st) (record o { pending = cancel })))) _
          (add_command-IsUsed p st (unknown_of_find i p.instruction_id st.commands e u.0) u)
          (status_then_put-IsUsed st o.instruction.instruction_id CommandStatus.canceled none _ refl
            u))

  pub cancel_branch-IsUsed :
      (p : CancelRequested) (st : OmsState) → UsedIn st → Ensures UsedBy (cancel_branch p st)
  unfolding cancel_branch
  cancel_branch-IsUsed p st u =
      Ensures->>= UsedBy (order_of p.client_order_id st) _ (λ o _.
        after_search p st o (find (λ c. command_id c == p.instruction_id) st.commands) refl u)

  cancel_answer-IsUsed :
      (p : CancelTransportResult) (st : OmsState) (o : OrderState) (attempts : List CommandState)
      → UsedIn st
      → Ensures UsedBy (cancel_answer p st o attempts)
  unfolding cancel_answer
  cancel_answer-IsUsed p st o attempts u =
      Ensures->>= UsedBy (or_raise (last_of attempts) stop_iteration) _ (λ newest _.
        status_then_put-IsUsed st (command_id newest) _ none _ (answer_settles p.accepted _) u)

  cancel_correlated-IsUsed :
      (attempt : Option Ident) (p : CancelTransportResult) (st : OmsState) (o : OrderState)
      (attempts : List CommandState)
      → UsedIn st
      → Ensures UsedBy (cancel_correlated attempt p st o attempts)
  unfolding cancel_correlated
  cancel_correlated-IsUsed none p st o attempts u = cancel_answer-IsUsed p st o attempts u
  cancel_correlated-IsUsed (some a) p st o attempts u =
      Ensures->>= UsedBy
        (or_raise (find (λ c. command_id c == a) attempts) cancel_response_mismatch) _
        (λ matched _.
          Ensures-if UsedBy (is_answered matched.status) (ok (returned st))
            (cancel_answer p st o attempts) u (cancel_answer-IsUsed p st o attempts u))

  pub cancel_result_branch-IsUsed :
      (attempt : Option Ident) (p : CancelTransportResult) (st : OmsState)
      → UsedIn st
      → Ensures UsedBy (cancel_result_branch attempt p st)
  unfolding cancel_result_branch cancel_uncorrelated
  cancel_result_branch-IsUsed attempt p st u =
      let attempts = keep (is_cancel_of p.client_order_id) st.commands in
      Ensures->>= UsedBy (order_of p.client_order_id st) _ (λ o _.
        Ensures-if UsedBy (not (is_cancel o.pending)) (ok (returned st)) _ u (
          Ensures-if UsedBy (not (is_some attempt) && ltb 1 (length attempts))
            (cancel_uncorrelated st attempts) (cancel_correlated attempt p st o attempts)
            (Ensures->>= UsedBy (or_raise (last_of attempts) stop_iteration) _ (λ newest _.
              Ensures->>= UsedBy (command_status st (command_id newest) CommandStatus.unknown none)
                _
                (λ next e.
                  of_Ensures UsedIn
                    (command_status-IsUsed st (command_id newest) CommandStatus.unknown none refl u)
                    e)))
            (cancel_correlated-IsUsed attempt p st o attempts u)))

  settle_cancels-IsUsed :
      (ordered : Bool) (client : Ident) (st : OmsState)
      → UsedIn st
      → UsedIn (settle_cancels ordered client st)
  unfolding settle_cancels
  settle_cancels-IsUsed true client st u = resolve_command-IsUsed i client true st u
  settle_cancels-IsUsed false client st u = u

  pub abort_branch-IsUsed :
      (j : Ident) (reason : AbortReason) (st : OmsState)
      → UsedIn st
      → Ensures UsedBy (abort_branch j reason st)
  unfolding abort_branch put_order
  abort_branch-IsUsed j reason st u = Ensures->>= UsedBy (find_command j st) _ (λ c _.
      Ensures->>= UsedBy (order_of (command_client c) st) _ (λ o _.
        let ordered = is_order c.instruction in
        let status = abort_status reason ordered in
        Ensures-guard UsedBy (raise_if (not (is_unsent c.status)) cannot_abort_sent)
          (command_status st j status none >>= _)
          (Ensures->>= UsedBy (command_status st j status none) _ (λ next e.
            settle_cancels-IsUsed ordered (client_id o)
              (put_order next (aborted_order reason ordered o))
              (of_Ensures UsedIn
                (command_status-IsUsed st j status none (abort_settles reason ordered) u) e)))))
