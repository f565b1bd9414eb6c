-- ===== src/Execution/Oms/Dispatch.antt =====
-- A dispatch claim consumes its instruction for good: no sequence of events makes it pending again,
-- so it is never claimed twice.
mod Used
mod Branches
mod Reports
use rs_quant.Base.{
  Bool, true, false, Option, none, some, List, [], ◌∷◌, ◌≡◌, ◌≢◌, ◌∙◌, refl, sym, arith, Result, ok,
  raise, ◌>>=◌, or_raise, raise_if, not, if◌then◌else◌, find, ◌&&◌, ◌||◌, ◌==◌, any,
}
use mathlib.Core.Path.{subst}
use rs_quant.Core.Types.{Ident, truthy}
use rs_quant.Execution.OrderState.{
  OrderState, OmsState, CommandState, CommandStatus, command_id, command_client, uncertain,
}
use rs_quant.Execution.Intents.{
  Envelope, Payload, cancel_attempt_observed, financial_event_observed, execution_report,
  order_report, submit_transport_result, cancel_requested, cancel_transport_result,
  dispatch_started, unsent_aborted,
}
use rs_quant.Portfolio.State.{ReservationChanged}
use rs_quant.Execution.Oms.Same.{
  Externals, OmsError, account_scope_changed, dispatch_retry, same_order, stop_iteration,
}
use rs_quant.Execution.Oms.Lookup.{put_order, command_status}
use rs_quant.Execution.Oms.Link.{link_executions, link_and_project}
use rs_quant.Execution.Oms.Reports.{Outcome, returned, candidate}
use rs_quant.Execution.Oms.Commands.{dispatch_branch, find_command, order_of, is_pending}
use rs_quant.Execution.Oms.Change.{OmsChange, revise_with, revise_order, revise_orders, change}
use rs_quant.Execution.Oms.Apply.{in_scope, branch, finish, apply, after, run}
use rs_quant.Execution.Oms.Ensures.{Ensures, Ensures->>=, Ensures-guard, of_Ensures, state_of}
use Used.{IsUsed, known, waits, project_orders-IsUsed}
use Branches.{
  dispatch_branch-IsUsed, submit_branch-IsUsed, cancel_branch-IsUsed, cancel_result_branch-IsUsed,
  abort_branch-IsUsed, command_status-spends,
}
use Reports.{execution_branch-IsUsed, report_branch-IsUsed}

module _ (py : Externals) where
  revise_with-commands :
      (old : Option OrderState) (o : OrderState) (st : OmsState)
      → (revise_with py old o st).0.commands ≡ st.commands
  unfolding revise_with
  revise_with-commands none o st = refl
  revise_with-commands (some old) o st = ground arith

  revise_orders-commands :
      (before os : List OrderState) (st : OmsState)
      → (revise_orders py before os st).0.commands ≡ st.commands
  unfolding revise_orders revise_order
  revise_orders-commands before [] st = refl
  revise_orders-commands before (o ∷ os) st =
      revise_orders-commands before os (revise_order py before o st).0 ∙ revise_with-commands _ o st

  module _ (i : Ident) where
    abbrev UsedBy : Outcome → Type 0
    UsedBy out = IsUsed i (state_of out).commands

    abbrev UsedIn : OmsState → Type 0
    UsedIn st = IsUsed i st.commands

    abbrev UsedAfter : OmsChange → Type 0
    UsedAfter c = UsedIn c.state

    branch-IsUsed :
        (p : Payload) (instrument : Option Ident) (st : OmsState)
        → UsedIn st
        → Ensures UsedBy (branch py p instrument st)
    unfolding branch
    branch-IsUsed (cancel_attempt_observed a r) k st u =
        cancel_result_branch-IsUsed i (some a) r st u
    branch-IsUsed (financial_event_observed p as') k st u =
        execution_branch-IsUsed i py p as' k st u
    branch-IsUsed (execution_report p) k st u = execution_branch-IsUsed i py p [] k st u
    branch-IsUsed (order_report p) k st u = report_branch-IsUsed i py p k st u
    branch-IsUsed (submit_transport_result p) k st u = submit_branch-IsUsed i py p st u
    branch-IsUsed (cancel_requested p) k st u = cancel_branch-IsUsed i p st u
    branch-IsUsed (cancel_transport_result p) k st u = cancel_result_branch-IsUsed i none p st u
    branch-IsUsed (dispatch_started j t) k st u = dispatch_branch-IsUsed i j t st u
    branch-IsUsed (unsent_aborted j r) k st u = abort_branch-IsUsed i j r st u
    branch-IsUsed Payload.other k st u = u

    link_and_project-IsUsed : (st : OmsState) → UsedIn st → Ensures UsedIn (link_and_project py st)
    unfolding link_and_project
    link_and_project-IsUsed st u =
        Ensures->>= UsedIn (link_executions py st st.executions) _
          (λ es _. project_orders-IsUsed i es (record st { executions = es }) st.orders u)

    change-IsUsed :
        (before st : OmsState) (e : Option Envelope) → UsedIn st → UsedAfter (change py before st e)
    unfolding change
    change-IsUsed before st e u =
        subst (IsUsed i) (sym (revise_orders-commands before.orders st.orders st)) u

    finish-IsUsed :
        (e : Envelope) (st : OmsState) (out : Outcome)
        → UsedBy out
        → Ensures UsedAfter (finish py e st out)
    unfolding finish
    finish-IsUsed e st (returned next) u = u
    finish-IsUsed e st (candidate next) u =
        Ensures->>= UsedAfter (link_and_project py next) _ (λ linked el.
          change-IsUsed st linked (some e) (of_Ensures UsedIn (link_and_project-IsUsed next u) el))

    apply-IsUsed : (e : Envelope) (st : OmsState) → UsedIn st → Ensures UsedAfter (apply py e st)
    unfolding apply
    apply-IsUsed e st u =
        Ensures-guard UsedAfter (raise_if (not (in_scope e st)) account_scope_changed)
          (branch py e.payload e.instrument_id st >>= _)
          (Ensures->>= UsedAfter (branch py e.payload e.instrument_id st) _ (λ out eo.
            finish-IsUsed e st out
              (of_Ensures UsedBy (branch-IsUsed e.payload e.instrument_id st u) eo)))

    after-IsUsed :
        (st : OmsState) (r : Result OmsError OmsChange)
        → UsedIn st
        → Ensures UsedAfter r
        → UsedIn (after py st r)
    after-IsUsed st (ok c) u k = k
    after-IsUsed st (raise e) u k = u

    run-IsUsed : (es : List Envelope) (st : OmsState) → UsedIn st → UsedIn (run py es st)
    unfolding run
    run-IsUsed [] st u = u
    run-IsUsed (e ∷ es) st u =
        run-IsUsed es (after py st (apply py e st))
          (after-IsUsed st (apply py e st) u (apply-IsUsed e st u))

    -- A claim that goes through uses the instruction.
    dispatch_branch-spends :
        (attempt : Ident) (st : OmsState) → Ensures UsedBy (dispatch_branch i attempt st)
    unfolding dispatch_branch put_order
    dispatch_branch-spends attempt st = Ensures->>= UsedBy (find_command i st) _ (λ c _.
        Ensures->>= UsedBy (order_of (command_client c) st) _ (λ o _.
          Ensures-guard UsedBy
            (raise_if (not (is_pending c.status) || not (truthy attempt)) dispatch_retry)
            (command_status st i CommandStatus.unknown (some attempt) >>= _)
            (Ensures->>= UsedBy (command_status st i CommandStatus.unknown (some attempt)) _
              (λ next e.
                command_status-spends st next i CommandStatus.unknown (some attempt) refl e))))

    -- The command that a search finds is not pending.
    found_used :
        (cs : List CommandState) (c : CommandState)
        → find (λ d. command_id d == i) cs ≡ some c
        → waits i cs ≡ false
        → is_pending c.status ≡ false
    found_used [] c e w = cc
    found_used (d ∷ ds) c e w = ground (arith, found_used ds c)

    find_command-found :
        (st : OmsState) (c : CommandState)
        → find_command i st ≡ ok c
        → find (λ d. command_id d == i) st.commands ≡ some c
    unfolding find_command
    find_command-found st c e = ground arith

    -- A used instruction is not claimed.
    dispatch_branch-refuses :
        (attempt : Ident) (st : OmsState)
        → UsedIn st
        → Ensures (λ (_ : Outcome). ⊥) (dispatch_branch i attempt st)
    unfolding dispatch_branch
    dispatch_branch-refuses attempt st u =
        Ensures->>= (λ _. ⊥) (find_command i st) _
          (λ c ec.
            Ensures->>= (λ _. ⊥) (order_of (command_client c) st) _
              (λ o _. rw (found_used st.commands c (find_command-found st c ec) u.1) tt))

    -- What a claim does to the state, and what becomes of a claim in a state.
    module _ (e : Envelope) (attempt : Ident) (claim : e.payload ≡ dispatch_started i attempt) where
      claim-Ensures :
          (P : Outcome → Type 0) (st : OmsState)
          → Ensures P (dispatch_branch i attempt st)
          → Ensures P (branch py e.payload e.instrument_id st)
      unfolding branch
      claim-Ensures P st h = subst (λ p. Ensures P (branch py p e.instrument_id st)) (sym claim) h

      claim-spends : (st : OmsState) → Ensures UsedAfter (apply py e st)
      unfolding apply
      claim-spends st =
          Ensures-guard UsedAfter (raise_if (not (in_scope e st)) account_scope_changed)
            (branch py e.payload e.instrument_id st >>= _)
            (Ensures->>= UsedAfter (branch py e.payload e.instrument_id st) _ (λ out eo.
              finish-IsUsed e st out (
                of_Ensures UsedBy (claim-Ensures UsedBy st (dispatch_branch-spends attempt st))
                  eo)))

      claim-refused : (st : OmsState) → UsedIn st → Ensures (λ (_ : OmsChange). ⊥) (apply py e st)
      unfolding apply
      claim-refused st u =
          Ensures-guard (λ _. ⊥) (raise_if (not (in_scope e st)) account_scope_changed)
            (branch py e.payload e.instrument_id st >>= _)
            (Ensures->>= (λ _. ⊥) (branch py e.payload e.instrument_id st) _
              (λ out eo. absurd (
                of_Ensures (λ _. ⊥)
                  (claim-Ensures (λ _. ⊥) st (dispatch_branch-refuses attempt st u)) eo)))

-- Once a dispatch claim for an instruction has gone through, no later claim for it goes through,
-- whatever events come in between, those that raise included.
pub dispatch_once :
    (py : Externals) (i a a' : Ident) (e e' : Envelope) (es : List Envelope) (st : OmsState)
    (c c' : OmsChange)
    → e.payload ≡ dispatch_started i a
    → e'.payload ≡ dispatch_started i a'
    → apply py e st ≡ ok c
    → apply py e' (run py es c.state) ≢ ok c'
dispatch_once py i a a' e e' es st c c' first second done again =
    let used = of_Ensures (UsedAfter py i) (claim-spends py i e a first st) done in
    of_Ensures (λ _. ⊥)
      (claim-refused py i e' a' second (run py es c.state) (run-IsUsed py i es c.state used)) again
