-- ===== src/Execution/Oms/Apply.antt =====
-- `OMS.apply`: the scope check, the branch of the payload, the links and the publication.
use rs_quant.Base.{
  Bool, Option, none, some, List, [], ◌∷◌, ◌==◌, eq_opt, ◌&&◌, not, Result, ok, raise, raise_if,
  ◌>>=◌, ◌>>◌,
}
use rs_quant.Core.Types.{Ident}
use rs_quant.Execution.OrderState.{OmsState}
use rs_quant.Execution.Intents.{
  Envelope, Payload, cancel_attempt_observed, financial_event_observed, execution_report,
  order_report, submit_transport_result, cancel_requested, cancel_transport_result,
  dispatch_started, unsent_aborted,
}
use rs_quant.Execution.Oms.Same.{Externals, OmsError, account_scope_changed}
use rs_quant.Execution.Oms.Link.{link_and_project}
use rs_quant.Execution.Oms.Reports.{Outcome, returned, candidate, execution_branch, report_branch}
use rs_quant.Execution.Oms.Commands.{
  submit_branch, cancel_branch, cancel_result_branch, dispatch_branch, abort_branch,
}
use rs_quant.Execution.Oms.Change.{OmsChange, no_change, change}

abbrev pub in_scope : Envelope → OmsState → Bool
in_scope e st =
    e.venue == st.venue && e.environment == st.environment && eq_opt e.account_id (some st.account)

module _ (py : Externals) where
  unfoldable pub branch : Payload → Option Ident → OmsState → Result OmsError Outcome
  branch (cancel_attempt_observed i r) instrument st = cancel_result_branch (some i) r st
  branch (financial_event_observed p aliases) instrument st =
      execution_branch py p aliases instrument st
  branch (execution_report p) instrument st = execution_branch py p [] instrument st
  branch (order_report p) instrument st = report_branch py p instrument st
  branch (submit_transport_result p) instrument st = submit_branch py p st
  branch (cancel_requested p) instrument st = cancel_branch p st
  branch (cancel_transport_result p) instrument st = cancel_result_branch none p st
  branch (dispatch_started i attempt) instrument st = dispatch_branch i attempt st
  branch (unsent_aborted i reason) instrument st = abort_branch i reason st
  branch Payload.other instrument st = ok (returned st)

  -- what follows the branch
  unfoldable pub finish : Envelope → OmsState → Outcome → Result OmsError OmsChange
  finish e st (returned next) = ok (no_change next)
  finish e st (candidate next) = do
    linked ← link_and_project py next
    ok (change py st linked (some e))

  unfoldable pub apply : Envelope → OmsState → Result OmsError OmsChange
  unfolding branch finish
  apply e st = do
    raise_if (not (in_scope e st)) account_scope_changed
    outcome ← branch e.payload e.instrument_id st
    finish e st outcome

  -- the writer keeps its state where an event raises
  abbrev pub after : OmsState → Result OmsError OmsChange → OmsState
  after st (ok c) = c.state
  after st (raise e) = st

  -- a sequence of events
  unfoldable pub run : List Envelope → OmsState → OmsState
  unfolding apply
  run [] st = st
  run (e ∷ es) st = run es (after st (apply e st))
