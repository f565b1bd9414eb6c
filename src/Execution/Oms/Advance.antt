-- ===== src/Execution/Oms/Advance.antt =====
-- `OMS.apply` keeps the orders under their identities and only advances them, on every branch and
-- along every sequence of events.
mod Rules
mod Reports
mod Commands
mod Loops
use rs_quant.Base.{
  Option, none, some, List, [], ◌∷◌, ◌≡◌, refl, arith, Result, ok, raise, ◌>>=◌, raise_if, not,
}
use rs_quant.Core.Types.{Ident}
use rs_quant.Execution.OrderState.{OrderState, OmsState}
use rs_quant.Execution.Intents.{
  Envelope, Payload, cancel_attempt_observed, financial_event_observed, execution_report,
  order_report, submit_transport_result, cancel_requested, cancel_transport_result,
  dispatch_started, unsent_aborted,
}
use rs_quant.Execution.Oms.Same.{Externals, OmsError, account_scope_changed}
use rs_quant.Execution.Oms.Link.{link_and_project}
use rs_quant.Execution.Oms.Reports.{Outcome, returned, candidate}
use rs_quant.Execution.Oms.Change.{OmsChange, no_change, change}
use rs_quant.Execution.Oms.Apply.{in_scope, branch, finish, apply, after, run}
use rs_quant.Execution.Oms.Orders.{HasKeys, Evolves, Evolves-refl}
use rs_quant.Execution.Oms.Ensures.{Ensures, Ensures->>=, Ensures-guard, of_Ensures, state_of}
use Rules.{Kept, KeptBy}
use Reports.{execution_branch-Kept, report_branch-Kept}
use Commands.{
  submit_branch-Kept, cancel_branch-Kept, cancel_result_branch-Kept, dispatch_branch-Kept,
  abort_branch-Kept,
}
use Loops.{Kept-trans, link_and_project-Kept, change-Kept}

module _ (py : Externals) where
  branch-Kept :
      (p : Payload) (i : Option Ident) (st : OmsState)
      → HasKeys st.orders
      → Ensures (KeptBy st) (branch py p i st)
  unfolding branch
  branch-Kept (cancel_attempt_observed a r) i st h = cancel_result_branch-Kept (some a) r st h
  branch-Kept (financial_event_observed p aliases) i st h =
      execution_branch-Kept py p aliases i st h
  branch-Kept (execution_report p) i st h = execution_branch-Kept py p [] i st h
  branch-Kept (order_report p) i st h = report_branch-Kept py p i st h
  branch-Kept (submit_transport_result p) i st h = submit_branch-Kept py p st h
  branch-Kept (cancel_requested p) i st h = cancel_branch-Kept p st h
  branch-Kept (cancel_transport_result p) i st h = cancel_result_branch-Kept none p st h
  branch-Kept (dispatch_started a t) i st h = dispatch_branch-Kept a t st h
  branch-Kept (unsent_aborted a r) i st h = abort_branch-Kept a r st h
  branch-Kept Payload.other i st h = (h, Evolves-refl st.orders)

  finish-Kept :
      (e : Envelope) (st : OmsState) (out : Outcome)
      → KeptBy st out
      → Ensures (λ c. Kept st c.state) (finish py e st out)
  unfolding finish
  finish-Kept e st (returned next) k = k
  finish-Kept e st (candidate next) k =
      Ensures->>= (λ c. Kept st c.state) (link_and_project py next) _
        (λ linked el.
          let kl = of_Ensures (Kept next) (link_and_project-Kept py next k.0) el in
          Kept-trans st linked (change py st linked (some e)).state (Kept-trans st next linked k kl)
            (change-Kept py st linked (some e) kl.0))

  pub apply-Kept :
      (e : Envelope) (st : OmsState)
      → HasKeys st.orders
      → Ensures (λ c. Kept st c.state) (apply py e st)
  unfolding apply
  apply-Kept e st h =
      Ensures-guard (λ c. Kept st c.state) (raise_if (not (in_scope e st)) account_scope_changed)
        (branch py e.payload e.instrument_id st >>= _)
        (Ensures->>= (λ c. Kept st c.state) (branch py e.payload e.instrument_id st) _
          (λ out eo.
            finish-Kept e st out
              (of_Ensures (KeptBy st) (branch-Kept e.payload e.instrument_id st h) eo)))

  after-Kept :
      (st : OmsState) (r : Result OmsError OmsChange)
      → HasKeys st.orders
      → Ensures (λ c. Kept st c.state) r
      → Kept st (after py st r)
  after-Kept st (ok c) h k = k
  after-Kept st (raise e) h k = (h, Evolves-refl st.orders)

  -- From orders whose identities rise strictly, along any sequence of events, those that raise
  -- included, every order stays among the orders
  -- under its client identity with its instruction and reserves; a known venue identity is never
  -- replaced, an ended lifecycle never becomes live again, the reported fills never fall, and a
  -- started transport stays started. The identities of the orders rise strictly throughout.
  pub run-Evolves :
      (es : List Envelope) (st : OmsState)
      → HasKeys st.orders
      → HasKeys (run py es st).orders × Evolves st.orders (run py es st).orders
  unfolding run
  run-Evolves [] st h = (h, Evolves-refl st.orders)
  run-Evolves (e ∷ es) st h =
      let next = after py st (apply py e st) in
      let kept = after-Kept st (apply py e st) h (apply-Kept e st h) in
      Kept-trans st next (run py es next) kept (run-Evolves es next kept.0)
