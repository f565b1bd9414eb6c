-- ===== src/Execution/Oms/Dispatch/Reports.antt =====
-- Executions and order reports leave a used instruction used.
use rs_quant.Base.{
  Bool, Option, none, some, List, ◌∷◌, ok, ◌>>=◌, or_raise, raise_if, not, if_both, keep,
}
use rs_quant.Base.Sort.{sorted_set}
use rs_quant.Core.Types.{Ident, ExecutionReport, same_side}
use rs_quant.Execution.OrderState.{OrderState, OmsState, client_id, is_terminal}
use rs_quant.Execution.Intents.{OrderReport}
use rs_quant.Execution.Oms.Same.{
  Externals, invalid_lifecycle, local_created_state, not_an_instrument_trade,
}
use rs_quant.Execution.Oms.Lookup.{find_order, put_order}
use rs_quant.Execution.Oms.Reports.{
  Outcome, candidate, note_side, observe_order, observe_execution, store_execution, check_execution,
  apply_execution, execution_branch, reported_client, shares_identity, is_trade, is_created,
  report_known, report_branch, reported_order,
}
use rs_quant.Execution.Oms.Ensures.{Ensures, Ensures->>=, Ensures-guard, of_Ensures, state_of}
use rs_quant.Execution.Oms.Dispatch.Used.{IsUsed, resolve_command-IsUsed}

module _ (i : Ident) where
  abbrev UsedBy : Outcome → Type 0
  UsedBy out = IsUsed i (state_of out).commands

  abbrev UsedIn : OmsState → Type 0
  UsedIn st = IsUsed i st.commands

  note_side-IsUsed :
      (p : ExecutionReport) (st : OmsState) (o : OrderState) → UsedIn st → UsedIn (note_side p st o)
  unfolding note_side
  note_side-IsUsed p st o u =
      if_both UsedIn (same_side o.instruction.side p.side) st (record st { incidents = _ }) u u

  observe_execution-IsUsed :
      (p : ExecutionReport) (st : OmsState) (found : Option OrderState)
      → UsedIn st
      → UsedIn (observe_execution p st found)
  unfolding observe_execution put_order
  observe_execution-IsUsed p st none u = u
  observe_execution-IsUsed p st (some o) u =
      resolve_command-IsUsed i (client_id o) Bool.false
        (put_order (note_side p st o) (observe_order p o)) (note_side-IsUsed p st o u)

  report_known-IsUsed :
      (p : OrderReport) (st : OmsState) (o : OrderState)
      → UsedIn st
      → Ensures UsedBy (report_known p st o)
  unfolding report_known put_order
  report_known-IsUsed p st o u =
      Ensures->>= UsedBy (or_raise p.lifecycle invalid_lifecycle) _ (λ reported _.
        let next = reported_order p reported o in
        Ensures-guard UsedBy (raise_if (is_created reported) local_created_state) (ok _) (
          resolve_command-IsUsed i p.client_order_id (is_terminal next.lifecycle)
            (put_order st next) u))

  module _ (py : Externals) where
    apply_execution-IsUsed :
        (p : ExecutionReport) (aliases : List Ident) (instrument : Ident) (st : OmsState)
        → UsedIn st
        → Ensures UsedIn (apply_execution py p aliases instrument st)
    unfolding apply_execution store_execution
    apply_execution-IsUsed p aliases instrument st u =
        let ids = sorted_set (p.native_execution_id ∷ aliases) in
        Ensures->>= UsedIn (find_order py st p.client_order_id p.venue_order_id (some instrument)) _
          (λ found _.
            let client = reported_client py p found in
            Ensures-guard UsedIn
              (check_execution py p client (keep (shares_identity instrument ids) st.executions))
              (ok _)
              (observe_execution-IsUsed p (store_execution py p ids instrument client st) found u))

    pub execution_branch-IsUsed :
        (p : ExecutionReport) (aliases : List Ident) (instrument : Option Ident) (st : OmsState)
        → UsedIn st
        → Ensures UsedBy (execution_branch py p aliases instrument st)
    unfolding execution_branch
    execution_branch-IsUsed p aliases none st u = tt
    execution_branch-IsUsed p aliases (some instrument) st u =
        Ensures-guard UsedBy (raise_if (not (is_trade p.execution_type)) not_an_instrument_trade)
          (apply_execution py p aliases instrument st >>= λ next. ok (candidate next))
          (Ensures->>= UsedBy (apply_execution py p aliases instrument st) _
            (λ next e. of_Ensures UsedIn (apply_execution-IsUsed p aliases instrument st u) e))

    pub report_branch-IsUsed :
        (p : OrderReport) (instrument : Option Ident) (st : OmsState)
        → UsedIn st
        → Ensures UsedBy (report_branch py p instrument st)
    unfolding report_branch
    report_branch-IsUsed p instrument st u =
        Ensures->>= UsedBy (find_order py st (some p.client_order_id) p.venue_order_id instrument) _
          (elim [ none ↦ λ _. u | some o ↦ λ _. report_known-IsUsed p st o u ])
