-- ===== src/Execution/Oms/Link.antt =====
-- `_link_and_project`: every execution is linked to its order, and every order's fills, lifecycle,
-- pending action and knowledge are derived again.
use rs_quant.Base.{
  ℕ, ◌+◌, Bool, true, false, Option, none, some, List, [], ◌∷◌, max, ◌==◌, leb, ltb, eq_opt, any,
  keep, ◌&&◌, ◌||◌, not, if◌then◌else◌, Result, ok, ◌>>=◌,
}
use rs_quant.Base.Sort.{sorted_set}
use rs_quant.Execution.OrderState.{
  Lifecycle, is_terminal, is_filled, PendingAction, idle, submit, cancel, Knowledge, confirmed,
  uncertain, reconciling, OrderState, OmsState, ExecutionIdentity, CommandState, CommandStatus,
  client_id, command_client, is_order, is_unsettled, order_overfilled,
}
use rs_quant.Execution.Oms.Same.{Externals, OmsError}
use rs_quant.Execution.Oms.Lookup.{find_order, put_order, resolve_command}

abbrev pub link_to : ExecutionIdentity → Option OrderState → ExecutionIdentity
link_to e none = e
link_to e (some o) = record e { client_order_id = some (client_id o) }

module _ (py : Externals) where
  unfoldable pub link_executions :
      OmsState → List ExecutionIdentity → Result OmsError (List ExecutionIdentity)
  link_executions st [] = ok []
  link_executions st (e ∷ es) = do
    found ← find_order py st e.client_order_id e.venue_order_id (some e.instrument_id)
    rest ← link_executions st es
    ok (link_to e found ∷ rest)

abbrev pub is_fill_of : OrderState → ExecutionIdentity → Bool
is_fill_of o e =
    eq_opt e.client_order_id (some (client_id o)) && e.instrument_id == o.instruction.instrument_id

-- the lots of the executions that are linked to the order
unfoldable pub accounted_lots : List ExecutionIdentity → OrderState → ℕ
accounted_lots [] o = 0
accounted_lots (e ∷ es) o = (if is_fill_of o e then e.lots else 0) + accounted_lots es o

unfoldable pub projected_status : ℕ → OrderState → Lifecycle
projected_status accounted o =
    if leb o.instruction.quantity_lots accounted
    then Lifecycle.filled
    else if ltb 0 accounted && not (is_terminal o.lifecycle)
    then Lifecycle.partially_filled
    else o.lifecycle

abbrev pub is_open_command : OrderState → CommandState → Bool
is_open_command o c = command_client c == client_id o && is_unsettled c.status

abbrev pub is_unknown : CommandState → Bool
is_unknown c = elim c.status [ CommandStatus.unknown ↦ true | _ ↦ false ]

-- more lots are reported, or implied by FILLED, than are accounted
abbrev pub is_behind : ℕ → Lifecycle → OrderState → Bool
is_behind accounted status o =
    ltb accounted
      (max o.reported_fill_lots (if is_filled status then o.instruction.quantity_lots else 0))

abbrev pub is_overfilled : ℕ → OrderState → Bool
is_overfilled accounted o = ltb o.instruction.quantity_lots (max accounted o.reported_fill_lots)

unfoldable pub projected_knowledge : List CommandState → ℕ → Lifecycle → OrderState → Knowledge
projected_knowledge unresolved accounted status o =
    if is_behind accounted status o || is_overfilled accounted o
    then reconciling
    else if any is_unknown unresolved
    then uncertain
    else confirmed

abbrev pub is_nonempty {ℓ} : {A : Type ℓ} → List A → Bool
is_nonempty [] = false
is_nonempty (x ∷ xs) = true

unfoldable pub projected_pending : List CommandState → Lifecycle → PendingAction
projected_pending unresolved status =
    if is_terminal status
    then idle
    else if any (λ c. not (is_order c.instruction)) unresolved
    then cancel
    else if is_nonempty unresolved
    then submit
    else idle

unfoldable pub projected : List CommandState → ℕ → OrderState → OrderState
unfolding projected_status projected_knowledge projected_pending
projected commands accounted o =
    let status = projected_status accounted o in
    let unresolved = keep (is_open_command o) commands in
    record o {
      accounted_fill_lots = accounted;
      lifecycle = status;
      knowledge = projected_knowledge unresolved accounted status o;
      pending = projected_pending unresolved status;
    }

-- the commands and the incidents that one order leaves
unfoldable pub settle : ℕ → OmsState → OrderState → OmsState
unfolding resolve_command
settle accounted st o =
    let done =
      if leb o.instruction.quantity_lots accounted
      then resolve_command st (client_id o) true
      else st in
    if is_overfilled accounted o
    then record done { incidents = sorted_set (order_overfilled ∷ done.incidents) }
    else done

-- one round of the loop over the orders
unfoldable pub project_order : List ExecutionIdentity → OmsState → OrderState → OmsState
unfolding settle put_order projected
project_order es st o =
    let accounted = accounted_lots es o in
    let done = settle accounted st o in put_order done (projected done.commands accounted o)

unfoldable pub project_orders : List ExecutionIdentity → OmsState → List OrderState → OmsState
unfolding project_order
project_orders es st [] = st
project_orders es st (o ∷ os) = project_orders es (project_order es st o) os

module _ (py : Externals) where
  unfoldable pub link_and_project : OmsState → Result OmsError OmsState
  unfolding link_executions project_orders
  link_and_project st = do
    es ← link_executions py st st.executions
    let linked : OmsState = record st { executions = es }
    ok (project_orders es linked linked.orders)
