-- ===== src/Execution/Oms/Reports.antt =====
-- The branches of `OMS.apply` for what the venue reports: executions (`_execution`) and orders.
use rs_quant.Base.{
  ℕ, Bool, true, false, Option, none, some, List, [], ◌∷◌, ◌++◌, max, ◌==◌, leb, ltb, eq_opt, any,
  keep, elem, length, ◌&&◌, ◌||◌, not, if◌then◌else◌, Result, ok, raise, raise_if, or_raise, ◌>>=◌,
  ◌>>◌,
}
use rs_quant.Base.Sort.{sorted_set, sort_with, le_tuple}
use rs_quant.Core.Types.{
  Ident, truthy_opt, or_text, same_side, ExecutionReport, ExecutionType, trade,
}
use rs_quant.Execution.OrderState.{
  Lifecycle, is_terminal, is_filled, idle, is_submit, confirmed, OrderState, OmsState,
  ExecutionIdentity, client_id, execution_side_mismatch, unknown_order,
}
use rs_quant.Execution.Intents.{OrderReport}
use rs_quant.Execution.Oms.Same.{
  Externals, OmsError, not_an_instrument_trade, aliases_join_effects, conflicting_facts,
  invalid_lifecycle, local_created_state,
}
use rs_quant.Execution.Oms.Lookup.{find_order, put_order, resolve_command}

-- Where a branch of `apply` ends: it returns the state as it is, or goes on to link it.
pub data Outcome : Type 0 where
  returned : OmsState → Outcome
  candidate : OmsState → Outcome

abbrev pub is_trade : ExecutionType → Bool
is_trade trade = true
is_trade _ = false

abbrev pub intersects : List Ident → List Ident → Bool
intersects xs ys = any (λ x. elem x ys) xs

abbrev pub shares_identity : Ident → List Ident → ExecutionIdentity → Bool
shares_identity instrument ids e = e.instrument_id == instrument && intersects e.native_ids ids

-- two texts are given and differ
abbrev pub contradicts : Option Ident → Option Ident → Bool
contradicts a b = truthy_opt a && truthy_opt b && not (eq_opt a b)

abbrev pub le_execution : ExecutionIdentity → ExecutionIdentity → Bool
le_execution a b =
    if ltb a.instrument_id b.instrument_id
    then true
    else a.instrument_id == b.instrument_id && le_tuple a.native_ids b.native_ids

abbrev pub head_of {ℓ} : {A : Type ℓ} → List A → Option A
head_of [] = none
head_of (x ∷ xs) = some x

abbrev ids_of : Option ExecutionIdentity → List Ident
ids_of none = []
ids_of (some e) = e.native_ids

abbrev client_of : Option ExecutionIdentity → Option Ident
client_of none = none
client_of (some e) = e.client_order_id

abbrev venue_order_of : Option ExecutionIdentity → Option Ident
venue_order_of none = none
venue_order_of (some e) = e.venue_order_id

module _ (py : Externals) where
  abbrev pub signature_of : ExecutionReport → Ident
  signature_of p =
      py.digest p.side p.executed_lots p.price p.fee_amount p.fee_currency p.execution_type

  -- the order that the report names, or else the identity in the report
  abbrev pub reported_client : ExecutionReport → Option OrderState → Option Ident
  reported_client p none = p.client_order_id
  reported_client p (some o) = some (client_id o)

  abbrev pub conflicts : ExecutionReport → Option Ident → Option ExecutionIdentity → Bool
  conflicts p client none = false
  conflicts p client (some e) =
      not (e.signature == signature_of p)
      || contradicts e.client_order_id client
      || contradicts e.venue_order_id p.venue_order_id

  unfoldable pub merged_execution :
      ExecutionReport
      → Ident
      → List Ident
      → Option Ident
      → Option ExecutionIdentity
      → ExecutionIdentity
  merged_execution p instrument ids client prior = record {
    instrument_id = instrument;
    native_ids = sorted_set (ids ++ ids_of prior);
    client_order_id = or_text client (client_of prior);
    venue_order_id = or_text p.venue_order_id (venue_order_of prior);
    side = p.side;
    lots = p.executed_lots;
    signature = signature_of p;
  }

abbrev pub observe_order : ExecutionReport → OrderState → OrderState
observe_order p o = record o {
  venue_order_id = or_text p.venue_order_id o.venue_order_id;
  pending = if is_submit o.pending then idle else o.pending;
  knowledge = confirmed;
  transport_started = true;
}

-- an execution on the other side is an incident
unfoldable pub note_side : ExecutionReport → OmsState → OrderState → OmsState
note_side p st o =
    if same_side o.instruction.side p.side
    then st
    else record st { incidents = sorted_set (execution_side_mismatch ∷ st.incidents) }

unfoldable pub observe_execution : ExecutionReport → OmsState → Option OrderState → OmsState
unfolding put_order resolve_command note_side
observe_execution p st none = st
observe_execution p st (some o) =
    resolve_command (put_order (note_side p st o) (observe_order p o)) (client_id o) false

module _ (py : Externals) where
  -- at most one execution has an identity of the report, and it says the same
  unfoldable pub check_execution :
      ExecutionReport → Option Ident → List ExecutionIdentity → Result OmsError (Unit {0})
  check_execution p client existing = do
    raise_if (ltb 1 (length existing)) aliases_join_effects
    raise_if (conflicts py p client (head_of existing)) conflicting_facts

  -- the execution takes the place of the one that has an identity of it
  unfoldable pub store_execution :
      ExecutionReport → List Ident → Ident → Option Ident → OmsState → OmsState
  unfolding merged_execution
  store_execution p ids instrument client st =
      let existing = keep (shares_identity instrument ids) st.executions in
      let others = keep (λ e. not (shares_identity instrument ids e)) st.executions in
      let execution = merged_execution py p instrument ids client (head_of existing) in
      record st { executions = sort_with le_execution (others ++ execution ∷ []) }

  -- `OMS._execution`
  unfoldable pub apply_execution :
      ExecutionReport → List Ident → Ident → OmsState → Result OmsError OmsState
  unfolding find_order check_execution store_execution observe_execution
  apply_execution p aliases instrument st = do
    found ← find_order py st p.client_order_id p.venue_order_id (some instrument)
    let ids = sorted_set (p.native_execution_id ∷ aliases)
    let client = reported_client py p found
    check_execution p client (keep (shares_identity instrument ids) st.executions)
    ok (observe_execution p (store_execution p ids instrument client st) found)

  unfoldable pub execution_branch :
      ExecutionReport → List Ident → Option Ident → OmsState → Result OmsError Outcome
  unfolding apply_execution
  execution_branch p aliases none st = raise not_an_instrument_trade
  execution_branch p aliases (some instrument) st = do
    raise_if (not (is_trade p.execution_type)) not_an_instrument_trade
    next ← apply_execution p aliases instrument st
    ok (candidate next)

-- the cumulative fills after a report, which never fall
unfoldable pub cumulative_lots : Lifecycle → ℕ → OrderState → ℕ
cumulative_lots status reported o =
    let cumulative = max o.reported_fill_lots reported in
    if is_filled status then max cumulative o.instruction.quantity_lots else cumulative

abbrev is_opened : Lifecycle → Bool
is_opened Lifecycle.opened = true
is_opened _ = false

abbrev is_partial : Lifecycle → Bool
is_partial Lifecycle.partially_filled = true
is_partial _ = false

unfoldable pub reported_status : Lifecycle → ℕ → OrderState → Lifecycle
reported_status reported cumulative o =
    let status =
      if is_terminal o.lifecycle && not (is_filled reported) then o.lifecycle else reported in
    if leb o.instruction.quantity_lots o.accounted_fill_lots
    then Lifecycle.filled
    else if is_opened status
        && (ltb 0 o.accounted_fill_lots || ltb 0 cumulative || is_partial o.lifecycle)
    then Lifecycle.partially_filled
    else status

unfoldable pub reported_order : OrderReport → Lifecycle → OrderState → OrderState
unfolding cumulative_lots reported_status
reported_order p reported o =
    let cumulative = cumulative_lots reported p.cumulative_fill_lots o in
    let status = reported_status reported cumulative o in
    record o {
      venue_order_id = or_text p.venue_order_id o.venue_order_id;
      lifecycle = status;
      reported_fill_lots = cumulative;
      pending = if is_terminal status || is_submit o.pending then idle else o.pending;
      knowledge = confirmed;
      transport_started = true;
    }

abbrev pub is_created : Lifecycle → Bool
is_created Lifecycle.created = true
is_created _ = false

unfoldable pub report_known : OrderReport → OmsState → OrderState → Result OmsError Outcome
unfolding put_order resolve_command reported_order
report_known p st o = do
  reported ← or_raise p.lifecycle invalid_lifecycle
  raise_if (is_created reported) local_created_state
  let next = reported_order p reported o
  ok (
      candidate
        (resolve_command (put_order st next) p.client_order_id (is_terminal next.lifecycle)))

module _ (py : Externals) where
  unfoldable pub report_branch : OrderReport → Option Ident → OmsState → Result OmsError Outcome
  unfolding find_order report_known
  report_branch p instrument st = do
    found ← find_order py st (some p.client_order_id) p.venue_order_id instrument
    elim found [
      | none ↦ ok (returned (record st { incidents = sorted_set (unknown_order ∷ st.incidents) }))
      | some o ↦ report_known p st o
    ]
