-- ===== src/Execution/Oms/Lookup.antt =====
-- `_find_order`, `_put_order`, `_command_status` and `_resolve_command`.
use rs_quant.Base.{
  Bool, false, Option, none, some, map, ◌==◌, eq_opt, any, find, ◌&&◌, ◌||◌, not, is_some, or_else,
  if◌then◌else◌, Result, ok, raise, raise_if, ◌>>◌,
}
use rs_quant.Base.Keyed.{upsert}
use rs_quant.Core.Types.{Ident, or_text}
use rs_quant.Execution.OrderState.{
  OrderState, OmsState, CommandState, CommandStatus, client_id, command_id, command_client,
  is_order, is_unsettled,
}
use rs_quant.Execution.Oms.Same.{
  Externals, OmsError, same_order, identity_aliases_conflict, identity_changes_scope,
  unknown_outbox_instruction,
}

-- `o.venue_order_id == venue and o.instruction.instrument_id == instrument`, with `venue` given
abbrev pub matches_venue : Option Ident → Option Ident → OrderState → Bool
matches_venue venue instrument o =
    is_some venue
    && eq_opt o.venue_order_id venue
    && eq_opt (some o.instruction.instrument_id) instrument

abbrev pub matches_client : Option Ident → OrderState → Bool
matches_client client o = eq_opt (some (client_id o)) client

-- the order changes its instrument, or a known venue order
abbrev pub changes_scope : Option Ident → Option Ident → OrderState → Bool
changes_scope venue instrument o =
    not (eq_opt (some o.instruction.instrument_id) instrument)
    || (is_some venue && is_some o.venue_order_id && not (eq_opt o.venue_order_id venue))

module _ (py : Externals) where
  abbrev pub are_different : Option OrderState → Option OrderState → Bool
  are_different (some a) (some b) = not (same_order py a b)
  are_different _ _ = false

  -- the order under the client identity, or else under the venue's
  unfoldable pub pick_order :
      Option Ident
      → Option Ident
      → Option OrderState
      → Option OrderState
      → Result OmsError (Option OrderState)
  pick_order venue instrument by_client by_venue =
      if are_different by_client by_venue
      then raise identity_aliases_conflict
      else elim (or_else by_client by_venue) [
        | none ↦ ok none
        | some o ↦
            if changes_scope venue instrument o then raise identity_changes_scope else ok (some o)
      ]

  unfoldable pub find_order :
      OmsState → Option Ident → Option Ident → Option Ident → Result OmsError (Option OrderState)
  unfolding pick_order
  find_order st client venue instrument =
      pick_order venue instrument (find (matches_client client) st.orders)
        (find (matches_venue venue instrument) st.orders)

unfoldable pub put_order : OmsState → OrderState → OmsState
put_order st o = record st { orders = upsert client_id o st.orders }

abbrev pub set_status : Ident → CommandStatus → Option Ident → CommandState → CommandState
set_status i s attempt c =
    if command_id c == i
    then record c { status = s; attempt_id = or_text attempt c.attempt_id }
    else c

unfoldable pub command_status :
    OmsState → Ident → CommandStatus → Option Ident → Result OmsError OmsState
command_status st i s attempt = do
  raise_if (not (any (λ c. command_id c == i) st.commands)) unknown_outbox_instruction
  ok (record st { commands = map (set_status i s attempt) st.commands })

abbrev pub resolve_one : Ident → Bool → CommandState → CommandState
resolve_one client cancel c =
    if command_client c == client && is_unsettled c.status && (cancel || is_order c.instruction)
    then record c { status = CommandStatus.resolved }
    else c

unfoldable pub resolve_command : OmsState → Ident → Bool → OmsState
resolve_command st client cancel = record st {
  commands = map (resolve_one client cancel) st.commands;
}
