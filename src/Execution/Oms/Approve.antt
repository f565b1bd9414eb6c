-- ===== src/Execution/Oms/Approve.antt =====
-- `OMS.approve` and `OMS.replace_order`.
use rs_quant.Base.{
  ℕ, ◌+◌, Bool, true, false, Option, none, some, List, [], ◌∷◌, ◌++◌, ◌==◌, leb, ltb, any, ◌&&◌,
  ◌||◌, not, if◌then◌else◌, Result, ok, raise, raise_if, or_raise, ◌>>=◌, ◌>>◌,
}
use rs_quant.Base.Dict.{lookup, insert, dict_of}
use rs_quant.Base.Int.{ℤ, abs, is_pos, eqb_ℤ, pos}
use rs_quant.Base.Sort.{sort_by}
use rs_quant.Core.Types.{Ident, truthy, is_buy, same_side, OrderInstruction}
use rs_quant.Portfolio.State.{LedgerState, ReservationChanged, signed_position}
use rs_quant.Execution.OrderState.{
  Lifecycle, is_terminal, PendingAction, idle, is_confirmed, OrderState, OmsState, CommandStatus,
  order, command_id, find_client, new_order, reserved_lots, canceled_remainder_lots,
}
use rs_quant.Execution.Intents.{OrderApproved}
use rs_quant.Execution.Oms.Same.{
  Externals, OmsError, same_instruction, same_bool, account_scope_changed, missing_identity,
  expired_intent, identity_reused, already_consumed, unresolved_order, owner_cannot_change,
  atomic_reversal, active_exit, exceeds_position, uncertain_replacement, cancel_unconfirmed,
  fresh_identity_required, replacement_exceeds, stop_iteration,
}
use rs_quant.Execution.Oms.Lookup.{put_order}
use rs_quant.Execution.Oms.Change.{OmsChange, no_change, change}

module _ (py : Externals) where
  abbrev pub approval_in_scope : OrderInstruction → OmsState → LedgerState → Bool
  approval_in_scope v st ledger =
      v.environment == st.environment
      && v.account_id == st.account
      && py.venue_of v.instrument_id == st.venue
      && ledger.venue == st.venue
      && ledger.environment == st.environment
      && ledger.account == st.account

abbrev pub is_identified : OrderInstruction → Bool
is_identified v =
    truthy v.instruction_id
    && truthy v.client_order_id
    && truthy v.parent_intent_id
    && truthy v.owner_strategy_id
    && truthy v.risk_version
    && truthy v.gateway_fence

-- the order of an earlier approval carries the same instruction and reserves
module _ (py : Externals) where
  abbrev pub is_repeat : OrderApproved → OrderState → Bool
  is_repeat a o =
      same_instruction py o.instruction a.instruction
      && py.eq_decimal o.cash_reserve a.cash_reserve
      && py.eq_decimal o.fee_reserve a.fee_reserve

abbrev pub is_consumed : OrderInstruction → OmsState → Bool
is_consumed v st =
    any (λ c. command_id c == v.instruction_id) st.commands
    || any (λ o. o.instruction.parent_intent_id == v.parent_intent_id) st.orders

abbrev pub on_instrument : Ident → OrderState → Bool
on_instrument instrument o = o.instruction.instrument_id == instrument

abbrev pub has_unresolved : Ident → OmsState → Bool
has_unresolved instrument st =
    any (λ o. on_instrument instrument o && not (is_confirmed o.knowledge)) st.orders

abbrev pub owned_by_other : OrderInstruction → OmsState → Bool
owned_by_other v st = elim (lookup v.instrument_id (dict_of [] st.symbol_owners)) [
  | none ↦ false
  | some owner ↦ not (owner == v.owner_strategy_id)
]

-- the position is open and the instruction would turn it
abbrev pub reverses : OrderInstruction → ℤ → Bool
reverses v position =
    not (eqb_ℤ position (pos 0)) && not (same_bool (is_pos position) (is_buy v.side))

abbrev pub has_active_exit : Ident → OmsState → Bool
has_active_exit instrument st =
    any (λ o. on_instrument instrument o && (o.instruction.reduce_only && ltb 0 (reserved_lots o)))
      st.orders

-- the guards of an entry
unfoldable pub check_entry : OrderInstruction → OmsState → LedgerState → Result OmsError (Unit {0})
unfolding reserved_lots
check_entry v st ledger = do
  raise_if (has_unresolved v.instrument_id st) unresolved_order
  raise_if (owned_by_other v st) owner_cannot_change
  raise_if (reverses v (signed_position v.instrument_id ledger)) atomic_reversal
  raise_if (has_active_exit v.instrument_id st) active_exit

-- the lots of the position that closing reservations hold
unfoldable pub closing_reserved : Ident → List ReservationChanged → ℕ
closing_reserved instrument [] = 0
closing_reserved instrument (r ∷ rs) =
    (if r.instrument_id == instrument && r.reduce_only then r.remaining_lots else 0)
    + closing_reserved instrument rs

-- the guard of an exit; `quantity > abs(position) - reserved` on signed ints is
-- `quantity + reserved > abs(position)`
unfoldable pub check_exit : OrderInstruction → LedgerState → Result OmsError (Unit {0})
unfolding closing_reserved
check_exit v ledger =
    let position = signed_position v.instrument_id ledger in
    raise_if
      (not (same_bool (not (is_buy v.side)) (is_pos position))
        || ltb (abs position)
            (v.quantity_lots + closing_reserved v.instrument_id ledger.reservations))
      exceeds_position

abbrev pub set_owner : OrderInstruction → OmsState → OmsState
set_owner v st = record st {
  symbol_owners =
      sort_by (λ e. e.0) (insert v.instrument_id v.owner_strategy_id (dict_of [] st.symbol_owners));
}

unfoldable pub accept : OrderApproved → OmsState → OmsState
unfolding put_order
accept a st =
    let v = a.instruction in
    let placed = put_order st (new_order v a.cash_reserve a.fee_reserve) in
    let owned = if v.reduce_only then placed else set_owner v placed in
    record owned {
      commands =
          st.commands
          ++ record { instruction = order v; status = CommandStatus.pending; attempt_id = none }
            ∷ [];
    }

module _ (py : Externals) where
  unfoldable pub approve_new : OrderApproved → OmsState → LedgerState → Result OmsError OmsChange
  unfolding check_entry check_exit accept change
  approve_new a st ledger = do
    let v = a.instruction
    raise_if (is_consumed v st) already_consumed
    (if v.reduce_only then check_exit v ledger else check_entry v st ledger)
    ok (change py st (accept a st) none)

  -- the order that carries the client identity already, if there is one
  unfoldable pub approve_beside :
      OrderApproved → OmsState → LedgerState → Option OrderState → Result OmsError OmsChange
  unfolding approve_new
  approve_beside a st ledger none = approve_new a st ledger
  approve_beside a st ledger (some o) =
      if is_repeat py a o then ok (no_change st) else raise identity_reused

  unfoldable pub approve : OrderApproved → OmsState → LedgerState → ℕ → Result OmsError OmsChange
  unfolding find_client approve_beside
  approve a st ledger available_ns = do
    let v = a.instruction
    raise_if (not (approval_in_scope py v st ledger)) account_scope_changed
    raise_if (not (is_identified v)) missing_identity
    raise_if (leb v.expires_at_ns available_ns) expired_intent
    approve_beside a st ledger (find_client v.client_order_id st.orders)

abbrev pub is_canceled : Lifecycle → Bool
is_canceled Lifecycle.canceled = true
is_canceled _ = false

abbrev pub is_idle : PendingAction → Bool
is_idle idle = true
is_idle _ = false

-- an identity of the replacement is that of the order
abbrev pub reuses_identity : Ident → OrderInstruction → OrderInstruction → Bool
reuses_identity client r i =
    r.client_order_id == client
    || r.instruction_id == i.instruction_id
    || r.parent_intent_id == i.parent_intent_id

abbrev pub same_scope : OrderInstruction → OrderInstruction → Bool
same_scope r i =
    r.account_id == i.account_id
    && r.environment == i.environment
    && r.instrument_id == i.instrument_id
    && r.owner_strategy_id == i.owner_strategy_id
    && same_side r.side i.side
    && same_bool r.reduce_only i.reduce_only

unfoldable pub replace_order :
    Ident → OrderInstruction → OmsState → Result OmsError OrderInstruction
unfolding find_client reserved_lots canceled_remainder_lots
replace_order client r st = do
  o ← or_raise (find_client client st.orders) stop_iteration
  raise_if (not (is_confirmed o.knowledge) || (ltb 0 (reserved_lots o) && is_terminal o.lifecycle))
      uncertain_replacement
  raise_if (not (is_canceled o.lifecycle) || not (is_idle o.pending)) cancel_unconfirmed
  raise_if (reuses_identity client r o.instruction) fresh_identity_required
  raise_if (not (same_scope r o.instruction) || ltb (canceled_remainder_lots o) r.quantity_lots)
      replacement_exceeds
  ok r
