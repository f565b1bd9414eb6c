-- ===== src/Execution/Oms/Lots.antt =====
-- Lot counts: what a reservation holds, and what a replacement may trade.
use rs_quant.Base.{
  ◌+◌, ◌≤◌, ◌<◌, max, true, false, some, ◌≡◌, ◌≢◌, refl, arith, ok, or_raise, not, ◌&&◌, ◌||◌, ltb,
}
use rs_quant.Core.Types.{Ident, OrderInstruction}
use rs_quant.Portfolio.State.{executable_lots}
use rs_quant.Execution.OrderState.{
  OrderState, OmsState, Lifecycle, is_terminal, confirmed, is_confirmed, idle, find_client,
  remaining_lots, unresolved_fill_lots, reserved_lots, canceled_remainder_lots,
}
use rs_quant.Execution.Oms.Same.{
  Externals, stop_iteration, uncertain_replacement, cancel_unconfirmed, fresh_identity_required,
  replacement_exceeds,
}
use rs_quant.Execution.Oms.Change.{reservation}
use rs_quant.Execution.Oms.Approve.{
  replace_order, reuses_identity, same_scope, is_canceled, is_idle,
}
use rs_quant.Execution.Oms.Ensures.{Ensures->>=, Ensures-raise_if, of_Ensures, or_raise-ok}

-- The reservation of an order never holds fewer lots than are unresolved, its executable lots are
-- at most the lots that remain unaccounted, and an ended order has no executable lots.
pub reservation_bounds :
    (py : Externals) (o : OrderState)
    → ((reservation py o).unresolved_lots ≤ (reservation py o).remaining_lots)
      × (executable_lots (reservation py o) ≤ remaining_lots o)
      × (is_terminal o.lifecycle ≡ true → executable_lots (reservation py o) ≡ 0)
unfolding reservation executable_lots reserved_lots unresolved_fill_lots remaining_lots
reservation_bounds py o = (ground arith, ground arith, λ t. ground arith)

-- What a replacement is allowed to be.
pub record IsReplacement (client : Ident) (r : OrderInstruction) (o : OrderState) : Type 0 where
  pub was_canceled : o.lifecycle ≡ Lifecycle.canceled
  pub was_idle : o.pending ≡ idle
  pub was_known : o.knowledge ≡ confirmed
  pub was_settled : reserved_lots o ≡ 0
  pub fresh_client : r.client_order_id ≢ client
  pub fresh_instruction : r.instruction_id ≢ o.instruction.instruction_id
  pub fresh_intent : r.parent_intent_id ≢ o.instruction.parent_intent_id
  pub same_account : r.account_id ≡ o.instruction.account_id
  pub same_environment : r.environment ≡ o.instruction.environment
  pub same_owner : r.owner_strategy_id ≡ o.instruction.owner_strategy_id
  pub same_instrument : r.instrument_id ≡ o.instruction.instrument_id
  pub same_side : r.side ≡ o.instruction.side
  pub same_reduction : r.reduce_only ≡ o.instruction.reduce_only
  pub within :
      r.quantity_lots + max o.reported_fill_lots o.accounted_fill_lots ≤ o.instruction.quantity_lots

-- The guards of `replace_order`, read one by one.
module _ (client : Ident) (r : OrderInstruction) (o : OrderState)
    (tradable : 0 < r.quantity_lots) where
  guards_allow :
      (not (is_confirmed o.knowledge) || (ltb 0 (reserved_lots o) && is_terminal o.lifecycle))
        ≡ false
      → (not (is_canceled o.lifecycle) || not (is_idle o.pending)) ≡ false
      → reuses_identity client r o.instruction ≡ false
      → (not (same_scope r o.instruction) || ltb (canceled_remainder_lots o) r.quantity_lots)
        ≡ false
      → IsReplacement client r o
  unfolding canceled_remainder_lots
  guards_allow g₁ g₂ g₃ g₄ = record {
    was_canceled = canceled;
    was_idle = ground arith;
    was_known = ground arith;
    was_settled = ground arith;
    fresh_client = ground arith;
    fresh_instruction = ground arith;
    fresh_intent = ground arith;
    same_account = ground arith;
    same_environment = ground arith;
    same_owner = ground arith;
    same_instrument = ground arith;
    same_side = ground arith;
    same_reduction = ground arith;
    within = ground arith;
  }
    where
      canceled : o.lifecycle ≡ Lifecycle.canceled
      canceled = ground arith

-- A replacement of a positive quantity is returned only for an order that is canceled, idle,
-- confirmed and settled, and it is returned unchanged. Its client order, instruction and intent ids
-- differ from the order's; its account, environment, owner, instrument, side and reduce-only flag
-- are the order's; and together with what the order has filled it never exceeds the order's
-- quantity.
pub replace_order_sound :
    (client : Ident) (r r' : OrderInstruction) (st : OmsState)
    → 0 < r.quantity_lots
    → replace_order client r st ≡ ok r'
    → (o : OrderState) × (find_client client st.orders ≡ some o)
      × (r' ≡ r)
      × IsReplacement client r o
unfolding replace_order
replace_order_sound client r r' st q e =
    of_Ensures Sound
      (Ensures->>= Sound (or_raise (find_client client st.orders) stop_iteration) _ (λ o eo.
        Ensures-raise_if Sound
          (not (is_confirmed o.knowledge) || (ltb 0 (reserved_lots o) && is_terminal o.lifecycle))
          uncertain_replacement _
          (λ g₁.
            Ensures-raise_if Sound (not (is_canceled o.lifecycle) || not (is_idle o.pending))
              cancel_unconfirmed _
              (λ g₂.
                Ensures-raise_if Sound (reuses_identity client r o.instruction)
                  fresh_identity_required _
                  (λ g₃.
                    Ensures-raise_if Sound
                      (not (same_scope r o.instruction)
                        || ltb (canceled_remainder_lots o) r.quantity_lots)
                      replacement_exceeds (ok r)
                      (λ g₄. (
                        o,
                        or_raise-ok (find_client client st.orders) stop_iteration eo,
                        refl,
                        guards_allow client r o q g₁ g₂ g₃ g₄,
                      )))))))
      e
  where
    Sound : OrderInstruction → Type 0
    Sound x =
        (o : OrderState) × (find_client client st.orders ≡ some o)
        × (x ≡ r)
        × IsReplacement client r o
