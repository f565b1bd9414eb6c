-- ===== src/Execution/Oms/Advance/Reports.antt =====
-- The branches for executions and order reports advance the orders.
use rs_quant.Base.{
  Bool, ◌∷◌, keep, true, false, Option, none, some, List, ◌≡◌, refl, arith, ok, ◌>>=◌, or_raise,
  raise_if, is_some, ◌∙◌, eq_opt, ◌&&◌, ◌||◌, not,
}
use mathlib.Core.Path.{subst}
use rs_quant.Base.Sort.{sorted_set}
use rs_quant.Core.Types.{Ident, truthy_opt, or_text, ExecutionReport}
use rs_quant.Execution.OrderState.{OrderState, OmsState, Lifecycle, client_id, find_client}
use rs_quant.Execution.Intents.{OrderReport}
use rs_quant.Execution.Oms.Same.{
  Externals, invalid_lifecycle, not_an_instrument_trade, local_created_state,
}
use rs_quant.Execution.Oms.Lookup.{find_order, resolve_command, changes_scope}
use rs_quant.Execution.Oms.Reports.{
  note_side, observe_order, observe_execution, apply_execution, execution_branch, store_execution,
  check_execution, reported_client, shares_identity, is_trade, is_created, candidate,
  cumulative_lots, reported_status, reported_order, report_known, report_branch,
}
use rs_quant.Execution.Oms.Orders.{HasKeys, Advances, Evolves-refl}
use rs_quant.Execution.Oms.Ensures.{Ensures, Ensures->>=, Ensures-guard, of_Ensures}
use rs_quant.Execution.Oms.Advance.Rules.{Kept, KeptBy, find_order-found, put_order-Kept}

or_text_kept :
    (v w : Option Ident) (c : Bool)
    → (c || (is_some v && is_some w && not (eq_opt w v))) ≡ false
    → truthy_opt w ≡ true
    → or_text v w ≡ w
or_text_kept none w c h t = refl
or_text_kept (some a) none c h t = cc
or_text_kept (some a) (some b) c h t = ground arith

-- A venue identity that is known is not replaced by an identity that fits.
pub venue_kept :
    (v i : Option Ident) (o : OrderState)
    → changes_scope v i o ≡ false
    → truthy_opt o.venue_order_id ≡ true
    → or_text v o.venue_order_id ≡ o.venue_order_id
venue_kept v i o = or_text_kept v o.venue_order_id _

observe_order-Advances :
    (p : ExecutionReport) (i : Option Ident) (o : OrderState)
    → changes_scope p.venue_order_id i o ≡ false
    → Advances o (observe_order p o)
observe_order-Advances p i o fits = record {
  keeps_instruction = refl;
  keeps_cash = refl;
  keeps_fee = refl;
  keeps_venue = venue_kept p.venue_order_id i o fits;
  stays_ended = λ t. t;
  fills_grow = omega arith;
  stays_started = λ t. refl;
}

note_side-orders :
    (p : ExecutionReport) (st : OmsState) (o : OrderState) → (note_side p st o).orders ≡ st.orders
unfolding note_side
note_side-orders p st o = ground arith

observe_execution-Kept :
    (p : ExecutionReport) (i : Option Ident) (st st' : OmsState) (found : Option OrderState)
    → HasKeys st.orders
    → st'.orders ≡ st.orders
    → ((o : OrderState)
        → found ≡ some o
        → (find_client (client_id o) st.orders ≡ some o)
          × (changes_scope p.venue_order_id i o ≡ false))
    → Kept st (observe_execution p st' found)
unfolding observe_execution resolve_command
observe_execution-Kept p i st st' none h same k = (rw same h, rw same (Evolves-refl st.orders))
observe_execution-Kept p i st st' (some o) h same k =
    let (here, fits) = k o refl in
    put_order-Kept st (note_side p st' o) o (observe_order p o) h (note_side-orders p st' o ∙ same)
      here (observe_order-Advances p i o fits)

module _ (py : Externals) where
  store_execution-orders :
      (p : ExecutionReport) (ids : List Ident) (i : Ident) (client : Option Ident) (st : OmsState)
      → (store_execution py p ids i client st).orders ≡ st.orders
  unfolding store_execution
  store_execution-orders p ids i client st = refl

  apply_execution-Kept :
      (p : ExecutionReport) (aliases : List Ident) (i : Ident) (st : OmsState)
      → HasKeys st.orders
      → Ensures (Kept st) (apply_execution py p aliases i st)
  unfolding apply_execution
  apply_execution-Kept p aliases i st h =
      let ids = sorted_set (p.native_execution_id ∷ aliases) in
      Ensures->>= (Kept st) (find_order py st p.client_order_id p.venue_order_id (some i)) _
        (λ found e.
          let client = reported_client py p found in
          Ensures-guard (Kept st)
            (check_execution py p client (keep (shares_identity i ids) st.executions)) (ok _)
            (observe_execution-Kept p (some i) st (store_execution py p ids i client st) found h
              (store_execution-orders p ids i client st)
              (λ o eo. find_order-found py st p.client_order_id p.venue_order_id (some i) o h (
                subst (λ f. find_order py st p.client_order_id p.venue_order_id (some i) ≡ ok f) eo
                  e))))

  pub execution_branch-Kept :
      (p : ExecutionReport) (aliases : List Ident) (i : Option Ident) (st : OmsState)
      → HasKeys st.orders
      → Ensures (KeptBy st) (execution_branch py p aliases i st)
  unfolding execution_branch
  execution_branch-Kept p aliases none st h = tt
  execution_branch-Kept p aliases (some i) st h =
      Ensures-guard (KeptBy st) (raise_if (not (is_trade p.execution_type)) not_an_instrument_trade)
        (apply_execution py p aliases i st >>= λ next. ok (candidate next))
        (Ensures->>= (KeptBy st) (apply_execution py p aliases i st) _
          (λ next e. of_Ensures (Kept st) (apply_execution-Kept p aliases i st h) e))

-- A report advances its order: the count of fills does not fall, an end stays an end.
reported_order-Advances :
    (p : OrderReport) (reported : Lifecycle) (i : Option Ident) (o : OrderState)
    → changes_scope p.venue_order_id i o ≡ false
    → Advances o (reported_order p reported o)
unfolding reported_order cumulative_lots reported_status
reported_order-Advances p reported i o fits = record {
  keeps_instruction = refl;
  keeps_cash = refl;
  keeps_fee = refl;
  keeps_venue = venue_kept p.venue_order_id i o fits;
  stays_ended = λ t. ground arith;
  fills_grow = ground arith;
  stays_started = λ t. refl;
}

report_known-Kept :
    (p : OrderReport) (i : Option Ident) (st : OmsState) (o : OrderState)
    → HasKeys st.orders
    → (find_client (client_id o) st.orders ≡ some o) × (changes_scope p.venue_order_id i o ≡ false)
    → Ensures (KeptBy st) (report_known p st o)
unfolding report_known resolve_command
report_known-Kept p i st o h (here, fits) =
    Ensures->>= (KeptBy st) (or_raise p.lifecycle invalid_lifecycle) _ (λ reported _.
      Ensures-guard (KeptBy st) (raise_if (is_created reported) local_created_state) (ok _) (
        put_order-Kept st st o (reported_order p reported o) h refl here
          (reported_order-Advances p reported i o fits)))

module _ (py : Externals) where
  pub report_branch-Kept :
      (p : OrderReport) (i : Option Ident) (st : OmsState)
      → HasKeys st.orders
      → Ensures (KeptBy st) (report_branch py p i st)
  unfolding report_branch
  report_branch-Kept p i st h =
      Ensures->>= (KeptBy st) (find_order py st (some p.client_order_id) p.venue_order_id i) _
        (elim [
          | none ↦ λ e. (h, Evolves-refl st.orders)
          | some o ↦ λ e.
              report_known-Kept p i st o h
                (find_order-found py st (some p.client_order_id) p.venue_order_id i o h e)
        ])
