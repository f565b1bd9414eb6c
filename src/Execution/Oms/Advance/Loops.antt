-- ===== src/Execution/Oms/Advance/Loops.antt =====
-- The loops of `_link_and_project` and `_change` over the orders advance each order once.
use rs_quant.Base.{
  ℕ, ◌<◌, Option, none, some, List, [], ◌∷◌, All, ◌≡◌, refl, ◌∙◌, arith, if_both, ◌+◌,
}
use rs_quant.Base.Dict.{lookup, dict_from}
use rs_quant.Base.Keyed.{get_self}
use rs_quant.Execution.OrderState.{
  OrderState, OmsState, CommandState, ExecutionIdentity, client_id, find_client,
}
use rs_quant.Execution.Intents.{Envelope}
use rs_quant.Portfolio.State.{ReservationChanged}
use rs_quant.Execution.Oms.Same.{Externals, same_order}
use rs_quant.Execution.Oms.Lookup.{put_order}
use rs_quant.Execution.Oms.Link.{
  link_executions, accounted_lots, projected_status, projected, settle, project_order,
  project_orders, link_and_project,
}
use rs_quant.Execution.Oms.Change.{revise_with, revise_order, revise_orders, change, reservation}
use rs_quant.Execution.Oms.Orders.{
  HasKeys, Advances, Evolves-refl, Evolves-trans, find_client-put_order,
}
use rs_quant.Execution.Oms.Ensures.{Ensures, Ensures->>=}
use rs_quant.Execution.Oms.Advance.Rules.{Kept, put_order-Kept}

abbrev IsThere : OmsState → OrderState → Type 0
IsThere st o = find_client (client_id o) st.orders ≡ some o

pub All-IsThere : (st : OmsState) → HasKeys st.orders → All (IsThere st) st.orders
unfolding find_client
All-IsThere st h = get_self client_id st.orders h

-- The orders with larger identities are not touched.
rest-IsThere :
    (st next : OmsState) (o' : OrderState) (os : List OrderState)
    → HasKeys st.orders
    → next.orders ≡ st.orders
    → All (λ y. client_id o' < client_id y) os
    → All (IsThere st) os
    → All (IsThere (put_order next o')) os
rest-IsThere st next o' [] h same above there = tt
rest-IsThere st next o' (y ∷ os) h same above there = (
  find_client-put_order (client_id y) next o' (rw same h) ∙ ground (arith, above.0, there.0, same),
  rest-IsThere st next o' os h same above.1 there.1,
)

pub Kept-trans : (a b c : OmsState) → Kept a b → Kept b c → Kept a c
Kept-trans a b c p q = (q.0, Evolves-trans a.orders b.orders c.orders p.1 q.1)

settle-orders : (n : ℕ) (st : OmsState) (o : OrderState) → (settle n st o).orders ≡ st.orders
unfolding settle
settle-orders n st o = ground arith

projected-Advances :
    (cs : List CommandState) (n : ℕ) (o : OrderState) → Advances o (projected cs n o)
unfolding projected projected_status
projected-Advances cs n o = record {
  keeps_instruction = refl;
  keeps_cash = refl;
  keeps_fee = refl;
  keeps_venue = λ t. refl;
  stays_ended = λ t. ground arith;
  fills_grow = omega arith;
  stays_started = λ t. t;
}

-- One round: the state is kept, and the orders to come are still there.
project_order-Kept :
    (es : List ExecutionIdentity) (st : OmsState) (o : OrderState) (os : List OrderState)
    → HasKeys st.orders
    → IsThere st o
    → All (λ y. client_id o < client_id y) os
    → All (IsThere st) os
    → Kept st (project_order es st o) × All (IsThere (project_order es st o)) os
unfolding project_order
project_order-Kept es st o os h here above there =
    let n = accounted_lots es o in
    let done = settle n st o in
    let o' = projected done.commands n o in
    (
      put_order-Kept st done o o' h (settle-orders n st o) here
          (projected-Advances done.commands n o),
      rest-IsThere st done o' os h (settle-orders n st o) above there,
    )

project_orders-Kept :
    (es : List ExecutionIdentity) (st : OmsState) (os : List OrderState)
    → HasKeys st.orders
    → HasKeys os
    → All (IsThere st) os
    → Kept st (project_orders es st os)
unfolding project_orders
project_orders-Kept es st [] h ks there = (h, Evolves-refl st.orders)
project_orders-Kept es st (o ∷ os) h ks there =
    let next = project_order es st o in
    let (kept, later) = project_order-Kept es st o os h there.0 ks.0 there.1 in
    Kept-trans st next (project_orders es next os) kept
      (project_orders-Kept es next os kept.0 ks.1 later)

module _ (py : Externals) where
  pub link_and_project-Kept :
      (st : OmsState) → HasKeys st.orders → Ensures (Kept st) (link_and_project py st)
  unfolding link_and_project
  link_and_project-Kept st h =
      Ensures->>= (Kept st) (link_executions py st st.executions) _ (λ es _.
        project_orders-Kept es (record st { executions = es }) st.orders h h (All-IsThere st h))

  revise_with-Kept :
      (old : Option OrderState) (st : OmsState) (o : OrderState) (os : List OrderState)
      → HasKeys st.orders
      → IsThere st o
      → All (λ y. client_id o < client_id y) os
      → All (IsThere st) os
      → Kept st (revise_with py old o st).0 × All (IsThere (revise_with py old o st).0) os
  unfolding revise_with
  revise_with-Kept none st o os h here above there = ((h, Evolves-refl st.orders), there)
  revise_with-Kept (some old) st o os h here above there =
      let newer : OrderState = record o { revision = old.revision + 1 } in
      if_both (λ (r : OmsState × List ReservationChanged). Kept st r.0 × All (IsThere r.0) os)
        (same_order py old o) (st, []) (put_order st newer, reservation py newer ∷ [])
        ((h, Evolves-refl st.orders), there)
        (
          put_order-Kept st st o newer h refl here (ground arith),
          rest-IsThere st st newer os h refl above there,
        )

  revise_order-Kept :
      (before : List OrderState) (st : OmsState) (o : OrderState) (os : List OrderState)
      → HasKeys st.orders
      → IsThere st o
      → All (λ y. client_id o < client_id y) os
      → All (IsThere st) os
      → Kept st (revise_order py before o st).0 × All (IsThere (revise_order py before o st).0) os
  unfolding revise_order
  revise_order-Kept before st o os h here above there =
      revise_with-Kept (lookup (client_id o) (dict_from client_id [] before)) st o os h here above
        there

  revise_orders-Kept :
      (before : List OrderState) (st : OmsState) (os : List OrderState)
      → HasKeys st.orders
      → HasKeys os
      → All (IsThere st) os
      → Kept st (revise_orders py before os st).0
  unfolding revise_orders
  revise_orders-Kept before st [] h ks there = (h, Evolves-refl st.orders)
  revise_orders-Kept before st (o ∷ os) h ks there =
      let next = (revise_order py before o st).0 in
      let (kept, later) = revise_order-Kept before st o os h there.0 ks.0 there.1 in
      Kept-trans st next (revise_orders py before os next).0 kept
        (revise_orders-Kept before next os kept.0 ks.1 later)

  pub change-Kept :
      (before after : OmsState) (e : Option Envelope)
      → HasKeys after.orders
      → Kept after (change py before after e).state
  unfolding change
  change-Kept before after e h =
      revise_orders-Kept before.orders after after.orders h h (All-IsThere after h)
