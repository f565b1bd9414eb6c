-- ===== src/Execution/Oms/Advance/Rules.antt =====
-- What the lookups return, and the end of most branches.
use rs_quant.Base.{
  ℕ, false, Option, none, some, List, ◌≡◌, sym, ap, inl, inr, ◌⊎◌, arith, if◌then◌else◌, ok, raise,
  find,
}
use mathlib.Core.Path.{subst}
use rs_quant.Core.Types.{Ident}
use rs_quant.Execution.OrderState.{OrderState, OmsState, CommandStatus, client_id, find_client}
use rs_quant.Execution.Oms.Same.{
  Externals, stop_iteration, identity_changes_scope, identity_aliases_conflict,
}
use rs_quant.Execution.Oms.Lookup.{
  pick_order, find_order, put_order, command_status, are_different, matches_client, matches_venue,
  changes_scope,
}
use rs_quant.Execution.Oms.Reports.{Outcome}
use rs_quant.Execution.Oms.Commands.{order_of}
use rs_quant.Execution.Oms.Ensures.{state_of, if-ok, or_raise-ok}
use rs_quant.Execution.Oms.Orders.{
  HasKeys, Advances, Evolves, put_order-HasKeys, put_order-Evolves, find_client_of_find,
  find_client-id,
}

-- The orders that a branch leaves.
abbrev pub Kept : OmsState → OmsState → Type 0
Kept st st' = HasKeys st'.orders × Evolves st.orders st'.orders

abbrev pub KeptBy : OmsState → Outcome → Type 0
KeptBy st out = Kept st (state_of out)

pub find_client_self :
    (k : ℕ) (os : List OrderState) (o : OrderState)
    → find_client k os ≡ some o
    → find_client (client_id o) os ≡ some o
find_client_self k os o e = subst (λ j. find_client j os ≡ some o) (sym (find_client-id k os o e)) e

pub order_of-found :
    (k : Ident) (st : OmsState) (o : OrderState)
    → order_of k st ≡ ok o
    → find_client (client_id o) st.orders ≡ some o
unfolding order_of
order_of-found k st o e =
    find_client_self k st.orders o (or_raise-ok (find_client k st.orders) stop_iteration e)

settled :
    (v i : Option Ident) (x o : OrderState)
    → (if changes_scope v i x then raise identity_changes_scope else ok (some x)) ≡ ok (some o)
    → (some x ≡ some o) × (changes_scope v i o ≡ false)
settled v i x o e =
    let (kept, same) = if-ok (changes_scope v i x) identity_changes_scope (ok (some x)) e in
    let same_order : x ≡ o = cc in
    (ap some same_order, subst (λ y. changes_scope v i y ≡ false) same_order kept)

pick_order-picks :
    (py : Externals) (v i : Option Ident) (a b : Option OrderState) (o : OrderState)
    → pick_order py v i a b ≡ ok (some o)
    → ((a ≡ some o) ⊎ (b ≡ some o)) × (changes_scope v i o ≡ false)
unfolding pick_order
pick_order-picks py v i none none o e = cc
pick_order-picks py v i none (some y) o e = let (s, c) = settled v i y o e in (inr s, c)
pick_order-picks py v i (some x) none o e = let (s, c) = settled v i x o e in (inl s, c)
pick_order-picks py v i (some x) (some y) o e =
    let (s, c) =
      settled v i x o
        (if-ok (are_different py (some x) (some y)) identity_aliases_conflict _ e).1 in
    (inl s, c)

-- The order that is found stands under its identity, and the identities fit it.
pub find_order-found :
    (py : Externals) (st : OmsState) (c v i : Option Ident) (o : OrderState)
    → HasKeys st.orders
    → find_order py st c v i ≡ ok (some o)
    → (find_client (client_id o) st.orders ≡ some o) × (changes_scope v i o ≡ false)
unfolding find_order
find_order-found py st c v i o h e =
    let (side, kept) = pick_order-picks py v i _ _ o e in
    (
      elim side [
        | inl p ↦ find_client_of_find (matches_client c) st.orders o h p
        | inr p ↦ find_client_of_find (matches_venue v i) st.orders o h p
      ],
      kept,
    )

pick_order-first :
    (py : Externals) (v i : Option Ident) (o : OrderState) (b f : Option OrderState)
    → pick_order py v i (some o) b ≡ ok f
    → changes_scope v i o ≡ false
unfolding pick_order
pick_order-first py v i o none f e = (if-ok (changes_scope v i o) identity_changes_scope _ e).0
pick_order-first py v i o (some y) f e =
    (if-ok (changes_scope v i o) identity_changes_scope _
      (if-ok (are_different py (some o) (some y)) identity_aliases_conflict _ e).1).0

-- A search that does not raise fits the order that it names by its client identity.
pub find_order-fits :
    (py : Externals) (st : OmsState) (v i : Option Ident) (o : OrderState) (f : Option OrderState)
    → find_client (client_id o) st.orders ≡ some o
    → find_order py st (some (client_id o)) v i ≡ ok f
    → changes_scope v i o ≡ false
unfolding find_order find_client
find_order-fits py st v i o f here e =
    pick_order-first py v i o (find (matches_venue v i) st.orders) f
      (subst (λ a. pick_order py v i a (find (matches_venue v i) st.orders) ≡ ok f) here e)

pub command_status-orders :
    (st st' : OmsState) (i : Ident) (s : CommandStatus) (a : Option Ident)
    → command_status st i s a ≡ ok st'
    → st'.orders ≡ st.orders
unfolding command_status
command_status-orders st st' i s a e = ground arith

-- The end of most branches: one order is replaced by an advanced one.
pub put_order-Kept :
    (st next : OmsState) (o o' : OrderState)
    → HasKeys st.orders
    → next.orders ≡ st.orders
    → find_client (client_id o) st.orders ≡ some o
    → Advances o o'
    → Kept st (put_order next o')
put_order-Kept st next o o' h same e a = (
  put_order-HasKeys next o',
  subst (λ xs. Evolves xs (put_order next o').orders) same
      (put_order-Evolves next o o' (rw same h) (rw same e) a),
)
