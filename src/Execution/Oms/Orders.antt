-- ===== src/Execution/Oms/Orders.antt =====
-- Orders under their client identities, through the updates of a transition.
use rs_quant.Base.{
  ℕ, ◌≤◌, Bool, true, some, List, [], ◌∷◌, ◌==◌, ◌≡◌, inl, inr, sym, ap, ==_iff, arith,
  if◌then◌else◌, Bool-cases, find, ◌∙◌,
}
use rs_quant.Base.Keyed.{IsKeyed, upsert-IsKeyed, get-upsert, get-find}
use mathlib.Core.Path.{subst}
use rs_quant.Core.Types.{truthy_opt, OrderInstruction}
use rs_quant.Execution.OrderState.{OrderState, OmsState, client_id, is_terminal, find_client}
use rs_quant.Execution.Oms.Lookup.{put_order}

-- The client identities of the orders rise strictly, as in a tuple sorted by them.
abbrev pub HasKeys : List OrderState → Type 0
HasKeys = IsKeyed client_id

pub put_order-HasKeys : (st : OmsState) (o : OrderState) → HasKeys (put_order st o).orders
unfolding put_order
put_order-HasKeys st o = upsert-IsKeyed client_id o st.orders

pub find_client-put_order :
    (k : ℕ) (st : OmsState) (o : OrderState)
    → HasKeys st.orders
    → find_client k (put_order st o).orders
      ≡ (if client_id o == k then some o else find_client k st.orders)
unfolding put_order find_client
find_client-put_order k st o h = get-upsert client_id o st.orders k h

pub find_client_of_find :
    (p : OrderState → Bool) (os : List OrderState) (o : OrderState)
    → HasKeys os
    → find p os ≡ some o
    → find_client (client_id o) os ≡ some o
unfolding find_client
find_client_of_find p os o h e = get-find client_id p os {x = o} h e

-- How an order may change while reports arrive.
pub record Advances (a b : OrderState) : Type 0 where
  pub keeps_instruction : b.instruction ≡ a.instruction
  pub keeps_cash : b.cash_reserve ≡ a.cash_reserve
  pub keeps_fee : b.fee_reserve ≡ a.fee_reserve
  pub keeps_venue : truthy_opt a.venue_order_id ≡ true → b.venue_order_id ≡ a.venue_order_id
  pub stays_ended : is_terminal a.lifecycle ≡ true → is_terminal b.lifecycle ≡ true
  pub fills_grow : a.reported_fill_lots ≤ b.reported_fill_lots
  pub stays_started : a.transport_started ≡ true → b.transport_started ≡ true

pub Advances-refl : (a : OrderState) → Advances a a
Advances-refl a = ground arith

pub Advances-trans : {a b c : OrderState} → Advances a b → Advances b c → Advances a c
Advances-trans {a} {b} {c} p q = record {
  keeps_instruction = q.keeps_instruction ∙ p.keeps_instruction;
  keeps_cash = q.keeps_cash ∙ p.keeps_cash;
  keeps_fee = q.keeps_fee ∙ p.keeps_fee;
  keeps_venue = λ t. q.keeps_venue (rw (p.keeps_venue t) t) ∙ p.keeps_venue t;
  stays_ended = λ t. q.stays_ended (p.stays_ended t);
  fills_grow = omega arith;
  stays_started = λ t. q.stays_started (p.stays_started t);
}

-- Every order is still there under its identity, and has advanced.
abbrev pub Evolves : List OrderState → List OrderState → Type 0
Evolves xs ys =
    (k : ℕ) (o : OrderState)
    → find_client k xs ≡ some o
    → (o' : OrderState) × (find_client k ys ≡ some o') × Advances o o'

pub Evolves-refl : (xs : List OrderState) → Evolves xs xs
Evolves-refl xs k o e = (o, e, Advances-refl o)

pub Evolves-trans : (xs ys zs : List OrderState) → Evolves xs ys → Evolves ys zs → Evolves xs zs
Evolves-trans xs ys zs f g k o e =
    let (o', e', a) = f k o e in let (o'', e'', b) = g k o' e' in (o'', e'', Advances-trans a b)

abbrev client_order_id : OrderInstruction → ℕ
client_order_id i = i.client_order_id

pub find_client-id :
    (k : ℕ) (os : List OrderState) (o : OrderState) → find_client k os ≡ some o → client_id o ≡ k
unfolding find_client
find_client-id k [] o e = cc
find_client-id k (x ∷ xs) o e = ground (arith, find_client-id k xs o)

-- Replacing an order by one that it advances to.
pub put_order-Evolves :
    (st : OmsState) (o o' : OrderState)
    → HasKeys st.orders
    → find_client (client_id o) st.orders ≡ some o
    → Advances o o'
    → Evolves st.orders (put_order st o').orders
put_order-Evolves st o o' h e a k x ex = elim (Bool-cases (client_id o' == k)) [
  | inl hit ↦
      let here : client_id o ≡ k =
        sym (ap client_order_id a.keeps_instruction) ∙ (==_iff _ k).0 hit in
      let there : find_client (client_id o) st.orders ≡ some x =
        subst (λ j. find_client j st.orders ≡ some x) (sym here) ex in
      let same : x ≡ o = cc in
      (o', rw (find_client-put_order k st o' h, hit), subst (λ y. Advances y o') (sym same) a)
  | inr miss ↦ (x, rw (find_client-put_order k st o' h, miss) ex, Advances-refl x)
]
