-- ===== src/Execution/Oms/Dispatch/Used.antt =====
-- An instruction is used up when a command carries its identity and none with it is pending. What
-- the updates of a transition do to that.
use rs_quant.Base.{
  ℕ, Bool, true, false, Option, none, List, [], ◌∷◌, ◌++◌, map, any, find, ◌==◌, ◌&&◌, ◌≡◌, ◌≢◌,
  refl, arith, if◌then◌else◌, if_both, leb,
}
use rs_quant.Core.Types.{Ident}
use rs_quant.Execution.OrderState.{
  OrderState, OmsState, CommandState, CommandStatus, command_id, ExecutionIdentity, client_id,
}
use rs_quant.Execution.Oms.Lookup.{put_order, set_status, resolve_one, resolve_command}
use rs_quant.Execution.Oms.Commands.{is_pending}
use rs_quant.Execution.Oms.Link.{accounted_lots, settle, project_order, project_orders}

abbrev pub known : Ident → List CommandState → Bool
known i cs = any (λ c. command_id c == i) cs

abbrev pub waits : Ident → List CommandState → Bool
waits i cs = any (λ c. command_id c == i && is_pending c.status) cs

abbrev pub IsUsed : Ident → List CommandState → Type 0
IsUsed i cs = (known i cs ≡ true) × (waits i cs ≡ false)

-- An update of each command that keeps identities and makes none pending.
abbrev Settles : (CommandState → CommandState) → Type 0
Settles f =
    (c : CommandState)
    → (command_id (f c) ≡ command_id c)
      × (is_pending c.status ≡ false → is_pending (f c).status ≡ false)

waits-map :
    (i : Ident) (f : CommandState → CommandState) (cs : List CommandState)
    → Settles f
    → waits i cs ≡ false
    → waits i (map f cs) ≡ false
waits-map i f [] s h = refl
waits-map i f (c ∷ cs) s h = ground (arith, s c, waits-map i f cs s)

known-map :
    (i : Ident) (f : CommandState → CommandState) (cs : List CommandState)
    → Settles f
    → known i (map f cs) ≡ known i cs
known-map i f [] s = refl
known-map i f (c ∷ cs) s = ground (arith, s c, known-map i f cs s)

pub map-IsUsed :
    (i : Ident) (f : CommandState → CommandState) (cs : List CommandState)
    → Settles f
    → IsUsed i cs
    → IsUsed i (map f cs)
map-IsUsed i f cs s (k, w) = (rw (known-map i f cs s) k, waits-map i f cs s w)

pub set_status-Settles :
    (i : Ident) (s : CommandStatus) (a : Option Ident)
    → is_pending s ≡ false
    → Settles (set_status i s a)
set_status-Settles i s a h c = ground arith

pub resolve_one-Settles : (client : Ident) (all : Bool) → Settles (resolve_one client all)
resolve_one-Settles client all c = ground arith

-- The status that a command with the identity gets is not pending.
waits-set_status :
    (i : Ident) (s : CommandStatus) (a : Option Ident) (cs : List CommandState)
    → is_pending s ≡ false
    → waits i (map (set_status i s a) cs) ≡ false
waits-set_status i s a [] h = refl
waits-set_status i s a (c ∷ cs) h = ground (arith, waits-set_status i s a cs h)

pub set_status-IsUsed :
    (i : Ident) (s : CommandStatus) (a : Option Ident) (cs : List CommandState)
    → is_pending s ≡ false
    → known i cs ≡ true
    → IsUsed i (map (set_status i s a) cs)
set_status-IsUsed i s a cs h k = (
  rw (known-map i (set_status i s a) cs (set_status-Settles i s a h)) k,
  waits-set_status i s a cs h,
)

known-append :
    (i : Ident) (c : CommandState) (cs : List CommandState)
    → known i cs ≡ true
    → known i (cs ++ c ∷ []) ≡ true
known-append i c [] k = cc
known-append i c (d ∷ ds) k = ground (arith, known-append i c ds)

waits-append :
    (i : Ident) (c : CommandState) (cs : List CommandState)
    → command_id c ≢ i
    → waits i cs ≡ false
    → waits i (cs ++ c ∷ []) ≡ false
waits-append i c [] n w = ground arith
waits-append i c (d ∷ ds) n w = ground (arith, waits-append i c ds n)

pub append-IsUsed :
    (i : Ident) (c : CommandState) (cs : List CommandState)
    → command_id c ≢ i
    → IsUsed i cs
    → IsUsed i (cs ++ c ∷ [])
append-IsUsed i c cs n (k, w) = (known-append i c cs k, waits-append i c cs n w)

-- A search for an identity fails only where it is not known.
pub unknown_of_find :
    (i j : Ident) (cs : List CommandState)
    → find (λ c. command_id c == j) cs ≡ none
    → known i cs ≡ true
    → j ≢ i
unknown_of_find i j [] e k = cc
unknown_of_find i j (c ∷ cs) e k = ground (arith, unknown_of_find i j cs)

pub resolve_command-IsUsed :
    (i client : Ident) (all : Bool) (st : OmsState)
    → IsUsed i st.commands
    → IsUsed i (resolve_command st client all).commands
unfolding resolve_command
resolve_command-IsUsed i client all st u =
    map-IsUsed i (resolve_one client all) st.commands (resolve_one-Settles client all) u

pub put_order-commands : (st : OmsState) (o : OrderState) → (put_order st o).commands ≡ st.commands
unfolding put_order
put_order-commands st o = refl

settle-IsUsed :
    (i : Ident) (n : ℕ) (st : OmsState) (o : OrderState)
    → IsUsed i st.commands
    → IsUsed i (settle n st o).commands
unfolding settle
settle-IsUsed i n st o u =
    if_both (λ (s : OmsState). IsUsed i s.commands) _ (record done { incidents = _ }) done resolved
      resolved
  where
    done : OmsState
    done = if leb o.instruction.quantity_lots n then resolve_command st (client_id o) true else st

    resolved : IsUsed i done.commands
    resolved =
        if_both (λ (s : OmsState). IsUsed i s.commands) (leb o.instruction.quantity_lots n)
          (resolve_command st (client_id o) true) st
          (resolve_command-IsUsed i (client_id o) true st u) u

pub project_orders-IsUsed :
    (i : Ident) (es : List ExecutionIdentity) (st : OmsState) (os : List OrderState)
    → IsUsed i st.commands
    → IsUsed i (project_orders es st os).commands
unfolding project_orders project_order
project_orders-IsUsed i es st [] u = u
project_orders-IsUsed i es st (o ∷ os) u =
    project_orders-IsUsed i es (project_order es st o) os
      (settle-IsUsed i (accounted_lots es o) st o u)
