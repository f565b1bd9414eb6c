-- ===== src/Execution/Oms/Approval.antt =====
-- What `OMS.approve` lets through, and that a repeated approval changes nothing.
use rs_quant.Base.{
  ℕ, ◌+◌, ◌≤◌, Bool, true, false, none, some, List, [], ◌∷◌, ◌≡◌, refl, arith, ok, ◌>>=◌, raise_if,
  not, ◌&&◌, ◌||◌, ltb, leb, Bool-cases, inl, inr, if◌then◌else◌, ◌<◌, ◌⊎◌, All, any,
}
use rs_quant.Base.Dict.{lookup, dict_of}
use rs_quant.Base.Int.{ℤ, abs, is_pos, pos_part, neg_part}
use rs_quant.Core.Types.{Ident, OrderInstruction, is_buy, buy, sell}
use rs_quant.Portfolio.State.{LedgerState, signed_position}
use rs_quant.Execution.OrderState.{
  OrderState, OmsState, find_client, reserved_lots, confirmed, is_confirmed,
}
use rs_quant.Execution.Intents.{OrderApproved}
use rs_quant.Execution.Oms.Same.{
  Externals, account_scope_changed, missing_identity, expired_intent, already_consumed,
  unresolved_order, owner_cannot_change, atomic_reversal, same_bool,
}
use rs_quant.Execution.Oms.Change.{OmsChange, change}
use rs_quant.Execution.Oms.Approve.{
  approval_in_scope, is_identified, is_consumed, has_unresolved, owned_by_other, reverses,
  has_active_exit, on_instrument, check_entry, closing_reserved, check_exit, accept, approve_new,
  approve_beside, approve,
}
use rs_quant.Execution.Oms.Ensures.{
  Ensures, Ensures->>=, Ensures-guard, Ensures-raise_if, Ensures-weaken, of_Ensures,
}

-- The conditions of an entry: all orders of the instrument are confirmed, none of them is a closing
-- order that holds lots, the instrument has no other owner, and the position is flat or on the
-- same side.
pub record IsEntry (v : OrderInstruction) (st : OmsState) (ledger : LedgerState) : Type 0 where
  pub confirmed_orders :
      All (λ o. o.instruction.instrument_id ≡ v.instrument_id → o.knowledge ≡ confirmed) st.orders
  pub idle_exits :
      All
        (λ o.
          o.instruction.instrument_id ≡ v.instrument_id
          → o.instruction.reduce_only ≡ true
          → reserved_lots o ≡ 0)
        st.orders
  pub own_instrument :
      (lookup v.instrument_id (dict_of [] st.symbol_owners) ≡ none)
      ⊎ (lookup v.instrument_id (dict_of [] st.symbol_owners) ≡ some v.owner_strategy_id)
  pub long_or_flat : v.side ≡ buy → neg_part (signed_position v.instrument_id ledger) ≡ 0
  pub short_or_flat : v.side ≡ sell → pos_part (signed_position v.instrument_id ledger) ≡ 0

-- The conditions of an exit: it faces the position and fits beside the closing reservations.
pub record IsExit (v : OrderInstruction) (ledger : LedgerState) : Type 0 where
  pub sells_long : v.side ≡ sell → 0 < pos_part (signed_position v.instrument_id ledger)
  pub buys_short : v.side ≡ buy → 0 < neg_part (signed_position v.instrument_id ledger)
  pub fits :
      v.quantity_lots + closing_reserved v.instrument_id ledger.reservations
      ≤ abs (signed_position v.instrument_id ledger)

exit_allowed :
    (v : OrderInstruction) (position : ℤ) (reserved : ℕ)
    → 0 < v.quantity_lots
    → (not (same_bool (not (is_buy v.side)) (is_pos position))
        || ltb (abs position) (v.quantity_lots + reserved))
      ≡ false
    → (v.side ≡ sell → 0 < pos_part position)
      × (v.side ≡ buy → 0 < neg_part position)
      × (v.quantity_lots + reserved ≤ abs position)
exit_allowed v position reserved q g = (λ s. ground arith, λ b. ground arith, ground arith)

check_exit_sound :
    (v : OrderInstruction) (ledger : LedgerState)
    → 0 < v.quantity_lots
    → Ensures (λ _. IsExit v ledger) (check_exit v ledger)
unfolding check_exit
check_exit_sound v ledger q = elim (Bool-cases refused) [
  | inl r ↦ rw r tt
  | inr r ↦
      let (sells, buys, within) = exit_allowed v position reserved q r in
      rw r (record { sells_long = sells; buys_short = buys; fits = within })
]
  where
    position : ℤ
    position = signed_position v.instrument_id ledger

    reserved : ℕ
    reserved = closing_reserved v.instrument_id ledger.reservations

    refused : Bool
    refused =
        not (same_bool (not (is_buy v.side)) (is_pos position))
        || ltb (abs position) (v.quantity_lots + reserved)

All-confirmed :
    (i : Ident) (os : List OrderState)
    → any (λ o. on_instrument i o && not (is_confirmed o.knowledge)) os ≡ false
    → All (λ o. o.instruction.instrument_id ≡ i → o.knowledge ≡ confirmed) os
All-confirmed i [] h = tt
All-confirmed i (o ∷ os) h = (λ e. ground arith, All-confirmed i os (ground arith))

All-idle :
    (i : Ident) (os : List OrderState)
    → any (λ o. on_instrument i o && (o.instruction.reduce_only && ltb 0 (reserved_lots o))) os
      ≡ false
    → All
        (λ o.
          o.instruction.instrument_id ≡ i → o.instruction.reduce_only ≡ true → reserved_lots o ≡ 0)
        os
All-idle i [] h = tt
All-idle i (o ∷ os) h = (λ e r. ground arith, All-idle i os (ground arith))

check_entry_sound :
    (v : OrderInstruction) (st : OmsState) (ledger : LedgerState)
    → Ensures (λ _. IsEntry v st ledger) (check_entry v st ledger)
unfolding check_entry
check_entry_sound v st ledger =
    Ensures-raise_if P (has_unresolved v.instrument_id st) unresolved_order _ (λ g₁.
      Ensures-raise_if P (owned_by_other v st) owner_cannot_change _ (λ g₂.
        Ensures-raise_if P (reverses v position) atomic_reversal _ (λ g₃.
          elim (Bool-cases (has_active_exit v.instrument_id st)) [
            | inl r ↦ rw r tt
            | inr g₄ ↦ rw g₄ (record {
              confirmed_orders = All-confirmed v.instrument_id st.orders g₁;
              idle_exits = All-idle v.instrument_id st.orders g₄;
              own_instrument = ground arith;
              long_or_flat = λ b. ground arith;
              short_or_flat = λ b. ground arith;
            })
          ])))
  where
    position : ℤ
    position = signed_position v.instrument_id ledger

    P : Unit {0} → Type 0
    P _ = IsEntry v st ledger

module _ (py : Externals) (a : OrderApproved) (st : OmsState) (ledger : LedgerState) where
  abbrev IsNewApproval : OmsChange → Type 0
  IsNewApproval _ =
      (is_consumed a.instruction st ≡ false)
      × (a.instruction.reduce_only ≡ true → IsExit a.instruction ledger)
      × (a.instruction.reduce_only ≡ false → IsEntry a.instruction st ledger)

  guarded :
      (exit : Bool)
      → a.instruction.reduce_only ≡ exit
      → 0 < a.instruction.quantity_lots
      → is_consumed a.instruction st ≡ false
      → Ensures IsNewApproval (
          (if exit then check_exit a.instruction ledger else check_entry a.instruction st ledger)
          >>= λ _. ok (change py st (accept a st) none))
  guarded true r q n = Ensures->>= IsNewApproval (check_exit a.instruction ledger) _ (λ u e. (
    n,
    λ _. of_Ensures (λ _. IsExit a.instruction ledger) (check_exit_sound a.instruction ledger q) e,
    λ f. absurd (cc),
  ))
  guarded false r q n = Ensures->>= IsNewApproval (check_entry a.instruction st ledger) _ (λ u e. (
    n,
    λ f. absurd (cc),
    λ _.
        of_Ensures (λ _. IsEntry a.instruction st ledger)
          (check_entry_sound a.instruction st ledger) e,
  ))

  approve_new_sound :
      0 < a.instruction.quantity_lots → Ensures IsNewApproval (approve_new py a st ledger)
  unfolding approve_new
  approve_new_sound q =
      Ensures-raise_if IsNewApproval (is_consumed a.instruction st) already_consumed _
        (λ n. guarded a.instruction.reduce_only refl q n)

-- An approval of a positive quantity under a new client identity that goes through comes before its
-- expiry, and its instruction and intent are not consumed. An exit faces the position and, together with
-- all closing reservations of the instrument, never exceeds it; an entry meets no unresolved
-- order, no closing order that holds lots, no other owner and no position on the other side.
pub approve_sound :
    (py : Externals) (a : OrderApproved) (st : OmsState) (ledger : LedgerState) (t : ℕ)
    (c : OmsChange)
    → 0 < a.instruction.quantity_lots
    → find_client a.instruction.client_order_id st.orders ≡ none
    → approve py a st ledger t ≡ ok c
    → (t < a.instruction.expires_at_ns)
      × (is_consumed a.instruction st ≡ false)
      × (a.instruction.reduce_only ≡ true → IsExit a.instruction ledger)
      × (a.instruction.reduce_only ≡ false → IsEntry a.instruction st ledger)
unfolding approve approve_beside
approve_sound py a st ledger t c q new e =
    of_Ensures P
      (Ensures-guard P
        (raise_if (not (approval_in_scope py a.instruction st ledger)) account_scope_changed) _
        (Ensures-guard P (raise_if (not (is_identified a.instruction)) missing_identity) _ (
          Ensures-raise_if P (leb a.instruction.expires_at_ns t) expired_intent _ (λ g. rw new (
            Ensures-weaken (IsNewApproval py a st ledger) P (approve_new py a st ledger)
              (λ c' n. (ground arith, n.0, n.1, n.2)) (approve_new_sound py a st ledger q))))))
      e
  where
    P : OmsChange → Type 0
    P _ =
        (t < a.instruction.expires_at_ns)
        × (is_consumed a.instruction st ≡ false)
        × (a.instruction.reduce_only ≡ true → IsExit a.instruction ledger)
        × (a.instruction.reduce_only ≡ false → IsEntry a.instruction st ledger)
