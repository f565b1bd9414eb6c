-- ===== src/Execution/Oms/Advance/Commands.antt =====
-- The branches for the commands advance the orders.
use rs_quant.Base.{
  Bool, true, false, Option, none, some, List, ◌≡◌, refl, sym, arith, ok, raise, ◌>>=◌, or_raise,
  raise_if, is_some, ◌&&◌, ◌||◌, not, keep, find, ltb, length, if◌then◌else◌, ◌==◌,
}
use mathlib.Core.Path.{subst}
use rs_quant.Core.Types.{Ident, truthy, SubmitTransportResult, CancelTransportResult}
use rs_quant.Execution.OrderState.{
  OrderState, OmsState, CommandState, CommandStatus, CancelRequested, Lifecycle, is_terminal,
  cancel, idle, is_cancel, is_order, uncertain, client_id, command_id, command_client, find_client,
  is_unsettled,
}
use rs_quant.Execution.Intents.{AbortReason}
use rs_quant.Execution.Oms.Same.{
  Externals, stop_iteration, dispatch_retry, cannot_abort_sent, cancel_identity_reused,
  cancel_response_mismatch,
}
use rs_quant.Execution.Oms.Lookup.{find_order, put_order, command_status, changes_scope}
use rs_quant.Execution.Oms.Reports.{returned, candidate}
use rs_quant.Execution.Oms.Commands.{
  find_command, order_of, submit_result, submit_branch, add_command, cancel_new, cancel_branch,
  is_same_request, is_cancel_of, last_of, is_answered, cancel_answer, cancel_correlated,
  cancel_uncorrelated, cancel_result_branch, is_pending, dispatch_branch, is_unsent, abort_status,
  abort_lifecycle, aborted_order, settle_cancels, abort_branch,
}
use rs_quant.Execution.Oms.Orders.{HasKeys, Advances, Evolves, Evolves-refl}
use rs_quant.Execution.Oms.Ensures.{Ensures, Ensures->>=, Ensures-guard, Ensures-if}
use rs_quant.Execution.Oms.Advance.Rules.{
  find_order-fits, Kept, KeptBy, order_of-found, put_order-Kept, command_status-orders,
}
use rs_quant.Execution.Oms.Advance.Reports.{venue_kept}

-- `o` stands among the orders under its identity
abbrev IsThere : OmsState → OrderState → Type 0
IsThere st o = find_client (client_id o) st.orders ≡ some o

-- A command changes its status, and an order that is there advances.
status_then_put :
    (st : OmsState) (i : Ident) (s : CommandStatus) (a : Option Ident) (o o' : OrderState)
    → HasKeys st.orders
    → IsThere st o
    → Advances o o'
    → Ensures (KeptBy st) (command_status st i s a >>= λ next. ok (candidate (put_order next o')))
status_then_put st i s a o o' h here adv =
    Ensures->>= (KeptBy st) (command_status st i s a) (λ next. ok (candidate (put_order next o')))
      (λ next e. put_order-Kept st next o o' h (command_status-orders st next i s a e) here adv)

unchanged : (st : OmsState) → HasKeys st.orders → Kept st st
unchanged st h = (h, Evolves-refl st.orders)

pub dispatch_branch-Kept :
    (i attempt : Ident) (st : OmsState)
    → HasKeys st.orders
    → Ensures (KeptBy st) (dispatch_branch i attempt st)
unfolding dispatch_branch
dispatch_branch-Kept i attempt st h = Ensures->>= (KeptBy st) (find_command i st) _ (λ c _.
    Ensures->>= (KeptBy st) (order_of (command_client c) st) _ (λ o e.
      Ensures-guard (KeptBy st)
        (raise_if (not (is_pending c.status) || not (truthy attempt)) dispatch_retry)
        (command_status st i CommandStatus.unknown (some attempt) >>= _)
        (status_then_put st i CommandStatus.unknown (some attempt) o
          (record o { knowledge = uncertain; transport_started = true }) h
          (order_of-found (command_client c) st o e) (ground arith))))

submit_result-Kept :
    (p : SubmitTransportResult) (i : Option Ident) (st : OmsState) (o : OrderState)
    → HasKeys st.orders
    → IsThere st o
    → changes_scope p.venue_order_id i o ≡ false
    → Ensures (KeptBy st) (submit_result p st o)
unfolding submit_result
submit_result-Kept p i st o h here fits =
    status_then_put st p.instruction_id _ none o _ h here (record {
      keeps_instruction = refl;
      keeps_cash = refl;
      keeps_fee = refl;
      keeps_venue = venue_kept p.venue_order_id i o fits;
      stays_ended = λ t. ground arith;
      fills_grow = omega arith;
      stays_started = λ t. refl;
    })

module _ (py : Externals) where
  pub submit_branch-Kept :
      (p : SubmitTransportResult) (st : OmsState)
      → HasKeys st.orders
      → Ensures (KeptBy st) (submit_branch py p st)
  unfolding submit_branch
  submit_branch-Kept p st h = Ensures->>= (KeptBy st) (find_command p.instruction_id st) _ (λ c _.
      Ensures->>= (KeptBy st) (order_of (command_client c) st) _ (λ o e.
        let here = order_of-found (command_client c) st o e in
        let instrument = some o.instruction.instrument_id in
        Ensures->>= (KeptBy st) (find_order py st (some (client_id o)) p.venue_order_id instrument)
          _
          (λ f ef.
            Ensures-if (KeptBy st) (is_unsettled c.status) (submit_result p st o) (ok (returned st))
              (submit_result-Kept p instrument st o h here
                (find_order-fits py st p.venue_order_id instrument o f here ef))
              (unchanged st h))))

cancel_new-Kept :
    (p : CancelRequested) (st : OmsState) (o : OrderState)
    → HasKeys st.orders
    → IsThere st o
    → Ensures (KeptBy st) (cancel_new p st o)
unfolding cancel_new
cancel_new-Kept p st o h here =
    Ensures-if (KeptBy st) (is_terminal o.lifecycle || is_cancel o.pending) (ok (returned st)) _
      (unchanged st h)
      (Ensures-if (KeptBy st) o.transport_started (ok (candidate (put_order (add_command p st) _)))
        _
        (put_order-Kept st (add_command p st) o (record o { pending = cancel }) h refl here
          (ground arith))
        (status_then_put st o.instruction.instruction_id CommandStatus.canceled none o
          (record o { lifecycle = Lifecycle.canceled; pending = idle }) h here (ground arith)))

after_search :
    (p : CancelRequested) (st : OmsState) (o : OrderState)
    → HasKeys st.orders
    → IsThere st o
    → (found : Option CommandState)
    → Ensures (KeptBy st) (elim found [
      | some c ↦ (if is_same_request p c then ok (returned st) else raise cancel_identity_reused)
      | none ↦ cancel_new p st o
    ])
after_search p st o h here none = cancel_new-Kept p st o h here
after_search p st o h here (some c) =
    Ensures-if (KeptBy st) (is_same_request p c) (ok (returned st)) (raise cancel_identity_reused)
      (unchanged st h) tt

pub cancel_branch-Kept :
    (p : CancelRequested) (st : OmsState)
    → HasKeys st.orders
    → Ensures (KeptBy st) (cancel_branch p st)
unfolding cancel_branch
cancel_branch-Kept p st h = Ensures->>= (KeptBy st) (order_of p.client_order_id st) _ (λ o e.
    after_search p st o h (order_of-found p.client_order_id st o e)
      (find (λ c. command_id c == p.instruction_id) st.commands))

cancel_answer-Kept :
    (p : CancelTransportResult) (st : OmsState) (o : OrderState) (attempts : List CommandState)
    → HasKeys st.orders
    → IsThere st o
    → Ensures (KeptBy st) (cancel_answer p st o attempts)
unfolding cancel_answer
cancel_answer-Kept p st o attempts h here =
    Ensures->>= (KeptBy st) (or_raise (last_of attempts) stop_iteration) _
      (λ newest _. status_then_put st (command_id newest) _ none o _ h here (ground arith))

cancel_uncorrelated-Kept :
    (st : OmsState) (attempts : List CommandState)
    → HasKeys st.orders
    → Ensures (KeptBy st) (cancel_uncorrelated st attempts)
unfolding cancel_uncorrelated
cancel_uncorrelated-Kept st attempts h =
    Ensures->>= (KeptBy st) (or_raise (last_of attempts) stop_iteration) _ (λ newest _.
      Ensures->>= (KeptBy st) (command_status st (command_id newest) CommandStatus.unknown none) _
        (λ next e.
          subst (λ xs. HasKeys xs × Evolves st.orders xs)
            (sym (command_status-orders st next (command_id newest) CommandStatus.unknown none e))
            (unchanged st h)))

cancel_correlated-Kept :
    (attempt : Option Ident) (p : CancelTransportResult) (st : OmsState) (o : OrderState)
    (attempts : List CommandState)
    → HasKeys st.orders
    → IsThere st o
    → Ensures (KeptBy st) (cancel_correlated attempt p st o attempts)
unfolding cancel_correlated
cancel_correlated-Kept none p st o attempts h here = cancel_answer-Kept p st o attempts h here
cancel_correlated-Kept (some i) p st o attempts h here =
    Ensures->>= (KeptBy st)
      (or_raise (find (λ c. command_id c == i) attempts) cancel_response_mismatch) _
      (λ matched _.
        Ensures-if (KeptBy st) (is_answered matched.status) (ok (returned st))
          (cancel_answer p st o attempts) (unchanged st h)
          (cancel_answer-Kept p st o attempts h here))

pub cancel_result_branch-Kept :
    (attempt : Option Ident) (p : CancelTransportResult) (st : OmsState)
    → HasKeys st.orders
    → Ensures (KeptBy st) (cancel_result_branch attempt p st)
unfolding cancel_result_branch
cancel_result_branch-Kept attempt p st h =
    let attempts = keep (is_cancel_of p.client_order_id) st.commands in
    Ensures->>= (KeptBy st) (order_of p.client_order_id st) _ (λ o e.
      Ensures-if (KeptBy st) (not (is_cancel o.pending)) (ok (returned st)) _ (unchanged st h) (
        Ensures-if (KeptBy st) (not (is_some attempt) && ltb 1 (length attempts))
          (cancel_uncorrelated st attempts) (cancel_correlated attempt p st o attempts)
          (cancel_uncorrelated-Kept st attempts h)
          (cancel_correlated-Kept attempt p st o attempts h
            (order_of-found p.client_order_id st o e))))

aborted_order-Advances :
    (reason : AbortReason) (ordered : Bool) (o : OrderState)
    → Advances o (aborted_order reason ordered o)
aborted_order-Advances reason true o = record {
  keeps_instruction = refl;
  keeps_cash = refl;
  keeps_fee = refl;
  keeps_venue = λ t. refl;
  stays_ended = λ t. abort_ends reason;
  fills_grow = omega arith;
  stays_started = λ t. t;
}
  where
    abort_ends : (reason : AbortReason) → is_terminal (abort_lifecycle reason) ≡ true
    abort_ends AbortReason.expired = refl
    abort_ends AbortReason.canceled = refl
    abort_ends AbortReason.invalidated = refl
aborted_order-Advances reason false o = ground arith

settle_cancels-Kept :
    (st : OmsState) (ordered : Bool) (client : Ident) (next : OmsState)
    → Kept st next
    → Kept st (settle_cancels ordered client next)
unfolding settle_cancels
settle_cancels-Kept st true client next k = k
settle_cancels-Kept st false client next k = k

pub abort_branch-Kept :
    (i : Ident) (reason : AbortReason) (st : OmsState)
    → HasKeys st.orders
    → Ensures (KeptBy st) (abort_branch i reason st)
unfolding abort_branch
abort_branch-Kept i reason st h = Ensures->>= (KeptBy st) (find_command i st) _ (λ c _.
    Ensures->>= (KeptBy st) (order_of (command_client c) st) _ (λ o e.
      let ordered = is_order c.instruction in
      let status = abort_status reason ordered in
      let o' = aborted_order reason ordered o in
      Ensures-guard (KeptBy st) (raise_if (not (is_unsent c.status)) cannot_abort_sent)
        (command_status st i status none >>= _)
        (Ensures->>= (KeptBy st) (command_status st i status none) _ (λ next en.
          settle_cancels-Kept st ordered (client_id o) (put_order next o') (
            put_order-Kept st next o o' h (command_status-orders st next i status none en)
              (order_of-found (command_client c) st o e)
              (aborted_order-Advances reason ordered o))))))
