-- ===== src/Execution/Permits/Tests.antt =====
-- The theorem on dispatch permits at a cancellation.
use rs_quant.Base.{ℕ, ◌≡◌, refl, true, false, some, List, [], ◌∷◌, ok, raise}
use rs_quant.Execution.OrderState.{GatewayInstruction, cancel_order}
use rs_quant.Execution.Permits.{
  DispatchRow, DispatchPermit, DispatchError, OutboxStatus, Readings, new_authority, consume,
}
use rs_quant.Execution.Permits.Once

-- A cancellation is granted and consumed; its permit is of no use again.
abbrev cancel_row : DispatchRow
cancel_row = record {
  instruction_id = 4;
  payload_hash = 44;
  risk_version = 5;
  fence_epoch = 1;
  expires_at = 100;
}

abbrev cancellation : GatewayInstruction
cancellation = cancel_order (record {
  instruction_id = 4;
  client_order_id = 3;
  expires_at_ns = 100;
  risk_version = 5;
  gateway_fence = 1;
})

abbrev readings : OutboxStatus → Readings
readings first = record {
  decoded = ok cancellation;
  checked = ok (record {
    risk_version = 5;
    latch_version = 6;
    entries_allowed = false;
    reconciled = true;
    recovery_reductions_allowed = false;
  });
  status = some first;
  status_after = some OutboxStatus.unknown;
  commits = true;
}

abbrev cancel_permit : DispatchPermit
cancel_permit = record {
  object = 1;
  instruction_id = 4;
  instruction_hash = 44;
  expires_at_ns = 100;
  risk_version = 5;
  latch_version = 6;
  fence_epoch = 1;
  attempt_id = 1;
}

abbrev granted : List Once.Call
granted = Once.grant_call (readings OutboxStatus.pending) cancel_row ∷ []

abbrev number : ℕ → ℕ → ℕ
number n id = n

consumed :
    (consume
      (readings OutboxStatus.unknown)
      cancel_permit
      cancel_row
      (Once.run number new_authority granted)).1
    ≡ ok cancellation
unfolding consume Once.run
consumed = refl

consume_once_example :
    (consume (readings OutboxStatus.unknown) cancel_permit cancel_row (
      Once.run number
        (Once.run number new_authority granted)
        (Once.consume_call (readings OutboxStatus.unknown) cancel_permit cancel_row ∷ granted))).1
    ≡ raise DispatchError.unissued_permit
consume_once_example =
    Once.consume_once number (λ a. a) (λ n id. refl) granted granted (readings OutboxStatus.unknown)
      (readings OutboxStatus.unknown) cancel_permit cancel_permit cancel_row cancel_row
      {i = cancellation} consumed refl
