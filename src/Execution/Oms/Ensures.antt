-- ===== src/Execution/Oms/Ensures.antt =====
-- The state that an outcome holds.
use rs_quant.Execution.OrderState.{OmsState}
use rs_quant.Execution.Oms.Reports.{Outcome, returned, candidate}
pub use rs_quant.Base.Ensures.{
  Ensures, Ensures->>=, Ensures-guard, Ensures-if, Ensures-weaken, of_Ensures, if-ok,
  Ensures-raise_if, or_raise-ok,
}

abbrev pub state_of : Outcome → OmsState
state_of (returned st) = st
state_of (candidate st) = st
