-- ===== src/Execution/Oms.antt =====
-- src/quantdesk/execution/oms.py. `Lookup` finds and replaces orders and commands, `Link` is
-- `_link_and_project`, `Reports` and `Commands` are the branches of `OMS.apply`, `Apply` puts them
-- together, `Approve` authorises, `Change` is `_change`; the other children prove.
pub mod Same
pub mod Lookup
pub mod Link
pub mod Reports
pub mod Commands
pub mod Change
pub mod Apply
pub mod Approve
pub mod Ensures
pub mod Orders
pub mod Advance
pub mod Dispatch
pub mod Lots
pub mod Approval
