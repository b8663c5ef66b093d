-- ===== src/Charter.antt =====
-- agent/charter_requests.py, agent/charter_approval.py and agent/charter_response_guard.py: the
-- executor-only path of the charter requests, from the catalogue to the sealed receipt.
pub mod Spec
mod Fixtures
mod Tests
mod PartTests
mod ReceiptTests
pub mod Approval
pub mod Store
pub mod Guard
pub mod Execute
pub mod Reconcile
pub mod Receipt
