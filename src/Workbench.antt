-- ===== src/Workbench.antt =====
-- workbench/: the research Workbench's state stores, its dispatcher and its selection rules.
pub mod Attempts
pub mod Egress
pub mod Dispatch
mod Tests
pub mod Broker
pub mod Selection
pub mod Gates
pub mod Cmc
pub mod Truth
mod PartTests
mod BrokerTests
mod SelectionTests
mod TruthTests
mod GateTests
