-- ===== src/Vm.antt =====
-- The parts of src/app/vm/VMManager.cpp that do not call the management service.
pub mod Poll
pub mod Interval
pub mod AdapterRows
pub mod Adapters
pub mod Pending
pub mod Texts
pub mod Snapshots
