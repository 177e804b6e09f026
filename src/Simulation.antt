-- ===== src/Simulation.antt =====
-- The simulation of simln-lib/src/lib.rs: its events, its results and its validation, with the
-- generator of defined activity (simln-lib/src/defined_activity.rs) and the batched writer
-- (simln-lib/src/batched_writer.rs).
pub mod Types
pub mod Events
pub mod Executors
pub mod Counts
pub mod Completion
pub mod Setup
pub mod Defined
pub mod Validation
pub mod Clock
pub mod Running
pub mod Shutdown
pub mod Random
pub mod Eligible
pub mod Tests
pub mod Results
pub mod Payments
pub mod Reports
pub mod Consumption
