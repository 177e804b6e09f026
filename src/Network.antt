-- ===== src/Network.antt =====
-- The simulated network of simln-lib/src/sim_node.rs: interceptors, the passage of a payment over
-- the channels of its route, and the graph that dispatches payments.
pub mod Types
pub mod Intercept
pub mod Merging
pub mod Passing
pub mod Htlcs
pub mod Payment
pub mod Validity
pub mod Interleaving
pub mod Safety
pub mod Ownership
pub mod Legs
pub mod Settling
pub mod Locking
pub mod Progress
pub mod Atomicity
pub mod Graph
pub mod Node
pub mod Routing
pub mod Latency
pub mod Tracking
pub mod Capacities
pub mod Lookup
pub mod Samples
mod Tests
