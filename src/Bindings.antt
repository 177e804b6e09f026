-- ===== src/Bindings.antt =====
-- The implementations of the trait `LightningNode` over real nodes: simln-lib/src/lnd.rs, cln.rs,
-- eclair.rs and ldk_server.rs. What a node answers over its RPC interface is an argument of the
-- definitions, `none` standing for a call that fails.
pub mod Texts
pub mod Types
pub mod Flags
pub mod Lnd
pub mod Cln
pub mod Eclair
pub mod LdkServer
pub mod Features
pub mod Connections
pub mod Capacities
pub mod Sending
pub mod Graphs
pub mod Tracking
mod Tests
