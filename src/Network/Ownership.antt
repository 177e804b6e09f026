-- ===== src/Network/Ownership.antt =====
-- Which HTLC belongs to which task of simln-lib/src/sim_node.rs. A task owns the HTLCs that it has
-- added and not yet removed; the children compare them with what is in flight on the channels.
pub mod Present
pub mod Held
pub mod Owners
pub mod Steps
pub mod Totals
pub mod Runs
mod Tests
