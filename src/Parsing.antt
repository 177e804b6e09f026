-- ===== src/Parsing.antt =====
-- The command line and the simulation file (sim-cli/src/parsing.rs).
pub mod Options
pub mod Serializers
pub mod Clients
pub mod Activities
pub mod Resolution
pub mod Validated
pub mod Tests
pub mod Networks
