-- ===== src/Samples.antt =====
-- The theorems at concrete inputs.
pub mod Graphs
pub mod Resources
pub mod Catalogs
pub mod Minions
pub mod Commands
pub mod Locals
pub mod Running
pub mod Trees
pub mod Containers
pub mod Services
pub mod Vcenters
