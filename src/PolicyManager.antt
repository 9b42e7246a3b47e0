-- ===== src/PolicyManager.antt =====
-- The policy manager (policy_manager).
pub mod Node
pub mod Merge
pub mod Pib
pub mod Cib
pub mod Ranking
pub mod Collect
pub mod Expand
mod Sample
mod Examples
