-- ===== src/Resolver.antt =====
-- The parts of the resolver (neat_resolver_helpers.c).
pub mod Helpers
pub mod Duplicates
mod Examples
pub mod Servers
