-- ===== src/Policy.antt =====
-- crates/donkeyspace-core/src/policy.rs: what a repository allows the agents to do. Reading the
-- policy from YAML and its version migration are left out.
mod Tests
pub mod Engagement
pub mod Labels
pub mod PathPattern
pub mod Risk
