-- ===== src/Models.antt =====
-- crates/neo-core/src/registry.rs with `resolved_model`: the ids of models, and
-- what they resolve to.
pub mod Ids
pub mod Classify
pub mod Resolve
pub mod Versions
pub mod Newest
pub mod Resolved
