-- ===== src/Nav/Policy.antt =====
-- crates/jev-nav/src/policy.rs: the space of offered actions, the questions of one request, and
-- the answers read back into one decision. The children have the two halves.
pub mod Space
pub mod Request
pub mod Offered
