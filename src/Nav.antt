-- ===== src/Nav.antt =====
-- crates/jev-nav: the navigator's loop over one surface, its gate and its decisions.
pub mod Rules
pub mod Externals
pub mod Decision
pub mod Words
pub mod Wire
pub mod Policy
pub mod Session
pub mod Run
pub mod Gate
