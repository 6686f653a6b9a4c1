-- ===== src/Term.antt =====
-- crates/neo-tui/src/state.rs and runs.rs: the parts of the terminal's state.
pub mod Answer
pub mod Reassembly
pub mod Card
pub mod Arming
pub mod Handling
pub mod Watch
pub mod Gates
pub mod Queue
pub mod Runs
pub mod Events
pub mod Caps
pub mod Steered
pub mod Moves
pub mod Settled
pub mod Texts
pub mod Told
pub mod Shown
