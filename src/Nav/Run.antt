-- ===== src/Nav/Run.antt =====
-- crates/jev-nav/src/lib.rs: the loop of one run. `Surface` reads observations, `Effects` makes the
-- calls, `Round` is one turn of the loop, `Drive` the loop with its two entries.
pub mod Surface
pub mod Effects
pub mod Round
pub mod Drive
pub mod Calls
pub mod Pace
pub mod Budget
pub mod Trace
pub mod Safety
pub mod Approval
pub mod Held
