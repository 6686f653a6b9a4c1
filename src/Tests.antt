-- ===== src/Tests.antt =====
-- Concrete inputs: tests of the definitions, and for each theorem an input at which it applies.
pub mod Fixtures
pub mod Nav
pub mod Attend
pub mod Screen
pub mod Turn
pub mod Steer
pub mod Term
pub mod Shown
pub mod Mode
pub mod Models
pub mod Deny
pub mod Table
pub mod Cards
pub mod Presence
pub mod Keys
