-- ===== src/Keys.antt =====
-- crates/neo-tui/src/keys.rs: the binding table. A key is what crossterm reports of it (a character
-- by its code point), and the state is what the table reads of it.
pub mod State
pub mod Lists
pub mod Panes
pub mod Resolve
pub mod Guards
