-- ===== src/Lib.antt =====
-- Starkbot Neo, a desktop agent that drives a browser and native applications for a person.
--
-- The parts. `crates/jev-nav` is the navigator: a loop that observes a surface, asks a classifier for
-- one decision among the actions on it, puts the decision past a gate, and executes it or stops for
-- the person. `crates/neo-agent` runs it: `screen.rs` gives the keyboard to one process at a time,
-- `confirm.rs` carries a card to the person and the answer back. `crates/neo-store/src/presence.rs`
-- keeps the roster of processes and the lease of the managed browser. The agent's
-- `crates/neo-agent/src/agent/metal.rs` reports a turn: it publishes the answer slice by slice and
-- keeps it in the thread, which `crates/neo-store/src/conversations.rs` stores; a message can be
-- steered into it while it runs. `agent/tools.rs` runs the navigator and asks the person by cards.
-- `crates/neo-core/src/registry.rs` reads the ids of models and says which one a turn is sent to.
-- `crates/neo-tui/src/keys.rs` says what a key does in the terminal, and `state.rs` and `runs.rs`
-- beside it keep the cards, the runs and the answer that the terminal shows.
-- `src-tauri/src/mode_control.rs` asks the desktop's window for a mode and waits for its answer, and
-- `crates/neo-ax/src/deny.rs` says which applications nothing may drive, and
-- `crates/neo-ax/src/table.rs` which elements of a window are offered.
--
-- Common holds what the components share: tests on numbers, lists, text by code points, ordered maps,
-- 64-bit floats and `Result`; Json is serde_json's `Value`.
--
-- Nav models jev-nav. Nav/Rules is rules.rs; Nav/Words is `CONFIRM_WORDS` and `confirm_word` of
-- gate.rs; Nav/Gate is `Gate` with its operations, which return the changed gate; Nav/Decision and
-- Nav/Policy are policy.rs (`action_space`, `build_request`, `resolve`); Nav/Wire is the reading of
-- answers of wire.rs; Nav/Session is the data of lib.rs. Nav/Run is `Navigator::drive` with `run` and
-- `resume`: Nav/Run/Round has one function for each phase of a turn, which goes on with the locals of
-- the loop or stops with an outcome. The observer, the classifier and the text helper are functions on
-- a world of any type, and each call is recorded in its order. The loop runs on fuel, one turn more
-- than the budget of 120 decisions: a turn that does not end the run makes a decision.
--
-- Attend is `drive_with_cards` of `crates/neo-agent/src/agent/tools.rs`, which joins Nav/Run and
-- Cards: Cards/Wait has `confirm` and `ask_user` from their start to their end, over what others do at
-- the desk meanwhile; Attend/Round is one card, Attend/Consent and Attend/Ending are about whole runs.
-- Its loop runs on fuel, a round for each card, over a schedule of what happens at each card: n + 122
-- rounds are enough where nobody answers from the n-th card on, since a confirm costs a decision.
--
-- Screen is `ScreenLease` of one process, over a lock file whose operations are a parameter;
-- Screen/Machine puts many processes over one file, with the laws of `flock`, and lets them die. Cards
-- is `Broker` with `confirm`, `ask_user`, `resolve_confirm`, `answer_ask` and `cancel_ask`, the two
-- that wait cut in two at the wait. Presence is `PresenceRepository` over its two tables, each SQL
-- statement a function on lists of rows, times counted from 0, so that subtraction stops there. Keys
-- is `KeyMap`.
--
-- Thread is `ConversationRepository` over its three tables. Thread/Growth is about the row that a run
-- grows, and Thread/Steps, Thread/Order and Thread/Sound are about what holds of the tables. Turn is
-- `Reporter` with its `Answer` and `Tally`, over those tables: Turn/Usage is `TurnUsage`, Turn/Ops
-- what happens in a turn, Turn/Stored and Turn/Kept are about the store, Turn/Shown is about the
-- slices, and Turn/Agreement about the end of a turn. Term has the parts of the terminal's `State`:
-- Term/Answer is `TurnProgress::delta`, with Term/Reassembly; Term/Card is `Card` with `raise_card`,
-- `clear_card`, `resolve_card` and `answer_option`, over the histories of Term/Arming, with
-- Term/Handling, Term/Watch and Term/Gates on how long a card was read and Term/Queue on the order of
-- the gates; Term/Steered has the rows of the thread, with Term/Moves, Term/Settled, Term/Texts, Term/Told and Term/Shown on
-- them; Term/Runs is runs.rs with `start_run`, `finish_run` and `stop_selected`, Term/Events is
-- `reduce_run`, and Term/Caps is about what is kept. Mode is `ModeControl`, with Mode/Bounds and
-- Mode/Replies. Deny is `crates/neo-ax/src/deny.rs`.
--
-- Steer is `Steering` with `mailbox` of metal.rs, `steer` of agent/mod.rs and the table of live runs
-- of `crates/neo-agent/src/runtime.rs`: Steer/Inboxes says what an operation does, Steer/Delivery what
-- reaches a run, Steer/Answers what the sender is told. Models is registry.rs: Models/Ids and
-- Models/Classify read an id, Models/Resolve is `resolve_latest` and `resolve` with Models/Versions
-- and Models/Newest on what they choose, and Models/Resolved is `resolved_model` of runtime.rs.
--
-- Table is table.rs with `collapse_whitespace` of raw.rs: Table/Spread is `spread`, with
-- Spread/Reserve on its pass one, Spread/Gather and Spread/Rest on its pass two, and Spread/Full and
-- Spread/Kept on both; Table/Rows is how `build_table` shares the rows, and Table/Lines is about the
-- visible text. Pass two goes round the groups as many times as there are positions left, and each
-- round takes one at least. The walk over the window, the ranking of the menus and the fields of a row
-- are not modelled.
--
-- In Thread, Turn, Steer, Table and the streamed answer a text is its bytes, since a flush counts
-- bytes (its code points in Table); elsewhere it is a string. A lock is never poisoned, except the
-- broker's. Pruning the runs and draining the held slices need no fuel beyond the length of their
-- lists.
--
-- Floats are their 64-bit patterns: order is modelled, and arithmetic, `to_string` of serde_json,
-- `char::is_alphanumeric`, `to_uppercase` and the parser of URLs are parameters. `on_task_floor` is an
-- f32, which is read widened. The counter of strikes is a u32 that never passes 2. Timers, latencies
-- and the text of errors are left out. Not modelled: the observers themselves, the HTTP clients, the
-- agent loop, its other tools and its providers, the rest of the store, the other parts of the
-- terminal's state and its drawing, and the rest of the desktop app; they are I/O, or wait for this
-- library to grow.
pub mod Attend
pub mod Cards
pub mod Common
pub mod Deny
pub mod Json
pub mod Keys
pub mod Mode
pub mod Models
pub mod Nav
pub mod Presence
pub mod Screen
pub mod Steer
pub mod Table
pub mod Term
pub mod Tests
pub mod Thread
pub mod Turn
