-- ===== src/Tests/Shown.antt =====
-- crates/neo-tui/src/state.rs: a thread into which a message is steered.
use starkbot_neo.Common.{◌≡◌, refl, true, List, [], ◌∷◌}
use starkbot_neo.Thread.{user, system, text}
use starkbot_neo.Term.Steered.{Stored, push_steered, on_turn_steered, on_message, steer_missed}
use starkbot_neo.Term.Shown.{Op, steers, hears, records, misses, perform_all, no_rows}

abbrev stop_row : Stored
stop_row = record { id = 9; role = user; kind = text; at = 70; text = "stop" }

abbrev setup_row : Stored
setup_row = record { id = 10; role = system; kind = text; at = 71; text = "stop" }

-- Steered twice, recorded once, and missed once.
abbrev steered_twice : List Op
steered_twice =
    steers 1 5 "stop"
    ∷ steers 2 6 "stop"
    ∷ records stop_row
    ∷ hears 3 7 "stop"
    ∷ records setup_row
    ∷ misses "stop"
    ∷ []

one_row : perform_all steered_twice no_rows ≡ record {
  thread = record { id = 9; role = user; kind = text; at = 70; text = "stop"; steered = true } ∷ [];
  pending_steers = [];
}
unfolding push_steered on_turn_steered on_message steer_missed
one_row = refl
