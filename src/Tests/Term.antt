-- ===== src/Tests/Term.antt =====
-- crates/neo-tui/src/state.rs and runs.rs: a gate that is asked for, read and approved, and runs.
use starkbot_neo.Common.{
  ℕ, zero, suc, ◌+◌, ◌<◌, ◌≤◌, ◌≡◌, refl, true, false, none, some, List, [], ◌∷◌, arith,
}
use starkbot_neo.Common.Lists.{All}
use starkbot_neo.Common.Result.{ok}
use starkbot_neo.Cards.{confirmed, ConfirmView}
use starkbot_neo.Term.Answer.{Bytes, blank, deltas}
use starkbot_neo.Term.Reassembly.{spoken, came, deltas-spoken}
use starkbot_neo.Term.Card.{
  resolve_confirm, raise_card, paint, painted, arm, tick, resolve_card, live, card_arm_ms,
}
use starkbot_neo.Term.Arming.{
  Op, ticks, paints, asks_confirm, resolves, perform, after, on_screen, Watched, addressed,
  IsRising,
}
use starkbot_neo.Term.Gates.{command, command-Watched}
use starkbot_neo.Term.Queue.{gates, waiting, gates-waiting}
use starkbot_neo.Term.Runs.{State, chat}
use starkbot_neo.Term.Events.{turn_note}
use starkbot_neo.Term.Caps
use starkbot_neo.Term.Caps.{
  IsCapped, perform_all, starts, reduces, stops, finishes, start_run-capped, perform_all-IsCapped,
}

-- "H", and then "i" over and over.
abbrev say : ℕ → Bytes
say zero = 72 ∷ []
say (suc n) = 105 ∷ []

abbrev scrambled : List (ℕ × Bytes)
scrambled = (1, 105 ∷ []) ∷ (3, 105 ∷ []) ∷ (0, 72 ∷ []) ∷ (1, 105 ∷ []) ∷ []

deltas-spoken_example :
    let p = deltas scrambled blank in
    (p.answer ≡ spoken say p.next_seq)
    × ((m : ℕ) → m < p.next_seq → came m scrambled ≡ true)
    × (came p.next_seq scrambled ≡ false)
deltas-spoken_example =
    deltas-spoken say scrambled
      ((refl, omega arith), ((refl, omega arith), ((refl, omega arith), ((refl, omega arith), tt))))

abbrev view : ConfirmView
view = record {
  id = "g1";
  task_id = "t1";
  cause = "safety:spends";
  action_sentence = "Pay 12 EUR";
  context = none;
  can_remember = false;
  expires_at = 600000;
}

-- The newest step first: the gate comes, is painted at 100, and is read until 800.
abbrev history : List Op
history = ticks 800 ∷ paints true ∷ ticks 300 ∷ paints true ∷ ticks 100 ∷ asks_confirm view ∷ []

approved : command (resolves true) (after history) ≡ some (resolve_confirm "g1" confirmed)
unfolding perform raise_card painted paint tick arm resolve_card live
approved = refl

rising : IsRising history
unfolding perform raise_card painted paint tick arm
rising = (omega arith, (omega arith, (omega arith, tt)))

command-Watched_example :
    (t : ℕ) × (on_screen (after history) ≡ some (addressed (resolve_confirm "g1" confirmed)))
    × Watched (addressed (resolve_confirm "g1" confirmed)) history t
    × (t + card_arm_ms ≤ (after history).now_ms)
command-Watched_example =
    command-Watched (resolves true) history (resolve_confirm "g1" confirmed) rising approved

gates-waiting_example : gates (after history) ≡ waiting history
gates-waiting_example = gates-waiting history

abbrev idle : State
idle = record { runs = []; selected_run = none; follow = true; now_ms = 5; turn = none }

abbrev busy : List Caps.Op
busy =
    starts 1 chat "hello" ∷ reduces 1 (turn_note "looking") ∷ stops ∷ finishes 1 [] (ok "done") ∷ []

perform_all-IsCapped_example : All IsCapped (perform_all busy idle).runs
perform_all-IsCapped_example = perform_all-IsCapped busy idle tt
