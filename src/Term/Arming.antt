-- ===== src/Term/Arming.antt =====
-- crates/neo-tui/src/state.rs: how long a gate was on the screen before a key resolves it.
use starkbot_neo.Common.{
  ℕ, ◌≤◌, ◌≡◌, ◌≢◌, String, Bool, true, false, Option, none, some, List, [], ◌∷◌,
}
use starkbot_neo.Cards.{ConfirmView, AskView}
use starkbot_neo.Term.Card.{
  confirm, ask, Card, Command, resolve_confirm, answer_ask, State, normal, of_confirm, of_ask,
  is_confirm, is_ask, tick, painted, raise_card, clear_card, resolve_card, answer_option,
  move_option,
}

-- What reaches the state: the clock, the renderer's reports, the core's events and the keys.
pub data Op : Type 0 where
  ticks : ℕ → Op
  paints : Bool → Op
  asks_confirm : ConfirmView → Op
  asks : AskView → Op
  settles_confirm : String → Op
  settles_ask : String → Op
  resolves : Bool → Op
  picks : ℕ → Op
  moves : Bool → ℕ → Op

unfoldable pub perform : Op → State → State
perform (ticks now) s = tick now s
perform (paints on_screen) s = painted on_screen s
perform (asks_confirm v) s = raise_card (of_confirm v) s
perform (asks v) s = raise_card (of_ask v) s
perform (settles_confirm id) s = clear_card (is_confirm id) s
perform (settles_ask id) s = clear_card (is_ask id) s
perform (resolves approve) s = (resolve_card approve s).1
perform (picks option) s = (answer_option option s).1
perform (moves down by) s = move_option down by s

abbrev pub blank : State
blank = record { card = none; queued_cards = []; mode = normal; now_ms = 0; prompt = none }

-- The state after a history, whose newest step stands first.
abbrev pub after : List Op → State
after [] = blank
after (op ∷ past) = perform op (after past)

-- The clock never goes back.
abbrev pub IsRising : List Op → Type 0
IsRising [] = Unit
IsRising (ticks now ∷ past) = ((after past).now_ms ≤ now) × IsRising past
IsRising (_ ∷ past) = IsRising past

pub data Gate : Type 0 where
  confirm_gate : String → Gate
  ask_gate : String → Gate

unfoldable pub gate : Card → Gate
gate c = elim c.kind [ confirm id task ↦ confirm_gate id | ask id task options n ↦ ask_gate id ]

-- The gate on the screen.
abbrev pub on_screen : State → Option Gate
on_screen s = elim s.card [ none ↦ none | some c ↦ some (gate c) ]

-- The gate was painted at time `t`, and since then each step left it on the screen and no frame was
-- without its sentence.
pub data Watched (g : Gate) : List Op → ℕ → Type 0 where
  sighted :
      {past : List Op}
      → on_screen (after past) ≡ some g
      → Watched g (paints true ∷ past) (after past).now_ms
  watched :
      {op : Op} {past : List Op} {t : ℕ}
      → op ≢ paints false
      → on_screen (after (op ∷ past)) ≡ some g
      → Watched g past t
      → Watched g (op ∷ past) t

abbrev pub addressed : Command → Gate
addressed (resolve_confirm id outcome) = confirm_gate id
addressed (answer_ask id answer) = ask_gate id
