-- ===== src/Keys/Resolve.antt =====
-- crates/neo-tui/src/keys.rs, `KeyMap`: the whole table.
use starkbot_neo.Common.{Bool, true, false, ◌||◌, Option, none, some}
use starkbot_neo.Common.Tests.{◌==◌, if◌then◌else◌}
use starkbot_neo.Keys.State.{
  Action, nothing, KeyCode, char, enter, esc, KeyEvent, State, insert, command, settings, panes,
  kill_switch, quit, redraw, confirm_quit, cancel_quit, toggle_help, session_next, session_previous,
  select_next, select_previous,
}
use starkbot_neo.Keys.Lists.{session_key, login_key, prompt_key, card_key, line_key}
use starkbot_neo.Keys.Panes.{insert_key, settings_key, normal_key}

abbrev pub is_some {ℓ} : {A : Type ℓ} → Option A → Bool
is_some none = false
is_some (some a) = true

-- One notch of the wheel.
unfoldable pub wheel : Bool → State → Action
wheel turned_up s =
    if is_some s.card || is_some s.login || s.prompt || s.help
    then nothing
    else if s.sessions
    then (if turned_up then session_previous else session_next)
    else if turned_up
    then select_previous
    else select_next

-- The keys that are reachable in every mode.
unfoldable pub global_key : KeyCode → Option Action
global_key (char c) =
    if c == b'c'
    then some kill_switch
    else if c == b'q'
    then some quit
    else if c == b'l'
    then some redraw
    else none
global_key _ = none

abbrev pub quit_key : KeyCode → Action
quit_key esc = cancel_quit
quit_key (char c) =
    if c == b'y' then confirm_quit else if c == b'n' || c == b'q' then cancel_quit else nothing
quit_key _ = nothing

abbrev pub help_key : KeyCode → Action
help_key esc = toggle_help
help_key enter = toggle_help
help_key (char c) = if c == b'?' || c == b'q' then toggle_help else nothing
help_key _ = nothing

-- The table behind the overlays.
unfoldable pub mode_key : KeyEvent → State → Action
mode_key key s = elim s.mode [
  | command ↦ line_key key.code key.control
  | insert ↦ insert_key key.code key.control key.alt s
  | _ ↦ elim s.view [
    | settings ↦ settings_key key.code key.control s
    | panes ↦ normal_key key.code key.control s
  ]
]

-- The table behind the keys that are always reachable.
unfoldable pub overlay_key : KeyEvent → State → Action
overlay_key key s = if s.prompt then prompt_key key.code key.control else elim s.login [
  | some pasting ↦ login_key key.code key.control pasting
  | none ↦
      if s.quit_prompt
      then quit_key key.code
      else if s.help
      then help_key key.code
      else if s.sessions
      then session_key key.code key.control
      else elim s.card [ some card ↦ card_key key.code card | none ↦ mode_key key s ]
]

unfoldable pub resolve : KeyEvent → State → Action
resolve key s =
    if key.is_release then nothing else elim (if key.control then global_key key.code else none) [
      | some a ↦ a
      | none ↦ overlay_key key s
    ]
