-- ===== src/Keys/Guards.antt =====
-- crates/neo-tui/src/keys.rs: the rules that the table keeps.
use starkbot_neo.Common.{
  ℕ, ◌≡◌, ◌≢◌, refl, ap, ◌↔◌, inl, inr, Bool, true, false, Option, none, some, arith,
}
use starkbot_neo.Common.Tests.{Option-cases, if◌then◌else◌}
use starkbot_neo.Json.{or_else}
use starkbot_neo.Keys.State.{
  Action, nothing, KeyCode, char, esc, KeyEvent, State, Card, insert, command, panes, Pane,
  conversation, kill_switch, quit, redraw, resolve_confirm, stop_run,
}
use starkbot_neo.Keys.Lists.{list_key, session_key, login_key, prompt_key, card_key, line_key}
use starkbot_neo.Keys.Panes.{insert_key, settings_key, pane_key, plain_key, normal_key}
use starkbot_neo.Keys.Resolve.{global_key, mode_key, overlay_key, resolve}

-- What an intent says to a confirm.
abbrev pub verdict_of : Action → Option Bool
verdict_of (resolve_confirm b) = some b
verdict_of _ = none

list_key-silent :
    (code : KeyCode) (control : Bool) → verdict_of (or_else nothing (list_key code control)) ≡ none
unfolding list_key
list_key-silent code control = ground arith

session_key-silent :
    (code : KeyCode) (control : Bool) → verdict_of (session_key code control) ≡ none
unfolding session_key
session_key-silent code control = ground arith

login_key-silent :
    (code : KeyCode) (control pasting : Bool) → verdict_of (login_key code control pasting) ≡ none
unfolding login_key
login_key-silent code control pasting = ground arith

prompt_key-silent : (code : KeyCode) (control : Bool) → verdict_of (prompt_key code control) ≡ none
unfolding prompt_key
prompt_key-silent code control = ground arith

line_key-silent : (code : KeyCode) (control : Bool) → verdict_of (line_key code control) ≡ none
unfolding line_key
line_key-silent code control = ground arith

insert_key-silent :
    (code : KeyCode) (control alt : Bool) (s : State)
    → verdict_of (insert_key code control alt s) ≡ none
unfolding insert_key
insert_key-silent code control alt s = ground arith

settings_key-silent :
    (code : KeyCode) (control : Bool) (s : State) → verdict_of (settings_key code control s) ≡ none
unfolding settings_key
settings_key-silent code control s = ground (arith, list_key-silent code control)

plain_key-silent : (code : KeyCode) (s : State) → verdict_of (plain_key code s) ≡ none
unfolding plain_key
plain_key-silent code s = ground arith

pane_key-silent :
    (p : Pane) (code : KeyCode) (s : State)
    → verdict_of (or_else nothing (pane_key p code s)) ≡ none
unfolding pane_key
pane_key-silent p code s = ground arith

normal_key-silent :
    (code : KeyCode) (control : Bool) (s : State) → verdict_of (normal_key code control s) ≡ none
unfolding normal_key
normal_key-silent code control s =
    ground
      (arith, pane_key-silent s.focus code s, list_key-silent code control, plain_key-silent code s)

mode_key-silent : (key : KeyEvent) (s : State) → verdict_of (mode_key key s) ≡ none
unfolding mode_key
mode_key-silent key s = ground (
  arith,
  line_key-silent key.code key.control,
  insert_key-silent key.code key.control key.alt s,
  settings_key-silent key.code key.control s,
  normal_key-silent key.code key.control s,
)

card_key-verdict :
    (code : KeyCode) (card : Card) (b : Bool)
    → verdict_of (card_key code card) ≡ some b
    → (card.armed ≡ true) × (card.rendered ≡ true) × (code ≡ char (if b then b'y' else b'n'))
unfolding card_key
card_key-verdict (char c) card b h = ground arith
card_key-verdict code card b h = ground arith

global_key-silent : (code : KeyCode) → verdict_of (or_else nothing (global_key code)) ≡ none
unfolding global_key
global_key-silent code = ground arith

overlay_key-verdict :
    (key : KeyEvent) (s : State) (b : Bool)
    → verdict_of (overlay_key key s) ≡ some b
    → (s.prompt ≡ false)
      × (s.login ≡ none)
      × (s.quit_prompt ≡ false)
      × (s.help ≡ false)
      × (s.sessions ≡ false)
      × ((card : Card) × (s.card ≡ some card)
          × (card.armed ≡ true)
          × (card.rendered ≡ true)
          × (key.code ≡ char (if b then b'y' else b'n')))
unfolding overlay_key
overlay_key-verdict key s b h =
    let quiet_prompt = prompt_key-silent key.code key.control in
    let quiet_login = login_key-silent key.code key.control (or_else false s.login) in
    let quiet_sessions = session_key-silent key.code key.control in
    let quiet_mode = mode_key-silent key s in
    elim (Option-cases s.card) [
      | inl e ↦ absurd (ground arith)
      | inr (card, e) ↦
          let on_card : verdict_of (card_key key.code card) ≡ some b = ground arith in
          let (armed, rendered, code) = card_key-verdict key.code card b on_card in
          (
            ground arith,
            ground arith,
            ground arith,
            ground arith,
            ground arith,
            (card, e, armed, rendered, code),
          )
    ]

-- A key resolves a confirm only where a card is focused, rendered and armed and no overlay is open:
-- it approves only on the letter y, and refuses only on the letter n.
pub resolve-confirm :
    (key : KeyEvent) (s : State) (b : Bool)
    → resolve key s ≡ resolve_confirm b
    → (key.is_release ≡ false)
      × (s.prompt ≡ false)
      × (s.login ≡ none)
      × (s.quit_prompt ≡ false)
      × (s.help ≡ false)
      × (s.sessions ≡ false)
      × ((card : Card) × (s.card ≡ some card)
          × (card.armed ≡ true)
          × (card.rendered ≡ true)
          × (key.code ≡ char (if b then b'y' else b'n')))
unfolding resolve
resolve-confirm key s b h =
    let v : verdict_of (resolve key s) ≡ some b = ap verdict_of h in
    let behind : verdict_of (overlay_key key s) ≡ some b =
      ground (arith, global_key-silent key.code) in
    let (p, l, q, hp, se, card) = overlay_key-verdict key s b behind in
    (ground arith, p, l, q, hp, se, card)

-- The press of Esc, with no modifier.
abbrev pub esc_press : KeyEvent
esc_press = record { code = esc; control = false; alt = false; is_release = false }

-- A character that is pressed with Ctrl, and with Alt or not.
abbrev pub ctrl : Bool → ℕ → KeyEvent
ctrl alt c = record { code = char c; control = true; alt = alt; is_release = false }

-- Ctrl-C, Ctrl-Q and Ctrl-L are the kill switch, the end and the redraw in every state, and a key
-- that is let go does nothing in any.
pub resolve-global :
    (s : State) (alt : Bool) (key : KeyEvent)
    → key.is_release ≡ true
    → (resolve (ctrl alt b'c') s ≡ kill_switch)
      × (resolve (ctrl alt b'q') s ≡ quit)
      × (resolve (ctrl alt b'l') s ≡ redraw)
      × (resolve key s ≡ nothing)
unfolding resolve global_key
resolve-global s alt key r = (refl, refl, refl, rw r refl)

-- One press of Esc stops the live run exactly where no overlay and no card is open, the mode is
-- neither the composer's nor the command line's, the panes are shown, the focus is on the
-- conversation, and a run is live.
pub resolve-esc_iff :
    (s : State)
    → (resolve esc_press s ≡ stop_run) ↔ (
        (s.prompt ≡ false)
        × (s.login ≡ none)
        × (s.quit_prompt ≡ false)
        × (s.help ≡ false)
        × (s.sessions ≡ false)
        × (s.card ≡ none)
        × (s.mode ≢ insert)
        × (s.mode ≢ command)
        × (s.view ≡ panes)
        × (s.focus ≡ conversation)
        × (s.has_live_run ≡ true))
unfolding resolve global_key overlay_key mode_key prompt_key login_key session_key card_key line_key
    insert_key settings_key normal_key pane_key plain_key list_key
resolve-esc_iff s = ground arith
