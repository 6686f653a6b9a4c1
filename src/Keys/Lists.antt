-- ===== src/Keys/Lists.antt =====
-- crates/neo-tui/src/keys.rs: the motion that every list shares, and the overlays.
use starkbot_neo.Common.{◌-◌, Bool, true, false, ◌&&◌, ◌||◌, Option, none, some}
use starkbot_neo.Common.Tests.{leb, ◌==◌, if◌then◌else◌}
use starkbot_neo.Keys.State.{
  Action, nothing, KeyCode, char, enter, esc, backspace, tab, up, down, page_up, page_down, Card,
  select_next, select_previous, select_page_down, select_page_up, select_half_down, select_half_up,
  session_next, session_previous, session_open, session_close, login_open_page, login_begin_paste,
  login_paste_char, login_paste_backspace, login_submit_paste, login_close, prompt_char,
  prompt_backspace, prompt_submit, prompt_cancel, prompt_delete_line, line_char, line_backspace,
  line_complete, line_submit, line_cancel, resolve_confirm, toggle_remember, show_me, answer_ask,
  enter_insert, unfocus_card,
}

-- Motion shared by every list.
unfoldable pub list_key : KeyCode → Bool → Option Action
list_key (char c) control =
    if c == b'd' && control
    then some select_half_down
    else if c == b'u' && control
    then some select_half_up
    else if c == b'f' && control
    then some select_page_down
    else if c == b'b' && control
    then some select_page_up
    else if c == b'j'
    then some select_next
    else if c == b'k'
    then some select_previous
    else none
list_key page_down control = some select_page_down
list_key page_up control = some select_page_up
list_key down control = some select_next
list_key up control = some select_previous
list_key _ control = none

-- Keys inside the conversation switcher.
unfoldable pub session_key : KeyCode → Bool → Action
session_key code control = elim (list_key code control) [
  | some select_previous ↦ session_previous
  | some select_half_up ↦ session_previous
  | some select_page_up ↦ session_previous
  | some _ ↦ session_next
  | none ↦ plain code
]
  where
    plain : KeyCode → Action
    plain enter = session_open
    plain esc = session_close
    plain (char c) = if c == b'q' then session_close else nothing
    plain _ = nothing

-- Keys inside the login overlay, by whether a page address is being pasted.
unfoldable pub login_key : KeyCode → Bool → Bool → Action
login_key enter control true = login_submit_paste
login_key esc control true = login_close
login_key backspace control true = login_paste_backspace
login_key (char c) control true = if control then nothing else login_paste_char c
login_key _ control true = nothing
login_key esc control false = login_close
login_key enter control false = login_open_page
login_key (char c) control false =
    if c == b'q'
    then login_close
    else if c == b'o'
    then login_open_page
    else if c == b'p'
    then login_begin_paste
    else nothing
login_key _ control false = nothing

unfoldable pub prompt_key : KeyCode → Bool → Action
prompt_key enter control = prompt_submit
prompt_key esc control = prompt_cancel
prompt_key backspace control = prompt_backspace
prompt_key (char c) control =
    if c == b'u' && control then prompt_delete_line else if control then nothing else prompt_char c
prompt_key _ control = nothing

-- Keys on a card: `y` and `n` only while it is rendered and armed.
unfoldable pub card_key : KeyCode → Card → Action
card_key (char c) card =
    let armed = card.armed && card.rendered in
    if c == b'y' && armed
    then resolve_confirm true
    else if c == b'n' && armed
    then resolve_confirm false
    else if c == b'y' || c == b'n'
    then nothing
    else if c == b'r'
    then toggle_remember
    else if c == b's'
    then show_me
    else if c == b'j'
    then select_next
    else if c == b'k'
    then select_previous
    else if leb b'1' c && leb c b'9'
    then answer_ask (c - b'0')
    else if c == b'i'
    then enter_insert
    else nothing
card_key down card = select_next
card_key up card = select_previous
card_key esc card = unfocus_card
card_key _ card = nothing

unfoldable pub line_key : KeyCode → Bool → Action
line_key enter control = line_submit
line_key esc control = line_cancel
line_key tab control = line_complete
line_key backspace control = line_backspace
line_key (char c) control = if control then nothing else line_char c
line_key _ control = nothing
