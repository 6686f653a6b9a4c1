-- ===== src/Keys/Panes.antt =====
-- crates/neo-tui/src/keys.rs: the composer, the settings and the panes.
use starkbot_neo.Common.{ℕ, Bool, true, false, not, ◌&&◌, ◌||◌, Option, none, some}
use starkbot_neo.Common.Tests.{◌==◌, if◌then◌else◌}
use starkbot_neo.Keys.State.{
  Action, nothing, KeyCode, char, enter, esc, backspace, up, left, page_up, page_down, State, Pane,
  conversation, projects, evals, leave_insert, composer_newline, composer_submit,
  composer_backspace, enter_command, toggle_dictation, new_conversation, composer_delete_word,
  composer_delete_line, attachments_unavailable, recall_unavailable, composer_char, select_page_up,
  select_page_down, select_first, select_last, activate, begin_set_key, remove_key,
  connect_subscription, disconnect_subscription, refresh_models, check_key, toggle_help,
  close_overlay, open_project, project_back, open_eval, eval_back, enter_insert, toggle_follow,
  stop_run, toggle_listen, pending_g_key,
}
use starkbot_neo.Keys.Lists.{list_key}

unfoldable pub insert_key : KeyCode → Bool → Bool → State → Action
insert_key esc control alt s = leave_insert
insert_key enter control alt s = if alt then composer_newline else composer_submit
insert_key backspace control alt s = composer_backspace
insert_key page_up control alt s = select_page_up
insert_key page_down control alt s = select_page_down
insert_key up control alt s = if s.composer_is_empty then recall_unavailable else nothing
insert_key (char c) control alt s =
    if c == b'j' && control
    then composer_newline
    else if c == b'/' && s.composer_is_empty
    then enter_command
    else if not control
    then composer_char c
    else if c == b'v'
    then toggle_dictation
    else if c == b'n'
    then new_conversation
    else if c == b'w'
    then composer_delete_word
    else if c == b'u'
    then composer_delete_line
    else if c == b'a'
    then attachments_unavailable
    else nothing
insert_key _ control alt s = nothing

unfoldable pub settings_key : KeyCode → Bool → State → Action
settings_key code control s = elim (list_key code control) [
  | some a ↦ a
  | none ↦ plain code s.pending_g
]
  where
    plain : KeyCode → Bool → Action
    plain enter pending = activate
    plain esc pending = close_overlay
    plain (char c) pending =
        if c == b' '
        then activate
        else if c == b's'
        then begin_set_key
        else if c == b'x'
        then remove_key
        else if c == b'c'
        then connect_subscription
        else if c == b'd'
        then disconnect_subscription
        else if c == b'r'
        then refresh_models
        else if c == b'K'
        then check_key
        else if c == b'?'
        then toggle_help
        else if c == b'g'
        then (if pending then select_first else pending_g_key)
        else if c == b'G'
        then select_last
        else if c == b'q'
        then close_overlay
        else nothing
    plain _ pending = nothing

-- Whether the focus is on the conversation.
abbrev pub on_conversation : Pane → Bool
on_conversation conversation = true
on_conversation _ = false

-- The keys of the pane in focus, before the motion.
unfoldable pub pane_key : Pane → KeyCode → State → Option Action
pane_key projects enter s = some open_project
pane_key projects backspace s = if s.project_detail then some project_back else none
pane_key projects left s = if s.project_detail then some project_back else none
pane_key evals enter s = some open_eval
pane_key evals backspace s = if s.eval_detail then some eval_back else none
pane_key evals left s = if s.eval_detail then some eval_back else none
pane_key _ _ s = none

-- The keys of the panes, behind the motion.
unfoldable pub plain_key : KeyCode → State → Action
plain_key esc s = if s.has_live_run then stop_run else close_overlay
plain_key (char c) s =
    if c == b'i' || c == b'a'
    then enter_insert
    else if c == b'/'
    then enter_command
    else if c == b'f'
    then toggle_follow
    else if c == b'v'
    then toggle_dictation
    else if c == b'?'
    then toggle_help
    else if c == b'x'
    then stop_run
    else if c == b'm'
    then toggle_listen
    else if c == b'g'
    then (if s.pending_g then select_first else pending_g_key)
    else if c == b'G'
    then select_last
    else if c == b'q'
    then close_overlay
    else nothing
plain_key _ s = nothing

abbrev pub is_char : ℕ → KeyCode → Bool
is_char c (char d) = d == c
is_char c _ = false

abbrev pub is_esc : KeyCode → Bool
is_esc esc = true
is_esc _ = false

unfoldable pub normal_key : KeyCode → Bool → State → Action
normal_key code control s =
    if control && is_char b'n' code
    then new_conversation
    else if not (on_conversation s.focus) && (is_esc code || is_char b'q' code)
    then close_overlay
    else elim (pane_key s.focus code s) [
      | some a ↦ a
      | none ↦ elim (list_key code control) [ some a ↦ a | none ↦ plain_key code s ]
    ]
