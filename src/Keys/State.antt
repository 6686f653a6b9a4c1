-- ===== src/Keys/State.antt =====
-- crates/neo-tui/src/keys.rs: the intents, the keys, and what the table reads of the state.
use starkbot_neo.Common.{ℕ, Bool, Option}

pub data Action : Type 0 where
  nothing quit ask_quit confirm_quit cancel_quit redraw toggle_help close_overlay : Action
  kill_switch stop_run toggle_follow enter_insert leave_insert enter_command : Action
  composer_char : ℕ → Action
  composer_newline composer_backspace composer_delete_word composer_delete_line : Action
  composer_submit : Action
  line_char : ℕ → Action
  line_backspace line_complete line_submit line_cancel : Action
  open_project project_back open_eval eval_back : Action
  select_next select_previous select_first select_last : Action
  select_page_down select_page_up select_half_down select_half_up : Action
  activate begin_set_key remove_key connect_subscription disconnect_subscription : Action
  login_open_page login_begin_paste : Action
  login_paste_char : ℕ → Action
  login_paste_backspace login_submit_paste login_close : Action
  refresh_models check_key toggle_dictation toggle_listen new_conversation : Action
  open_sessions session_next session_previous session_open session_close : Action
  prompt_char : ℕ → Action
  prompt_backspace prompt_submit prompt_cancel prompt_delete_line : Action
  resolve_confirm : Bool → Action
  toggle_remember show_me : Action
  answer_ask : ℕ → Action
  unfocus_card pending_g_key : Action
  attachments_unavailable recall_unavailable : Action  -- `Unavailable`, by its two texts

-- The key codes that the table names, and the others by a number.
pub data KeyCode : Type 0 where
  char : ℕ → KeyCode
  enter esc backspace tab up down left page_up page_down : KeyCode
  other_key : ℕ → KeyCode

pub record KeyEvent : Type 0 where
  pub code : KeyCode
  pub control : Bool
  pub alt : Bool
  pub is_release : Bool

pub data Mode : Type 0 where
  normal insert command card_mode : Mode

pub data View : Type 0 where
  settings panes : View

pub data Pane : Type 0 where
  conversation projects evals other_pane : Pane

pub record Card : Type 0 where
  pub armed : Bool
  pub rendered : Bool

pub record State : Type 0 where
  pub prompt : Bool
  pub login : Option Bool  -- whether its phase is `Pasting`
  pub quit_prompt : Bool
  pub help : Bool
  pub sessions : Bool
  pub card : Option Card
  pub mode : Mode
  pub view : View
  pub focus : Pane
  pub composer_is_empty : Bool
  pub project_detail : Bool
  pub eval_detail : Bool
  pub pending_g : Bool
  pub has_live_run : Bool
