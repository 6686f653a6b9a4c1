-- ===== src/Tests/Keys.antt =====
-- crates/neo-tui/src/keys.rs: the binding table on concrete keys.
use starkbot_neo.Common.{◌≡◌, ◌≢◌, refl, ◌↔◌, true, false, none, some}
use starkbot_neo.Common.Tests.{if◌then◌else◌}
use starkbot_neo.Keys.State.{
  char, KeyEvent, State, Card, normal, insert, command, panes, conversation, resolve_confirm,
  stop_run,
}
use starkbot_neo.Keys.Resolve.{global_key, overlay_key, resolve}
use starkbot_neo.Keys.Lists.{card_key}
use starkbot_neo.Keys.Guards.{esc_press, resolve-confirm, resolve-esc_iff}

abbrev idle : State
idle = record {
  prompt = false;
  login = none;
  quit_prompt = false;
  help = false;
  sessions = false;
  card = none;
  mode = normal;
  view = panes;
  focus = conversation;
  composer_is_empty = true;
  project_detail = false;
  eval_detail = false;
  pending_g = false;
  has_live_run = true;
}

abbrev on_card : State
on_card = record idle { card = some (record { armed = true; rendered = true }) }

abbrev press : KeyEvent
press = record { code = char b'y'; control = false; alt = false; is_release = false }

abbrev let_go : KeyEvent
let_go = record press { is_release = true }

yes : resolve press on_card ≡ resolve_confirm true
unfolding resolve global_key overlay_key card_key
yes = refl

resolve-confirm_example :
    (press.is_release ≡ false)
    × (on_card.prompt ≡ false)
    × (on_card.login ≡ none)
    × (on_card.quit_prompt ≡ false)
    × (on_card.help ≡ false)
    × (on_card.sessions ≡ false)
    × ((card : Card) × (on_card.card ≡ some card)
        × (card.armed ≡ true)
        × (card.rendered ≡ true)
        × (press.code ≡ char (if true then b'y' else b'n')))
resolve-confirm_example = resolve-confirm press on_card true yes

resolve-esc_iff_example : (resolve esc_press idle ≡ stop_run) ↔ (
    (idle.prompt ≡ false)
    × (idle.login ≡ none)
    × (idle.quit_prompt ≡ false)
    × (idle.help ≡ false)
    × (idle.sessions ≡ false)
    × (idle.card ≡ none)
    × (idle.mode ≢ insert)
    × (idle.mode ≢ command)
    × (idle.view ≡ panes)
    × (idle.focus ≡ conversation)
    × (idle.has_live_run ≡ true))
resolve-esc_iff_example = resolve-esc_iff idle
